-- ===== src/Chunked/Next/Append.antt =====
-- core/chunked_decoder.go: a step on a longer input.
use alos_http.Prelude.{
  ℕ, zero, suc, ◌+◌, ◌-◌, ◌≤◌, ◌<◌, ◌≡◌, refl, leb, ◌==◌, Bool, List, [], ◌∷◌, ◌++◌, length, take,
  none, some, arith, Bool-cases, Option-cases, inl, inr, take-append, take-append_le, length-take,
  length-append, leb→le, le→leb, ap, subst, ◌∙◌, sym,
}
use alos_http.Chunked.Trailer.{first_index, byte_is}
use alos_http.Chunked.Next.{
  Decoder, Answer, took, malformed, next_data_end, next_trailer, next_size, line_end, next_line,
  framing_line_max,
}

first_index-append :
    (test : ℕ → Bool) (xs ys : List ℕ) (k : ℕ)
    → first_index test xs ≡ some k
    → (first_index test (xs ++ ys) ≡ some k) × (k < length xs)
unfolding first_index
first_index-append test [] ys k e = cc
first_index-append test (x ∷ xs) ys zero e = ground arith
first_index-append test (x ∷ xs) ys (suc k) e = ground (arith, first_index-append test xs ys k)

pub line_end-append :
    (a b : List ℕ) (nl : ℕ)
    → line_end a ≡ some nl
    → (line_end (a ++ b) ≡ some nl) × (nl < length a) × (nl < framing_line_max)
unfolding line_end
line_end-append a b nl e =
    let found =
      first_index-append (λ c. c == 0x0a) (take framing_line_max a)
        (take (framing_line_max - length a) b) nl e in
    (
      rw (take-append framing_line_max a b) found.0,
      omega (arith, found.1, length-take framing_line_max a),
      omega (arith, found.1, length-take framing_line_max a),
    )

line_end-append_long : (a b : List ℕ) → framing_line_max ≤ length a → line_end (a ++ b) ≡ line_end a
unfolding line_end
line_end-append_long a b h = rw (take-append_le framing_line_max a b h)

byte_is-append : (a b : List ℕ) (i c : ℕ) → i < length a → byte_is (a ++ b) i c ≡ byte_is a i c
byte_is-append [] b i c h = absurd (omega arith)
byte_is-append (x ∷ a) b zero c h = refl
byte_is-append (x ∷ a) b (suc i) c h = byte_is-append a b i c (omega arith)

-- What a line's handler does depends on the line alone.
abbrev pub Local : (Decoder → List ℕ → ℕ → Answer × Decoder) → Type 0
Local on_line =
    (d : Decoder) (a b : List ℕ) (nl : ℕ) → nl < length a → on_line d (a ++ b) nl ≡ on_line d a nl

pub next_size-Local : Local next_size
unfolding next_size
next_size-Local d a b nl h = rw (take-append_le nl a b (omega arith), next_size) refl

pub next_trailer-Local : Local next_trailer
unfolding next_trailer
next_trailer-Local d a b nl h =
    rw
      (
        take-append_le (nl + 1) a b (omega arith),
        byte_is-append a b 0 0x0d (omega arith),
        next_trailer,
      )
      refl

-- An answer that is not "more input, please" stays when input is added.
abbrev pub IsFinal : Answer → Type 0
IsFinal malformed = Unit
IsFinal (took n bytes) = 0 < n

-- With no line feed, only a line that is too long is a final answer.
next_line_long :
    (on_line : Decoder → List ℕ → ℕ → Answer × Decoder) (d : Decoder) (a : List ℕ)
    → line_end a ≡ none
    → IsFinal (next_line on_line d a).0
    → framing_line_max ≤ length a
unfolding next_line
next_line_long on_line d a e fin = elim (Bool-cases (leb framing_line_max (length a))) [
  | inl long ↦ leb→le framing_line_max (length a) long
  | inr short ↦
      let waits : next_line on_line d a ≡ (took 0 [], d) = rw (e, short, next_line) refl in
      let final : 0 < 0 = subst (λ t. IsFinal t.0) waits fin in absurd (omega arith)
]

next_line_too_long :
    (on_line : Decoder → List ℕ → ℕ → Answer × Decoder) (d : Decoder) (a : List ℕ)
    → line_end a ≡ none
    → framing_line_max ≤ length a
    → next_line on_line d a ≡ (malformed, d)
unfolding next_line
next_line_too_long on_line d a e h = rw (e, le→leb framing_line_max (length a) h, next_line) refl

pub next_line_found :
    (on_line : Decoder → List ℕ → ℕ → Answer × Decoder) (d : Decoder) (a : List ℕ) (nl : ℕ)
    → line_end a ≡ some nl
    → next_line on_line d a ≡ on_line d a nl
unfolding next_line
next_line_found on_line d a nl e = rw (e, next_line) refl

pub next_line-append :
    (on_line : Decoder → List ℕ → ℕ → Answer × Decoder) (d : Decoder) (a b : List ℕ)
    → Local on_line
    → IsFinal (next_line on_line d a).0
    → next_line on_line d (a ++ b) ≡ next_line on_line d a
next_line-append on_line d a b loc fin = elim (Option-cases (line_end a)) [
  | inl e ↦
      let long = next_line_long on_line d a e fin in
      next_line_too_long on_line d (a ++ b) (line_end-append_long a b long ∙ e)
        (omega (arith, length-append a b, long))
      ∙ sym (next_line_too_long on_line d a e long)
  | inr (nl, e) ↦
      let found = line_end-append a b nl e in
      next_line_found on_line d (a ++ b) nl found.0
      ∙ loc d a b nl found.1
      ∙ sym (next_line_found on_line d a nl e)
]

pub next_data_end-append :
    (d : Decoder) (a b : List ℕ)
    → IsFinal (next_data_end d a).0
    → next_data_end d (a ++ b) ≡ next_data_end d a
unfolding next_data_end
next_data_end-append d [] b fin = absurd (omega arith)
next_data_end-append d (x ∷ []) b fin = absurd (omega arith)
next_data_end-append d (x ∷ y ∷ a) b fin = refl

-- The other way round: a step that took no more than `a` off `a ++ b` is the step on `a`.
first_index-prefix :
    (test : ℕ → Bool) (xs ys : List ℕ) (k : ℕ)
    → first_index test (xs ++ ys) ≡ some k
    → k < length xs
    → first_index test xs ≡ some k
unfolding first_index
first_index-prefix test [] ys k e h = absurd (omega arith)
first_index-prefix test (x ∷ xs) ys zero e h = ground arith
first_index-prefix test (x ∷ xs) ys (suc k) e h = ground (arith, first_index-prefix test xs ys k)

pub line_end-prefix :
    (a b : List ℕ) (nl : ℕ) → line_end (a ++ b) ≡ some nl → nl < length a → line_end a ≡ some nl
unfolding line_end
line_end-prefix a b nl e h =
    first_index-prefix (λ c. c == 0x0a) (take framing_line_max a)
      (take (framing_line_max - length a) b) nl
      (ap (first_index (λ c. c == 0x0a)) (sym (take-append framing_line_max a b)) ∙ e)
      (omega (arith, length-take framing_line_max a, line_end-append (a ++ b) [] nl e))
