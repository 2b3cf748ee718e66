-- ===== src/Chunked/Body/Steps.antt =====
-- core/chunked_decoder.go: a step when more input follows, for a decoder that is in a chunk's data
-- only while some are left.
use alos_http.Prelude.{
  ℕ, ◌-◌, ◌≤◌, ◌<◌, ◌≡◌, ◌≢◌, ◌⊎◌, refl, min, false, List, [], ◌∷◌, ◌++◌, length, take, leb, ◌==◌,
  arith, Bool-cases, Option-cases, inl, inr, length-append, take-append_le, ap, ◌∙◌, sym,
}
use alos_http.Chunked.Line.{parse_chunk_size_line}
use alos_http.Chunked.Next.{
  Decoder, DecoderState, await_size, in_data, await_data_end, in_trailer, done, Answer, took,
  malformed, next_data, next_data_end, next_trailer, next_size, line_end, next_line, next_in, next,
  framing_line_max,
}
use alos_http.Chunked.Next.Append.{
  IsFinal, next_line-append, next_data_end-append, next_line_found, next_size-Local,
  next_trailer-Local,
}
use alos_http.Chunked.Next.Prefix.{next_size-TakesLine, next_trailer-TakesLine}

abbrev pub IsOpen : Decoder → Type 0
IsOpen d = d.state ≡ in_data → 0 < d.left

-- Where the decoder is in a chunk that the input does not end.
abbrev pub IsPartial : Decoder → List ℕ → Type 0
IsPartial d a = (d.state ≡ in_data) × (length a < d.left)

next_data-append :
    (d : Decoder) (a b : List ℕ) → d.left ≤ length a → next_data d (a ++ b) ≡ next_data d a
unfolding next_data
next_data-append d a b h =
    let more : min (length (a ++ b)) d.left ≡ d.left = omega (arith, length-append a b) in
    let here : min (length a) d.left ≡ d.left = omega arith in
    rw (more, here, next_data) (rw (take-append_le d.left a b h) refl)

next_in-append :
    (s : DecoderState) (d : Decoder) (a b : List ℕ)
    → d.state ≡ s
    → IsFinal (next_in s d a).0
    → (next_in s d (a ++ b) ≡ next_in s d a) ⊎ IsPartial d a
unfolding next_in
next_in-append in_data d a b e fin = elim (Bool-cases (leb d.left (length a))) [
  | inl all ↦ inl (next_data-append d a b (ground arith))
  | inr some_left ↦ inr (e, ground arith)
]
next_in-append await_data_end d a b e fin = inl (next_data_end-append d a b fin)
next_in-append done d a b e fin = inl refl
next_in-append in_trailer d a b e fin =
    inl (next_line-append next_trailer d a b next_trailer-Local fin)
next_in-append await_size d a b e fin = inl (next_line-append next_size d a b next_size-Local fin)

pub next-append :
    (d : Decoder) (a b : List ℕ)
    → IsFinal (next d a).0
    → (next d (a ++ b) ≡ next d a) ⊎ IsPartial d a
unfolding next
next-append d a b fin = next_in-append d.state d a b refl fin

next_size-IsOpen : (d : Decoder) (a : List ℕ) (nl : ℕ) → IsOpen d → IsOpen (next_size d a nl).1
unfolding next_size
next_size-IsOpen d a nl o = elim (Option-cases (parse_chunk_size_line (take nl a))) [
  | inl e ↦ rw (e, next_size) o
  | inr (size, e) ↦ elim (Bool-cases (size == 0)) [
    | inl z ↦ rw (e, next_size) (rw z (λ s. cc))
    | inr z ↦ rw (e, next_size) (rw z (λ s. ground arith))
  ]
]

next_trailer-IsOpen :
    (d : Decoder) (a : List ℕ) (nl : ℕ) → d.state ≡ in_trailer → IsOpen (next_trailer d a nl).1
unfolding next_trailer
next_trailer-IsOpen d a nl t = ground arith

next_line-IsOpen :
    (on_line : Decoder → List ℕ → ℕ → Answer × Decoder) (d : Decoder) (a : List ℕ)
    → IsOpen d
    → ((nl : ℕ) → IsOpen (on_line d a nl).1)
    → IsOpen (next_line on_line d a).1
unfolding next_line
next_line-IsOpen on_line d a o line = elim (Option-cases (line_end a)) [
  | inl e ↦ elim (Bool-cases (leb framing_line_max (length a))) [
    | inl f ↦ rw (e, f, next_line) o
    | inr f ↦ rw (e, f, next_line) o
  ]
  | inr (nl, e) ↦ rw (e, next_line) (line nl)
]

next_in-IsOpen :
    (s : DecoderState) (d : Decoder) (a : List ℕ)
    → d.state ≡ s
    → IsOpen d
    → IsOpen (next_in s d a).1
unfolding next_in next_data next_data_end
next_in-IsOpen in_data d a e o = ground (arith, o e)
next_in-IsOpen await_data_end d [] e o = o
next_in-IsOpen await_data_end d (x ∷ []) e o = o
next_in-IsOpen await_data_end d (x ∷ y ∷ a) e o = ground (arith, o)
next_in-IsOpen done d a e o = o
next_in-IsOpen in_trailer d a e o =
    next_line-IsOpen next_trailer d a o (λ nl. next_trailer-IsOpen d a nl e)
next_in-IsOpen await_size d a e o =
    next_line-IsOpen next_size d a o (λ nl. next_size-IsOpen d a nl o)

pub next-IsOpen : (d : Decoder) (a : List ℕ) → IsOpen d → IsOpen (next d a).1
unfolding next
next-IsOpen d a o = next_in-IsOpen d.state d a refl o

-- A step that takes nothing changes nothing, and has nothing for the body.
abbrev Idle : Decoder → Answer × Decoder → Type 0
Idle d r = (r.0 ≡ took 0 []) × (r.1 ≡ d)

next_line-Idle :
    (on_line : Decoder → List ℕ → ℕ → Answer × Decoder) (d : Decoder) (a : List ℕ) (bytes : List ℕ)
    → ((nl : ℕ) → (on_line d a nl).0 ≢ took 0 bytes)
    → (next_line on_line d a).0 ≡ took 0 bytes
    → Idle d (next_line on_line d a)
unfolding next_line
next_line-Idle on_line d a bytes line t = elim (Option-cases (line_end a)) [
  | inl e ↦ elim (Bool-cases (leb framing_line_max (length a))) [
    | inl f ↦ let bad : malformed ≡ took 0 bytes = rw (e, f, next_line) at t in cc
    | inr f ↦ rw (e, f, next_line) (refl, refl)
  ]
  | inr (nl, e) ↦ absurd (line nl (ap (λ r. r.0) (sym (next_line_found on_line d a nl e)) ∙ t))
]

next_in-Idle :
    (s : DecoderState) (d : Decoder) (a bytes : List ℕ)
    → d.state ≡ s
    → IsOpen d
    → (next_in s d a).0 ≡ took 0 bytes
    → Idle d (next_in s d a)
unfolding next_in next_data next_data_end
next_in-Idle in_data d a bytes e o t =
    let left : 0 < d.left = o e in
    let none_taken : min (length a) d.left ≡ 0 = ground (arith, t) in
    let unspent : d.left - 0 ≡ d.left = omega arith in
    let more : (d.left == 0) ≡ false = ground arith in rw (none_taken, unspent, more) (refl, refl)
next_in-Idle await_data_end d [] bytes e o t = (refl, refl)
next_in-Idle await_data_end d (x ∷ []) bytes e o t = (refl, refl)
next_in-Idle await_data_end d (x ∷ y ∷ a) bytes e o t = ground arith
next_in-Idle done d a bytes e o t = (refl, refl)
next_in-Idle in_trailer d a bytes e o t =
    next_line-Idle next_trailer d a bytes
      (λ nl z. absurd (let l = next_trailer-TakesLine d a nl 0 bytes z in omega arith)) t
next_in-Idle await_size d a bytes e o t =
    next_line-Idle next_size d a bytes
      (λ nl z. absurd (let l = next_size-TakesLine d a nl 0 bytes z in omega arith)) t

pub next-Idle :
    (d : Decoder) (a bytes : List ℕ) → IsOpen d → (next d a).0 ≡ took 0 bytes → Idle d (next d a)
unfolding next
next-Idle d a bytes o t = next_in-Idle d.state d a bytes refl o t
