-- ===== src/Chunked/Next/Prefix.antt =====
-- core/chunked_decoder.go: a step on a shorter input, and how far a step goes.
use alos_http.Prelude.{
  ℕ, ◌+◌, ◌≤◌, ◌<◌, ◌≡◌, refl, min, List, [], ◌∷◌, ◌++◌, length, none, arith, Option-cases, inl,
  inr, take-append_le, length-append, ap, ◌∙◌, sym,
}
use alos_http.Chunked.Next.{
  Decoder, DecoderState, await_size, in_data, await_data_end, in_trailer, done, Answer, took,
  next_data, next_data_end, next_trailer, next_size, line_end, next_line, next_in, next,
}
use alos_http.Chunked.Next.Append.{
  Local, next_line_found, line_end-append, line_end-prefix, next_size-Local, next_trailer-Local,
}

-- What a line's handler takes is the line, if it takes anything.
abbrev pub TakesLine : (Decoder → List ℕ → ℕ → Answer × Decoder) → Type 0
TakesLine on_line =
    (d : Decoder) (a : List ℕ) (nl n : ℕ) (bytes : List ℕ)
    → (on_line d a nl).0 ≡ took n bytes
    → n ≡ nl + 1

pub next_size-TakesLine : TakesLine next_size
unfolding next_size
next_size-TakesLine d a nl n bytes e = ground arith

pub next_trailer-TakesLine : TakesLine next_trailer
unfolding next_trailer
next_trailer-TakesLine d a nl n bytes e = ground arith

next_line-none :
    (on_line : Decoder → List ℕ → ℕ → Answer × Decoder) (d : Decoder) (a : List ℕ) (n : ℕ)
    (bytes : List ℕ)
    → line_end a ≡ none
    → (next_line on_line d a).0 ≡ took n bytes
    → n ≡ 0
unfolding next_line
next_line-none on_line d a n bytes e t = ground (arith, e, t)

next_data-takes :
    (d : Decoder) (a : List ℕ) (n : ℕ) (bytes : List ℕ)
    → (next_data d a).0 ≡ took n bytes
    → n ≤ length a
unfolding next_data
next_data-takes d a n bytes e = ground arith

next_data_end-takes :
    (d : Decoder) (a : List ℕ) (n : ℕ) (bytes : List ℕ)
    → (next_data_end d a).0 ≡ took n bytes
    → n ≤ length a
unfolding next_data_end
next_data_end-takes d [] n bytes e = ground arith
next_data_end-takes d (x ∷ []) n bytes e = ground arith
next_data_end-takes d (x ∷ y ∷ a) n bytes e = ground arith

next_line-takes :
    (on_line : Decoder → List ℕ → ℕ → Answer × Decoder) (d : Decoder) (a : List ℕ) (n : ℕ)
    (bytes : List ℕ)
    → TakesLine on_line
    → (next_line on_line d a).0 ≡ took n bytes
    → n ≤ length a
next_line-takes on_line d a n bytes tl t = elim (Option-cases (line_end a)) [
  | inl e ↦ omega (arith, next_line-none on_line d a n bytes e t)
  | inr (nl, e) ↦
      let t' = ap (λ r. r.0) (sym (next_line_found on_line d a nl e)) ∙ t in
      omega (arith, tl d a nl n bytes t', line_end-append a [] nl e)
]

next_in-takes :
    (s : DecoderState) (d : Decoder) (a : List ℕ) (n : ℕ) (bytes : List ℕ)
    → (next_in s d a).0 ≡ took n bytes
    → n ≤ length a
unfolding next_in
next_in-takes in_data d a n bytes t = next_data-takes d a n bytes t
next_in-takes await_data_end d a n bytes t = next_data_end-takes d a n bytes t
next_in-takes done d a n bytes t = ground arith
next_in-takes in_trailer d a n bytes t =
    next_line-takes next_trailer d a n bytes next_trailer-TakesLine t
next_in-takes await_size d a n bytes t = next_line-takes next_size d a n bytes next_size-TakesLine t

-- A step takes no more than there is.
pub next-takes :
    (d : Decoder) (a : List ℕ) (n : ℕ) (bytes : List ℕ) → (next d a).0 ≡ took n bytes → n ≤ length a
unfolding next
next-takes d a n bytes t = next_in-takes d.state d a n bytes t

next_line-prefix :
    (on_line : Decoder → List ℕ → ℕ → Answer × Decoder) (d : Decoder) (a b : List ℕ) (n : ℕ)
    (bytes : List ℕ)
    → Local on_line
    → TakesLine on_line
    → (next_line on_line d (a ++ b)).0 ≡ took n bytes
    → 0 < n
    → n ≤ length a
    → next_line on_line d (a ++ b) ≡ next_line on_line d a
next_line-prefix on_line d a b n bytes loc tl t pos h = elim (Option-cases (line_end (a ++ b))) [
  | inl e ↦ let z = next_line-none on_line d (a ++ b) n bytes e t in absurd (omega arith)
  | inr (nl, e) ↦
      let found = next_line_found on_line d (a ++ b) nl e in
      let same = tl d (a ++ b) nl n bytes (ap (λ r. r.0) (sym found) ∙ t) in
      let inside : nl < length a = omega (arith, same) in
      found
      ∙ loc d a b nl inside
      ∙ sym (next_line_found on_line d a nl (line_end-prefix a b nl e inside))
]

next_data_end-prefix :
    (d : Decoder) (a b : List ℕ) (n : ℕ) (bytes : List ℕ)
    → (next_data_end d (a ++ b)).0 ≡ took n bytes
    → 0 < n
    → n ≤ length a
    → next_data_end d (a ++ b) ≡ next_data_end d a
unfolding next_data_end
next_data_end-prefix d [] b n bytes t pos h = absurd (omega arith)
next_data_end-prefix d (x ∷ []) [] n bytes t pos h = refl
next_data_end-prefix d (x ∷ []) (y ∷ b) n bytes t pos h = ground arith
next_data_end-prefix d (x ∷ y ∷ a) b n bytes t pos h = refl

next_data_size :
    (d : Decoder) (a : List ℕ) (n : ℕ) (bytes : List ℕ)
    → (next_data d a).0 ≡ took n bytes
    → n ≡ min (length a) d.left
unfolding next_data
next_data_size d a n bytes e = ground arith

next_data-prefix :
    (d : Decoder) (a b : List ℕ) (n : ℕ) (bytes : List ℕ)
    → (next_data d (a ++ b)).0 ≡ took n bytes
    → n ≤ length a
    → next_data d (a ++ b) ≡ next_data d a
unfolding next_data
next_data-prefix d a b n bytes t h =
    let m : min (length (a ++ b)) d.left ≡ min (length a) d.left =
      omega (arith, next_data_size d (a ++ b) n bytes t, length-append a b) in
    rw m (rw (take-append_le (min (length a) d.left) a b (omega arith)) refl)

next_in-prefix :
    (s : DecoderState) (d : Decoder) (a b : List ℕ) (n : ℕ) (bytes : List ℕ)
    → (next_in s d (a ++ b)).0 ≡ took n bytes
    → 0 < n
    → n ≤ length a
    → next_in s d (a ++ b) ≡ next_in s d a
unfolding next_in
next_in-prefix in_data d a b n bytes t pos h = next_data-prefix d a b n bytes t h
next_in-prefix await_data_end d a b n bytes t pos h = next_data_end-prefix d a b n bytes t pos h
next_in-prefix done d a b n bytes t pos h = refl
next_in-prefix in_trailer d a b n bytes t pos h =
    next_line-prefix next_trailer d a b n bytes next_trailer-Local next_trailer-TakesLine t pos h
next_in-prefix await_size d a b n bytes t pos h =
    next_line-prefix next_size d a b n bytes next_size-Local next_size-TakesLine t pos h

-- A step that took no more than `a` off `a ++ b` is the step on `a`.
pub next-prefix :
    (d : Decoder) (a b : List ℕ) (n : ℕ) (bytes : List ℕ)
    → (next d (a ++ b)).0 ≡ took n bytes
    → 0 < n
    → n ≤ length a
    → next d (a ++ b) ≡ next d a
unfolding next
next-prefix d a b n bytes t pos h = next_in-prefix d.state d a b n bytes t pos h
