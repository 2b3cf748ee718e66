-- ===== src/Chunked/Feed/Capture.antt =====
-- core/chunked_decoder.go: a decoder that keeps trailers takes the steps of one that does not.
use alos_http.Prelude.{
  ℕ, ◌+◌, ◌≡◌, refl, ltb, leb, ◌==◌, true, not, ◌&&◌, ◌||◌, List, [], ◌∷◌, length, take, Bool-cases,
  Option-cases, inl, inr,
}
use alos_http.Chunked.Trailer.{split_trailer_line, append_trailer_field, byte_is, Field}
use alos_http.Chunked.Line.{parse_chunk_size_line}
use alos_http.Chunked.Next.{
  Decoder, DecoderState, await_size, in_data, await_data_end, in_trailer, done, Answer, next_data,
  next_data_end, next_trailer, next_size, line_end, next_line, next_in, next, framing_line_max,
}

-- The decoder that keeps trailers beside one that does not.
abbrev pub capturing : List Field → Decoder → Decoder
capturing ts d = record d { capture_trailers = true; trailers = ts }

-- The same step, whether trailers are kept or not.
abbrev pub Same : Answer × Decoder → Answer × Decoder → Type 0
Same r r' = (ts : List Field) × (r' ≡ (r.0, capturing ts r.1))

next_size-Same :
    (ts : List Field) (d : Decoder) (a : List ℕ) (nl : ℕ)
    → Same (next_size d a nl) (next_size (capturing ts d) a nl)
unfolding next_size
next_size-Same ts d a nl = elim (Option-cases (parse_chunk_size_line (take nl a))) [
  | inl e ↦ (ts, rw (e, next_size) refl)
  | inr (size, e) ↦ elim (Bool-cases (size == 0)) [
    | inl z ↦ (ts, rw (e, next_size) (rw z refl))
    | inr z ↦ (ts, rw (e, next_size) (rw z refl))
  ]
]

next_trailer-Same :
    (ts : List Field) (d : Decoder) (a : List ℕ) (nl : ℕ)
    → Same (next_trailer d a nl) (next_trailer (capturing ts d) a nl)
unfolding next_trailer
next_trailer-Same ts d a nl = elim (Bool-cases (ltb framing_line_max (d.trailer_bytes + nl + 1))) [
  | inl e ↦ (ts, rw (e, next_trailer) refl)
  | inr e ↦ elim (Bool-cases (nl == 1 && byte_is a 0 0x0d)) [
    | inl f ↦ (ts, rw (e, f, next_trailer) refl)
    | inr f ↦ elim (Option-cases (split_trailer_line (take (nl + 1) a))) [
      | inl g ↦ (ts, rw (e, f, g, next_trailer) refl)
      | inr (field, g) ↦ elim (Bool-cases d.capture_trailers) [
        | inl c ↦ (append_trailer_field ts field, rw (e, f, g, c, next_trailer) refl)
        | inr c ↦ (append_trailer_field ts field, rw (e, f, g, c, next_trailer) refl)
      ]
    ]
  ]
]

next_line-Same :
    (on_line : Decoder → List ℕ → ℕ → Answer × Decoder) (ts : List Field) (d : Decoder) (a : List ℕ)
    → ((nl : ℕ) → Same (on_line d a nl) (on_line (capturing ts d) a nl))
    → Same (next_line on_line d a) (next_line on_line (capturing ts d) a)
unfolding next_line
next_line-Same on_line ts d a same = elim (Option-cases (line_end a)) [
  | inl e ↦ elim (Bool-cases (leb framing_line_max (length a))) [
    | inl f ↦ (ts, rw (e, f, next_line) refl)
    | inr f ↦ (ts, rw (e, f, next_line) refl)
  ]
  | inr (nl, e) ↦ rw (e, next_line) (same nl)
]

next_data-Same :
    (ts : List Field) (d : Decoder) (a : List ℕ)
    → Same (next_data d a) (next_data (capturing ts d) a)
unfolding next_data
next_data-Same ts d a = (ts, refl)

next_data_end-Same :
    (ts : List Field) (d : Decoder) (a : List ℕ)
    → Same (next_data_end d a) (next_data_end (capturing ts d) a)
unfolding next_data_end
next_data_end-Same ts d [] = (ts, refl)
next_data_end-Same ts d (x ∷ []) = (ts, refl)
next_data_end-Same ts d (x ∷ y ∷ a) = elim (Bool-cases (not (x == 0x0d) || not (y == 0x0a))) [
  | inl e ↦ (ts, rw (e, next_data_end) refl)
  | inr e ↦ (ts, rw (e, next_data_end) refl)
]

next_in-Same :
    (s : DecoderState) (ts : List Field) (d : Decoder) (a : List ℕ)
    → Same (next_in s d a) (next_in s (capturing ts d) a)
unfolding next_in
next_in-Same in_data ts d a = next_data-Same ts d a
next_in-Same await_data_end ts d a = next_data_end-Same ts d a
next_in-Same done ts d a = (ts, refl)
next_in-Same in_trailer ts d a = next_line-Same next_trailer ts d a (next_trailer-Same ts d a)
next_in-Same await_size ts d a = next_line-Same next_size ts d a (next_size-Same ts d a)

pub next-Same :
    (ts : List Field) (d : Decoder) (a : List ℕ) → Same (next d a) (next (capturing ts d) a)
unfolding next
next-Same ts d a = next_in-Same d.state ts d a
