-- ===== src/Chunked/Next.antt =====
-- core/chunked_decoder.go: the decoder and its step `next`.
pub mod Append
pub mod Prefix
use alos_http.Prelude.{
  ℕ, zero, suc, ◌+◌, ◌-◌, min, ltb, leb, ◌==◌, Bool, true, false, not, ◌&&◌, ◌||◌, List, [], ◌∷◌,
  ◌++◌, length, take, drop, Option, none, some, if◌then◌else◌,
}
use alos_http.Chunked.Line.{parse_chunk_size_line}
use alos_http.Chunked.Trailer.{
  Field, first_index, split_trailer_line, append_trailer_field, byte_is,
}

abbrev pub framing_line_max : ℕ
framing_line_max = 4096

pub data DecoderState : Type 0 where
  await_size in_data await_data_end in_trailer done : DecoderState

pub record Decoder : Type 0 where
  pub state : DecoderState
  pub capture_trailers : Bool
  pub left : ℕ
  pub trailer_bytes : ℕ
  pub trailers : List Field

-- The decoder's zero value, with the one field that callers set.
abbrev pub new_decoder : Bool → Decoder
new_decoder capture = record {
  state = await_size;
  capture_trailers = capture;
  left = 0;
  trailer_bytes = 0;
  trailers = [];
}

-- What a call of `next` returns: the bytes taken and the body among them, or `errChunkedMalformed`.
pub data Answer : Type 0 where
  took : ℕ → List ℕ → Answer
  malformed : Answer

unfoldable pub next_data : Decoder → List ℕ → Answer × Decoder
next_data d src =
    let n = min (length src) d.left in
    (
      took n (take n src),
      record d { left = d.left - n; state = if d.left - n == 0 then await_data_end else d.state },
    )

unfoldable pub next_data_end : Decoder → List ℕ → Answer × Decoder
next_data_end d [] = (took 0 [], d)
next_data_end d (a ∷ []) = (took 0 [], d)
next_data_end d (a ∷ b ∷ src) =
    if not (a == 0x0d) || not (b == 0x0a)
    then (malformed, d)
    else (took 2 [], record d { state = await_size })

-- A trailer line that ends at the index `nl` of its line feed.
unfoldable pub next_trailer : Decoder → List ℕ → ℕ → Answer × Decoder
next_trailer d src nl =
    let counted = record d { trailer_bytes = d.trailer_bytes + nl + 1 } in
    if ltb framing_line_max (d.trailer_bytes + nl + 1)
    then (malformed, counted)
    else if nl == 1 && byte_is src 0 0x0d
    then (took (nl + 1) [], record counted { state = done })
    else elim (split_trailer_line (take (nl + 1) src)) [
      | none ↦ (malformed, counted)
      | some f ↦ (
        took (nl + 1) [],
        if d.capture_trailers
            then record counted { trailers = append_trailer_field d.trailers f }
            else counted,
      )
    ]

unfoldable pub next_size : Decoder → List ℕ → ℕ → Answer × Decoder
next_size d src nl = elim (parse_chunk_size_line (take nl src)) [
  | none ↦ (malformed, d)
  | some size ↦ (
    took (nl + 1) [],
    if size == 0
        then record d { state = in_trailer }
        else record d { state = in_data; left = size },
  )
]

-- The search for the line's end, within the longest line that is allowed.
unfoldable pub line_end : List ℕ → Option ℕ
line_end src = first_index (λ c. c == 0x0a) (take framing_line_max src)

unfoldable pub next_line :
    (Decoder → List ℕ → ℕ → Answer × Decoder) → Decoder → List ℕ → Answer × Decoder
next_line on_line d src = elim (line_end src) [
  | none ↦ if leb framing_line_max (length src) then (malformed, d) else (took 0 [], d)
  | some nl ↦ on_line d src nl
]

unfoldable pub next_in : DecoderState → Decoder → List ℕ → Answer × Decoder
next_in in_data d src = next_data d src
next_in await_data_end d src = next_data_end d src
next_in done d src = (took 0 [], d)
next_in in_trailer d src = next_line next_trailer d src
next_in await_size d src = next_line next_size d src

unfoldable pub next : Decoder → List ℕ → Answer × Decoder
next d src = next_in d.state d src
