-- ===== src/Chunked/Feed/ChunkSteps.antt =====
-- core/chunked_decoder.go: the decoder's steps on a chunk as core/stream.go writes it.
use alos_http.Prelude.{
  ℕ, zero, suc, ◌+◌, ◌-◌, ◌/◌, ◌%◌, ◌≤◌, ◌<◌, ◌≡◌, refl, min, ◌==◌, true, false, List, [], ◌∷◌,
  ◌++◌, length, take, drop, All, some, arith, Bool-cases, inl, inr, length-append, take_all,
  take-append_left, drop-append_left, append_assoc, ap, ◌∙◌, sym,
}
use alos_http.Text.Ascii.{hex_valid, hex_lookup}
use alos_http.Text.Hex.{
  append_hex, hex_loop, hex_byte, hex_byte_lem, parse_hex64, parse_hex_loop, parse_hex64-append_hex,
  max_parsed_length,
}
use alos_http.Chunked.Trailer.{first_index}
use alos_http.Chunked.Line.{
  parse_chunk_size_line, strip_cr, split_digits, valid_chunk_extensions, valid_extensions_loop,
}
use alos_http.Chunked.Next.{
  Decoder, DecoderState, in_data, await_data_end, in_trailer, done, took, next_data, next_data_end,
  next_trailer, next_size, line_end, next_line, next_in, next, framing_line_max, new_decoder,
}
use alos_http.Chunked.Next.Append.{line_end-append, next_line_found}
use alos_http.Chunked.Feed.{h1_last_chunk}

-- Hexadecimal digits, as the writer writes them.
abbrev AllHex : List ℕ → Type 0
AllHex = All (λ c. hex_valid c ≡ true)

hex_loop-AllHex :
    (room n : ℕ) (buf : List ℕ)
    → AllHex buf
    → AllHex (hex_loop room n buf) × (length (hex_loop room n buf) ≤ room + length buf)
unfolding hex_loop
hex_loop-AllHex zero n buf h = (h, omega arith)
hex_loop-AllHex (suc room) n buf h = elim (Bool-cases (n == 0)) [
  | inl e ↦ rw (e, hex_loop) (h, omega arith)
  | inr e ↦
      let rest =
        hex_loop-AllHex room (n / 16) (hex_byte (n % 16) ∷ buf)
          ((hex_byte_lem (n % 16) (omega arith)).0, h) in
      rw (e, hex_loop) (rest.0, omega (arith, rest.1))
]

append_hex-AllHex : (n : ℕ) → AllHex (append_hex [] n) × (length (append_hex [] n) ≤ 16)
unfolding append_hex hex_valid
append_hex-AllHex n = elim (Bool-cases (n == 0)) [
  | inl e ↦ rw (e, append_hex) ((refl, tt), omega arith)
  | inr e ↦ rw (e, append_hex) (hex_loop-AllHex 16 n [] tt)
]

strip_cr-append : (l : List ℕ) → strip_cr (l ++ (0x0d ∷ [])) ≡ some l
unfolding strip_cr
strip_cr-append [] = refl
strip_cr-append (c ∷ []) = refl
strip_cr-append (c ∷ x ∷ l) = rw (strip_cr-append (x ∷ l), strip_cr) refl

split_digits-AllHex : (l : List ℕ) → AllHex l → split_digits l ≡ (l, [])
unfolding split_digits
split_digits-AllHex [] h = refl
split_digits-AllHex (c ∷ l) h = rw (h.0, split_digits-AllHex l h.1, split_digits) refl

parse_chunk_size_line_hex :
    (n : ℕ)
    → n ≤ max_parsed_length
    → parse_chunk_size_line (append_hex [] n ++ (0x0d ∷ [])) ≡ some n
unfolding parse_chunk_size_line
parse_chunk_size_line_hex n h =
    rw
      (
        strip_cr-append (append_hex [] n),
        split_digits-AllHex (append_hex [] n) (append_hex-AllHex n).0,
        parse_hex64-append_hex n h,
        split_digits-AllHex (append_hex [] n) (append_hex-AllHex n).0,
        parse_chunk_size_line,
      )
      (unfold valid_chunk_extensions valid_extensions_loop in refl)

first_index_hex :
    (l more : List ℕ)
    → AllHex l
    → first_index (λ c. c == 0x0a) (l ++ (0x0d ∷ 0x0a ∷ more)) ≡ some (length l + 1)
unfolding first_index hex_valid
first_index_hex [] more h = refl
first_index_hex (c ∷ l) more h = ground (arith, first_index_hex l more h.1)

-- The line that gives a chunk's size, and its end.
size_line_end :
    (n : ℕ) (more : List ℕ)
    → line_end (append_hex [] n ++ (0x0d ∷ 0x0a ∷ more)) ≡ some (length (append_hex [] n) + 1)
unfolding line_end
size_line_end n more =
    let digits = append_hex [] n in
    let hex = append_hex-AllHex n in
    let short : line_end (digits ++ (0x0d ∷ 0x0a ∷ [])) ≡ some (length digits + 1) =
      ap (first_index (λ c. c == 0x0a)) (
        take_all framing_line_max (digits ++ (0x0d ∷ 0x0a ∷ []))
          (omega (arith, hex.1, length-append digits (0x0d ∷ 0x0a ∷ []))))
      ∙ first_index_hex digits [] hex.0 in
    ap line_end (sym (append_assoc digits (0x0d ∷ 0x0a ∷ []) more))
    ∙ (line_end-append (digits ++ (0x0d ∷ 0x0a ∷ [])) more (length digits + 1) short).0

take_line : (l more : List ℕ) (x : ℕ) → take (length l + 1) (l ++ (x ∷ more)) ≡ l ++ (x ∷ [])
take_line l more x =
    let e : length (l ++ (x ∷ [])) ≡ length l + 1 = length-append l (x ∷ []) in
    ap (take (length l + 1)) (sym (append_assoc l (x ∷ []) more))
    ∙ ap (λ k. take k ((l ++ (x ∷ [])) ++ more)) (sym e)
    ∙ take-append_left (l ++ (x ∷ [])) more

pub drop_line : (l more : List ℕ) (x y : ℕ) → drop (suc (length l + 1)) (l ++ (x ∷ y ∷ more)) ≡ more
drop_line l more x y =
    let e : length (l ++ (x ∷ y ∷ [])) ≡ suc (length l + 1) =
      omega (arith, length-append l (x ∷ y ∷ [])) in
    ap (drop (suc (length l + 1))) (sym (append_assoc l (x ∷ y ∷ []) more))
    ∙ ap (λ k. drop k ((l ++ (x ∷ y ∷ [])) ++ more)) (sym e)
    ∙ drop-append_left (l ++ (x ∷ y ∷ [])) more

-- The three steps of a chunk.
abbrev pub reading : ℕ → DecoderState → Decoder
reading n s = record (new_decoder true) { state = s; left = n }

pub next_size_line :
    (n : ℕ) (more : List ℕ)
    → 0 < n
    → n ≤ max_parsed_length
    → next (new_decoder true) (append_hex [] n ++ (0x0d ∷ 0x0a ∷ more))
      ≡ (took (suc (length (append_hex [] n) + 1)) [], reading n in_data)
unfolding next next_in next_size
next_size_line n more pos h =
    let digits = append_hex [] n in
    let cut : take (length digits + 1) (digits ++ (0x0d ∷ 0x0a ∷ more)) ≡ digits ++ (0x0d ∷ []) =
      take_line digits (0x0a ∷ more) 0x0d in
    let nonzero : (n == 0) ≡ false = ground arith in
    let counted : length digits + 1 + 1 ≡ suc (length digits + 1) = omega arith in
    next_line_found next_size (new_decoder true) (digits ++ (0x0d ∷ 0x0a ∷ more))
      (length digits + 1) (size_line_end n more)
    ∙ rw (cut, next_size) (rw (parse_chunk_size_line_hex n h) (rw (nonzero, counted) refl))

pub next_chunk_data :
    (body more : List ℕ)
    → next (reading (length body) in_data) (body ++ more)
      ≡ (took (length body) body, reading 0 await_data_end)
unfolding next next_in next_data
next_chunk_data body more =
    let m : min (length (body ++ more)) (length body) ≡ length body =
      omega (arith, length-append body more) in
    let z : length body - length body ≡ 0 = omega arith in
    rw (m, z, take-append_left body more) refl

pub next_chunk_end :
    (more : List ℕ)
    → next (reading 0 await_data_end) (0x0d ∷ 0x0a ∷ more) ≡ (took 2 [], new_decoder true)
unfolding next next_in next_data_end
next_chunk_end more = refl

-- The decoder behind the line `0`, and behind the empty line.
abbrev pub ending : ℕ → DecoderState → Decoder
ending n s = record (new_decoder true) { state = s; trailer_bytes = n }

pub next_last_size :
    (more : List ℕ)
    → next (new_decoder true) (h1_last_chunk ++ more) ≡ (took 3 [], ending 0 in_trailer)
unfolding next next_in next_line next_size line_end first_index parse_chunk_size_line strip_cr
    split_digits hex_valid hex_lookup parse_hex64 parse_hex_loop valid_chunk_extensions
    valid_extensions_loop
next_last_size more = refl

pub next_last_line :
    (more : List ℕ) → next (ending 0 in_trailer) (0x0d ∷ 0x0a ∷ more) ≡ (took 2 [], ending 2 done)
unfolding next next_in next_line next_trailer line_end first_index
next_last_line more = refl
