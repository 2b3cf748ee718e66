-- ===== src/Chunked/Line.antt =====
-- core/chunked_decoder.go: the line that gives a chunk's size. A slice and an index into it are
-- the rest of the slice, `b[i:]`.
use alos_http.Prelude.{
  ℕ, zero, suc, ltb, leb, ◌==◌, Bool, true, false, not, ◌||◌, List, [], ◌∷◌, length, Option, none,
  some, if◌then◌else◌,
}
use alos_http.Text.Ascii.{hex_valid, h1_token_char, between}
use alos_http.Text.Hex.{parse_hex64}

unfoldable pub skip_bws : List ℕ → List ℕ
skip_bws [] = []
skip_bws (c ∷ b) = let rest = skip_bws b in if c == b' ' || c == 0x09 then rest else c ∷ b

unfoldable pub skip_token : List ℕ → List ℕ
skip_token [] = []
skip_token (c ∷ b) = let rest = skip_token b in if h1_token_char c then rest else c ∷ b

unfoldable pub qdtext_byte : ℕ → Bool
qdtext_byte c =
    c == 0x09 || c == b' ' || c == 0x21 || between 0x23 0x5b c || between 0x5d 0x7e c || leb 0x80 c

unfoldable pub quoted_pair_byte : ℕ → Bool
quoted_pair_byte c = c == 0x09 || between b' ' 0x7e c || leb 0x80 c

-- The inside of a quoted string: what follows its closing quote, or `none` for the code's -1.
unfoldable pub skip_quoted : List ℕ → Option (List ℕ)
skip_quoted [] = none
skip_quoted (c ∷ []) = if c == b'"' then some [] else none
skip_quoted (c ∷ d ∷ b) =
    let after_pair = skip_quoted b in
    let after_text = skip_quoted (d ∷ b) in
    if c == b'"'
    then some (d ∷ b)
    else if c == 0x5c
    then (if quoted_pair_byte d then after_pair else none)
    else if qdtext_byte c
    then after_text
    else none

-- Whether `skipToken` moved.
abbrev pub token_value : List ℕ → Option (List ℕ)
token_value b = let rest = skip_token b in if ltb (length rest) (length b) then some rest else none

unfoldable pub skip_chunk_ext_value : List ℕ → Option (List ℕ)
skip_chunk_ext_value [] = token_value []
skip_chunk_ext_value (c ∷ b) = if c == b'"' then skip_quoted b else token_value (c ∷ b)

-- What follows `=` and its value, if the name has one.
unfoldable pub skip_ext_assignment : List ℕ → Option (List ℕ)
skip_ext_assignment b = elim (skip_bws b) [
  | [] ↦ some b
  | c ∷ rest ↦ if c == b'=' then skip_chunk_ext_value (skip_bws rest) else some b
]

-- One round of `validChunkExtensions`: `;`, a name and a value.
unfoldable pub skip_extension : List ℕ → Option (List ℕ)
skip_extension b = elim (skip_bws b) [
  | [] ↦ none
  | c ∷ rest ↦
      let name = skip_bws rest in
      let after = skip_token name in
      if not (c == b';')
      then none
      else if ltb (length after) (length name)
      then skip_ext_assignment after
      else none
]

-- Every round takes a byte at least, so that as many rounds as bytes are enough.
unfoldable pub valid_extensions_loop : ℕ → List ℕ → Bool
valid_extensions_loop fuel [] = true
valid_extensions_loop zero (c ∷ b) = false
valid_extensions_loop (suc fuel) (c ∷ b) = elim (skip_extension (c ∷ b)) [
  | none ↦ false
  | some rest ↦ valid_extensions_loop fuel rest
]

unfoldable pub valid_chunk_extensions : List ℕ → Bool
valid_chunk_extensions ext = valid_extensions_loop (length ext) ext

-- The digits in front, and what follows them.
unfoldable pub split_digits : List ℕ → List ℕ × List ℕ
split_digits [] = ([], [])
split_digits (c ∷ b) =
    let (digits, rest) = split_digits b in if hex_valid c then (c ∷ digits, rest) else ([], c ∷ b)

-- A line without its last byte, if that is the carriage return.
unfoldable pub strip_cr : List ℕ → Option (List ℕ)
strip_cr [] = none
strip_cr (c ∷ []) = if c == 0x0d then some [] else none
strip_cr (c ∷ d ∷ b) = elim (strip_cr (d ∷ b)) [ none ↦ none | some l ↦ some (c ∷ l) ]

unfoldable pub parse_chunk_size_line : List ℕ → Option ℕ
parse_chunk_size_line line = elim (strip_cr line) [
  | none ↦ none
  | some l ↦
      let (digits, ext) = split_digits l in
      elim (parse_hex64 digits) [
        | none ↦ none
        | some size ↦ if valid_chunk_extensions ext then some size else none
      ]
]
