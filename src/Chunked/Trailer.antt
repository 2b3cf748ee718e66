-- ===== src/Chunked/Trailer.antt =====
-- core/trailers.go, and the line scan of core/h1scan.go that it uses.
use alos_http.Prelude.{
  ℕ, suc, ◌+◌, ltb, ◌==◌, Bool, true, false, not, ◌&&◌, ◌||◌, List, [], ◌∷◌, ◌++◌, length, take,
  drop, get_elem?, Option, none, some, if◌then◌else◌,
}
use mathlib.Core.Option
use alos_http.Text.Ascii.{h1_token_char, is_h1_special, equal_fold_ascii}

abbrev pub Field : Type 0
Field = List ℕ × List ℕ

-- The index of the first byte of a class; `none` stands for -1.
unfoldable pub first_index : (ℕ → Bool) → List ℕ → Option ℕ
first_index test [] = none
first_index test (c ∷ p) =
    let later = Option.map suc (first_index test p) in if test c then some 0 else later

unfoldable pub first_non_token_byte : List ℕ → Option ℕ
first_non_token_byte p = first_index (λ c. not (h1_token_char c)) p

-- `firstH1SpecialSWAR` tests the bytes one by one where less than eight are left, and eight at a
-- time by word arithmetic before that, with the same test on what it finds.
unfoldable pub first_h1_special : List ℕ → Option ℕ
first_h1_special p = first_index is_h1_special p

-- `h1HeaderLineSWAR`: the first special byte from the end of the name on, and that end.
unfoldable pub header_line_specials : List ℕ → Option ℕ × Option ℕ
header_line_specials p = elim (first_non_token_byte p) [
  | none ↦ (none, none)
  | some k ↦ (Option.map (λ s. k + s) (first_h1_special (drop k p)), some k)
]

abbrev pub byte_is : List ℕ → ℕ → ℕ → Bool
byte_is p i c = elim (get_elem? p i) [ none ↦ false | some b ↦ b == c ]

-- `classifyFirstSpecial`: the line's end, and whether the byte is out of place.
unfoldable pub classify_first_special : List ℕ → Option ℕ → Option ℕ × Bool
classify_first_special p none = (none, false)
classify_first_special p (some i) =
    if byte_is p i 0x0d
    then (if i + 1 == length p
        then (none, false)
        else if byte_is p (i + 1) 0x0a
        then (some i, false)
        else (some i, true))
    else (some i, true)

unfoldable pub valid_h1_colon : List ℕ → ℕ → Bool
valid_h1_colon line name_end =
    ltb 0 name_end && ltb name_end (length line) && byte_is line name_end b':'

abbrev pub is_ows : ℕ → Bool
is_ows c = c == b' ' || c == 0x09

abbrev pub is_empty : List ℕ → Bool
is_empty [] = true
is_empty (c ∷ b) = false

unfoldable pub trim_left : List ℕ → List ℕ
trim_left [] = []
trim_left (c ∷ b) = let rest = trim_left b in if is_ows c then rest else c ∷ b

unfoldable pub trim_right : List ℕ → List ℕ
trim_right [] = []
trim_right (c ∷ b) = let rest = trim_right b in if is_empty rest && is_ows c then [] else c ∷ rest

unfoldable pub trim_ows : List ℕ → List ℕ
trim_ows b = trim_right (trim_left b)

-- The name and the value of a line that ends in CRLF.
unfoldable pub split_trailer_line : List ℕ → Option Field
split_trailer_line line =
    let (special, name_end) = header_line_specials line in
    let (end, bad) = classify_first_special line special in
    elim end [
      | none ↦ none
      | some e ↦ elim name_end [
        | none ↦ none
        | some k ↦
            if bad || not (e + 2 == length line) || not (valid_h1_colon (take e line) k)
            then none
            else some (take k line, trim_ows (drop (k + 1) (take e line)))
      ]
    ]

abbrev pub host : List ℕ
host = b'h' ∷ b'o' ∷ b's' ∷ b't' ∷ []

abbrev pub trailer : List ℕ
trailer = b't' ∷ b'r' ∷ b'a' ∷ b'i' ∷ b'l' ∷ b'e' ∷ b'r' ∷ []

abbrev pub connection : List ℕ
connection = b'c' ∷ b'o' ∷ b'n' ∷ b'n' ∷ b'e' ∷ b'c' ∷ b't' ∷ b'i' ∷ b'o' ∷ b'n' ∷ []

abbrev pub content_length : List ℕ
content_length =
    b'c' ∷ b'o' ∷ b'n' ∷ b't' ∷ b'e' ∷ b'n' ∷ b't' ∷ b'-' ∷ b'l' ∷ b'e' ∷ b'n' ∷ b'g' ∷ b't' ∷ b'h'
    ∷ []

abbrev pub transfer_encoding : List ℕ
transfer_encoding =
    b't' ∷ b'r' ∷ b'a' ∷ b'n' ∷ b's' ∷ b'f' ∷ b'e' ∷ b'r' ∷ b'-' ∷ b'e' ∷ b'n' ∷ b'c' ∷ b'o' ∷ b'd'
    ∷ b'i' ∷ b'n' ∷ b'g' ∷ []

unfoldable pub trailer_field_forbidden : List ℕ → Bool
trailer_field_forbidden name =
    let n = length name in
    if n == 4
    then equal_fold_ascii name host
    else if n == 7
    then equal_fold_ascii name trailer
    else if n == 10
    then equal_fold_ascii name connection
    else if n == 14
    then equal_fold_ascii name content_length
    else if n == 17
    then equal_fold_ascii name transfer_encoding
    else false

unfoldable pub append_trailer_field : List Field → Field → List Field
append_trailer_field dst f = if trailer_field_forbidden f.0 then dst else dst ++ (f ∷ [])
