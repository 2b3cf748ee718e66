-- ===== src/Text/Ascii.antt =====
-- core/utils.go and core/h1_plain.go: the classes of bytes, as tests where the code has tables.
use alos_http.Prelude.{
  ℕ, ◌+◌, ◌-◌, ltb, leb, ◌==◌, Bool, true, false, not, ◌&&◌, ◌||◌, List, [], ◌∷◌, if◌then◌else◌,
}

abbrev pub between : ℕ → ℕ → ℕ → Bool
between lo hi c = leb lo c && leb c hi

-- `asciiLower`.
unfoldable pub ascii_lower : ℕ → ℕ
ascii_lower c = if between b'A' b'Z' c then c + 0x20 else c

-- `hexValid` and `hexLookup`.
unfoldable pub hex_valid : ℕ → Bool
hex_valid c = between b'0' b'9' c || between b'a' b'f' c || between b'A' b'F' c

unfoldable pub hex_lookup : ℕ → ℕ
hex_lookup c =
    if between b'0' b'9' c
    then c - b'0'
    else if between b'a' b'f' c
    then c - b'a' + 10
    else if between b'A' b'F' c
    then c - b'A' + 10
    else 0

-- `h1TokenChar`: a letter, a digit, or one of !#$%&'*+-.^_`|~.
unfoldable pub h1_token_char : ℕ → Bool
h1_token_char c =
    between b'a' b'z' c
    || between b'A' b'Z' c
    || between b'0' b'9' c
    || c == b'!'
    || between b'#' 0x27 c
    || c == b'*'
    || c == b'+'
    || c == b'-'
    || c == b'.'
    || c == b'^'
    || c == b'_'
    || c == 0x60
    || c == b'|'
    || c == b'~'

-- `isH1Special`: a control byte other than the tab.
unfoldable pub is_h1_special : ℕ → Bool
is_h1_special c = ltb c 0x20 && not (c == 0x09) || c == 0x7f

-- `EqualFoldASCII`, less the shortcut for equal strings and the unrolling by eight.
unfoldable pub equal_fold_ascii : List ℕ → List ℕ → Bool
equal_fold_ascii [] [] = true
equal_fold_ascii (a ∷ xs) (b ∷ ys) = ascii_lower a == ascii_lower b && equal_fold_ascii xs ys
equal_fold_ascii _ _ = false
