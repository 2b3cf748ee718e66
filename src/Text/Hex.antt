-- ===== src/Text/Hex.antt =====
-- core/utils.go: hexadecimal numbers, as chunk sizes are written and read.
use alos_http.Prelude.{
  ℕ, zero, suc, ◌+◌, ◌-◌, ◌*◌, ◌/◌, ◌%◌, ◌^◌, ◌≤◌, ◌<◌, ◌≡◌, refl, ltb, ◌==◌, true, false, not,
  List, [], ◌∷◌, ◌++◌, Option, none, some, arith, if◌then◌else◌, ◌∙◌, Bool-cases, inl, inr, ◌≢◌,
}
use native.Mathlib.Nat.{pow-suc}
use alos_http.Text.Ascii.{hex_valid, hex_lookup}

-- `maxParsedLength`.
abbrev pub max_parsed_length : ℕ
max_parsed_length = 2 ^ 50

-- `parseHex64Bytes`. `n<<4 | d` is a sum, since `d` has four bits; `n` has at most 51 bits when it
-- is shifted, so that it is never negative.
unfoldable pub parse_hex_loop : List ℕ → ℕ → Option ℕ
parse_hex_loop [] n = some n
parse_hex_loop (c ∷ cs) n =
    let n' = n * 16 + hex_lookup c in
    let rest = parse_hex_loop cs n' in
    if not (hex_valid c) then none else if ltb max_parsed_length n' then none else rest

unfoldable pub parse_hex64 : List ℕ → Option ℕ
parse_hex64 [] = none
parse_hex64 (c ∷ cs) = parse_hex_loop (c ∷ cs) 0

-- `appendHex`. The loop fills a buffer of 16 bytes from its end.
abbrev pub hex_byte : ℕ → ℕ
hex_byte d = if ltb d 10 then d + b'0' else d - 10 + b'a'

unfoldable pub hex_loop : ℕ → ℕ → List ℕ → List ℕ
hex_loop zero n buf = buf
hex_loop (suc room) n buf =
    let more = hex_loop room (n / 16) (hex_byte (n % 16) ∷ buf) in if n == 0 then buf else more

unfoldable pub append_hex : List ℕ → ℕ → List ℕ
append_hex dst n = if n == 0 then dst ++ (b'0' ∷ []) else dst ++ hex_loop 16 n []

pub hex_byte_lem :
    (d : ℕ) → d < 16 → (hex_valid (hex_byte d) ≡ true) × (hex_lookup (hex_byte d) ≡ d)
unfolding hex_valid hex_lookup
hex_byte_lem d h = ground arith

parse_step :
    (n : ℕ) (buf : List ℕ)
    → n ≤ max_parsed_length
    → parse_hex_loop (hex_byte (n % 16) ∷ buf) (n / 16) ≡ parse_hex_loop buf n
unfolding parse_hex_loop
parse_step n buf h =
    let digit = hex_byte_lem (n % 16) (omega arith) in
    let back : n / 16 * 16 + n % 16 ≡ n = omega arith in rw (digit.0, digit.1, back) (ground arith)

parse_hex_loop-hex_loop :
    (room n : ℕ) (buf : List ℕ)
    → n < 16 ^ room
    → n ≤ max_parsed_length
    → parse_hex_loop (hex_loop room n buf) 0 ≡ parse_hex_loop buf n
unfolding hex_loop
parse_hex_loop-hex_loop zero n buf h m = let e : n ≡ 0 = omega arith in rw e
parse_hex_loop-hex_loop (suc room) n buf h m = elim (Bool-cases (n == 0)) [
  | inl e ↦ let z : n ≡ 0 = ground arith in rw (e, hex_loop) (rw z refl)
  | inr e ↦
      rw (e, hex_loop)
        (parse_hex_loop-hex_loop room (n / 16) (hex_byte (n % 16) ∷ buf)
            (omega (arith, pow-suc 16 room)) (omega arith)
          ∙ parse_step n buf m)
]

parse_hex64-nonempty :
    (l : List ℕ) (n : ℕ) → n ≢ 0 → parse_hex_loop l 0 ≡ some n → parse_hex64 l ≡ some n
unfolding parse_hex64 parse_hex_loop
parse_hex64-nonempty [] n h e = ground arith
parse_hex64-nonempty (c ∷ cs) n h e = e

-- What the writer of chunk sizes appends, the reader reads back, up to the reader's limit of 2^50.
pub parse_hex64-append_hex :
    (n : ℕ) → n ≤ max_parsed_length → parse_hex64 (append_hex [] n) ≡ some n
unfolding append_hex
parse_hex64-append_hex zero h = unfold parse_hex64 parse_hex_loop hex_valid hex_lookup in refl
parse_hex64-append_hex (suc n) h =
    let e : (suc n == 0) ≡ false = ground arith in
    rw e (
      parse_hex64-nonempty (hex_loop 16 (suc n) []) (suc n) (omega arith)
        (parse_hex_loop-hex_loop 16 (suc n) [] (omega arith) h ∙ (unfold parse_hex_loop in refl)))
