-- ===== src/Hpack/Integer/RoundTrip.antt =====
-- core/hpack.go: what `EncodeInt` writes, `HpackDecodeInt` reads back.
use alos_http.Prelude.{
  ℕ, zero, suc, ◌+◌, ◌-◌, ◌*◌, ◌/◌, ◌%◌, ◌^◌, ◌≤◌, ◌<◌, ◌≡◌, refl, bit_and, bit_or, ltb, leb, ◌==◌,
  true, false, ◌||◌, List, [], ◌∷◌, ◌++◌, length, u64_mod, IsU64, arith, Bool-cases, inl, inr, ap,
  ◌∙◌, sym, same_below, agree_below, and_7f, and_80,
}
use native.Mathlib.Nat.{pow-suc, le-div_iff_mul-le, pow-le-pow_right, one-le-pow, mul-le-mul_right}
use native.Mathlib.Numerals.{unary_clauses}
use alos_http.Hpack.Integer.{max_first, encode_more, encode_int, decode_more, hpack_decode_int}

or_80_top_table : same_below (λ x. bit_or x 0x80) (λ x. x + 128) 128 ≡ true
unfolding same_below
or_80_top_table = refl

-- A byte with the mark of more bytes.
or_80_top : (x : ℕ) → x < 128 → bit_or x 0x80 ≡ x + 128
or_80_top = agree_below 128 (λ x. bit_or x 0x80) (λ x. x + 128) or_80_top_table

pow_7 : (m : ℕ) → 2 ^ (m + 7) ≡ 2 ^ m * 128
pow_7 m = simp unary_clauses (omega arith)

split_product : (q r p : ℕ) → (q * 128 + r) * p ≡ q * (p * 128) + r * p
split_product q r p = grind arith

-- A shift that leaves a value below 2^64 is below 64.
shift_bound : (v m : ℕ) → 0 < v → v * 2 ^ m < 2 ^ 64 → m < 64
shift_bound v m pos h = elim (Bool-cases (ltb m 64)) [
  | inl e ↦ ground arith
  | inr e ↦
      let le : 64 ≤ m = ground arith in
      let big : 2 ^ 64 ≤ 2 ^ m = pow-le-pow_right (omega arith) le in
      let more : 2 ^ m ≤ v * 2 ^ m = omega (arith, mul-le-mul_right (2 ^ m) pos) in
      absurd (omega arith)
]

-- The guard against overflow lets a digit pass whose value fits.
digit_fits :
    (d val m : ℕ)
    → val + d * 2 ^ m < u64_mod
    → m < 64
    → (ltb 63 m || ltb ((u64_mod - 1 - val) / 2 ^ m) d) ≡ false
digit_fits d val m h l =
    let pos : 0 < 2 ^ m = one-le-pow m 2 (omega arith) in
    let room : d * 2 ^ m ≤ u64_mod - 1 - val = omega arith in
    let le : d ≤ (u64_mod - 1 - val) / 2 ^ m = (le-div_iff_mul-le pos).1 room in ground arith

last_digit :
    (v val m i : ℕ) (rest : List ℕ)
    → v < 128
    → m < 64
    → val + v * 2 ^ m < u64_mod
    → decode_more (v % 256 ∷ rest) val m i ≡ (val + v * 2 ^ m, i + 1)
unfolding decode_more
last_digit v val m i rest h l fits =
    let low : bit_and (v % 256) 0x7f ≡ v = and_7f (v % 256) (omega arith) ∙ omega arith in
    let top : bit_and (v % 256) 0x80 ≡ 0 = and_80 (v % 256) (omega arith) ∙ omega arith in
    let whole : (val + v * 2 ^ m) % u64_mod ≡ val + v * 2 ^ m = omega arith in
    rw (low, top, digit_fits v val m fits l, whole, decode_more) refl

more_digits :
    (v val m i : ℕ) (rest : List ℕ)
    → m < 64
    → val + v * 2 ^ m < u64_mod
    → decode_more (bit_or (bit_and (v % 256) 0x7f) 0x80 ∷ rest) val m i
      ≡ decode_more rest (val + v % 128 * 2 ^ m) (m + 7) (i + 1)
unfolding decode_more
more_digits v val m i rest l fits =
    let digit : bit_and (v % 256) 0x7f ≡ v % 128 = and_7f (v % 256) (omega arith) ∙ omega arith in
    let marked : bit_or (v % 128) 0x80 ≡ v % 128 + 128 = or_80_top (v % 128) (omega arith) in
    let low : bit_and (v % 128 + 128) 0x7f ≡ v % 128 =
      and_7f (v % 128 + 128) (omega arith) ∙ omega arith in
    let top : bit_and (v % 128 + 128) 0x80 ≡ 128 =
      and_80 (v % 128 + 128) (omega arith) ∙ omega arith in
    let least : v % 128 ≤ v = omega arith in
    let smaller : v % 128 * 2 ^ m ≤ v * 2 ^ m = mul-le-mul_right (2 ^ m) least in
    let whole : (val + v % 128 * 2 ^ m) % u64_mod ≡ val + v % 128 * 2 ^ m = omega arith in
    rw (digit, marked, low, top, digit_fits (v % 128) val m (omega arith) l, whole, decode_more)
      refl

-- A value in its lowest seven bits and the others, shifted.
seven_bits : (v m : ℕ) → v * 2 ^ m ≡ v / 128 * 2 ^ (m + 7) + v % 128 * 2 ^ m
seven_bits v m =
    let digits : v ≡ v / 128 * 128 + v % 128 = omega arith in
    ap (λ n. n * 2 ^ m) digits
    ∙ split_product (v / 128) (v % 128) (2 ^ m)
    ∙ ap (λ p. v / 128 * p + v % 128 * 2 ^ m) (sym (pow_7 m))

-- The loops undo each other, for a rest `v` of a number whose lower digits make up `val`.
decode_more-encode_more :
    (fuel v val m i : ℕ) (rest : List ℕ)
    → v < 128 ^ suc fuel
    → m < 64
    → val + v * 2 ^ m < u64_mod
    → decode_more (encode_more (suc fuel) v ++ rest) val m i
      ≡ (val + v * 2 ^ m, i + length (encode_more (suc fuel) v))
unfolding encode_more
decode_more-encode_more zero v val m i rest h l fits =
    let few : leb 128 v ≡ false = ground (arith, pow-suc 128 0) in
    rw (few, encode_more) (last_digit v val m i rest (ground arith) l fits)
decode_more-encode_more (suc fuel) v val m i rest h l fits = elim (Bool-cases (leb 128 v)) [
  | inr few ↦ rw (few, encode_more) (last_digit v val m i rest (ground arith) l fits)
  | inl many ↦
      let big : 128 ≤ v = ground arith in
      let parts = seven_bits v m in
      let l' = shift_bound (v / 128) (m + 7) (omega arith) (omega (arith, parts)) in
      let later =
        decode_more-encode_more fuel (v / 128) (val + v % 128 * 2 ^ m) (m + 7) (i + 1) rest
          (omega (arith, pow-suc 128 (suc fuel))) l' (omega (arith, parts)) in
      let sum : val + v % 128 * 2 ^ m + v / 128 * 2 ^ (m + 7) ≡ val + v * 2 ^ m =
        omega (arith, parts) in
      let count : i + 1 + length (encode_more (suc fuel) (v / 128))
          ≡ i + suc (length (encode_more (suc fuel) (v / 128))) =
        omega arith in
      rw (many, encode_more)
        (more_digits v val m i (encode_more (suc fuel) (v / 128) ++ rest) l fits
          ∙ later
          ∙ ap (λ s. (s, i + 1 + length (encode_more (suc fuel) (v / 128)))) sum
          ∙ ap (λ c. (val + v * 2 ^ m, c)) count)
]

-- The flag bits in front leave the low bits of the first byte to the number.
abbrev pub IsPrefix : ℕ → ℕ → Type 0
IsPrefix prefix prefix_bits =
    (x : ℕ) → x ≤ max_first prefix_bits → bit_and (bit_or prefix x) (max_first prefix_bits) ≡ x

-- A uint64 written with a prefix of 1 to 8 bits is read back, whatever follows it, together with
-- the number of bytes that it takes, if the flags leave the low bits of the first byte alone.
pub hpack_decode_int-encode_int :
    (prefix prefix_bits val : ℕ) (rest : List ℕ)
    → 0 < prefix_bits
    → prefix_bits ≤ 8
    → IsPrefix prefix prefix_bits
    → IsU64 val
    → hpack_decode_int (encode_int [] prefix prefix_bits val ++ rest) prefix_bits
      ≡ (val, length (encode_int [] prefix prefix_bits val))
unfolding hpack_decode_int encode_int
hpack_decode_int-encode_int prefix prefix_bits val rest pos few free u =
    let most : 2 ^ prefix_bits ≤ 2 ^ 8 = pow-le-pow_right (omega arith) few in
    let bits : (prefix_bits == 0 || ltb 8 prefix_bits) ≡ false = ground arith in
    elim (Bool-cases (ltb val (max_first prefix_bits))) [
      | inl short ↦
          let small : val % 256 ≡ val = ground arith in
          let le : val ≤ max_first prefix_bits = ground arith in
          rw (short, encode_int) (rw (small, free val le, bits, short, hpack_decode_int) refl)
      | inr long ↦
          let first = max_first prefix_bits in
          let small : first % 256 ≡ first = omega arith in
          let equal : first ≤ first = omega arith in
          let le : first ≤ val = ground arith in
          let stays : ltb first first ≡ false = ground arith in
          let unit : 2 ^ 0 ≡ 1 = refl in
          let whole : first + (val - first) * 2 ^ 0 ≡ val = omega arith in
          let later =
            decode_more-encode_more 9 (val - first) first 0 1 rest (omega arith) (omega arith)
              (omega arith) in
          rw (long, encode_int)
            (rw (small, free first equal, bits, stays, hpack_decode_int)
              (later
                ∙ ap (λ n. (n, 1 + length (encode_more 10 (val - first)))) whole
                ∙ ap (λ n. (val, n)) (omega arith)))
    ]
