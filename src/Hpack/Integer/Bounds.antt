-- ===== src/Hpack/Integer/Bounds.antt =====
-- core/hpack.go: how far `HpackDecodeInt` reads, and what it may answer.
use alos_http.Prelude.{
  ℕ, ◌+◌, ◌-◌, ◌*◌, ◌/◌, ◌%◌, ◌^◌, ◌≤◌, ◌<◌, ◌≡◌, bit_and, ltb, ◌==◌, ◌||◌, List, [], ◌∷◌, ◌++◌,
  length, u64_mod, arith, Bool-cases, inl, inr,
}
use native.Mathlib.Nat.{pow-le-pow_right}
use alos_http.Hpack.Integer.{max_first, decode_more, hpack_decode_int}

-- What a successful read from the byte `i` on has done.
abbrev Took : (List ℕ → ℕ × ℕ) → List ℕ → List ℕ → ℕ → ℕ → ℕ → Type 0
Took decode src more i v n =
    (i < n) × (n ≤ i + length src) × (v < u64_mod) × (decode (src ++ more) ≡ (v, n))

decode_more-Took :
    (src more : List ℕ) (val m i v n : ℕ)
    → decode_more src val m i ≡ (v, n)
    → 0 < n
    → Took (λ l. decode_more l val m i) src more i v n
unfolding decode_more
decode_more-Took [] more val m i v n e pos = ground arith
decode_more-Took (b ∷ src) more val m i v n e pos =
    let val' = (val + bit_and b 0x7f * 2 ^ m) % u64_mod in
    let small : val' < u64_mod = omega arith in
    elim (Bool-cases (ltb 63 m || ltb ((u64_mod - 1 - val) / 2 ^ m) (bit_and b 0x7f))) [
      | inl over ↦ let bad : (0, 0) ≡ (v, n) = rw (over, decode_more) at e in ground arith
      | inr fits ↦ elim (Bool-cases (bit_and b 0x80 == 0)) [
        | inl last ↦
            let got : (val', i + 1) ≡ (v, n) = rw (fits, last, decode_more) at e in
            rw (fits, last, decode_more) (ground arith)
        | inr more_bytes ↦
            let got : decode_more src val' (m + 7) (i + 1) ≡ (v, n) =
              rw (fits, more_bytes, decode_more) at e in
            let (lo, hi, word, same) = decode_more-Took src more val' (m + 7) (i + 1) v n got pos in
            rw (fits, more_bytes, decode_more) (omega arith, omega arith, word, same)
      ]
    ]

-- A successful read has taken 1 byte at least and no more than there are, its value is a uint64,
-- and bytes added behind the input change nothing.
pub hpack_decode_int_takes :
    (src more : List ℕ) (prefix_bits v n : ℕ)
    → hpack_decode_int src prefix_bits ≡ (v, n)
    → 0 < n
    → (n ≤ length src) × (v < u64_mod) × (hpack_decode_int (src ++ more) prefix_bits ≡ (v, n))
unfolding hpack_decode_int
hpack_decode_int_takes [] more prefix_bits v n e pos = ground arith
hpack_decode_int_takes (b ∷ src) more prefix_bits v n e pos =
    let val = bit_and b (max_first prefix_bits) in
    elim (Bool-cases (prefix_bits == 0 || ltb 8 prefix_bits)) [
      | inl bad ↦ let none : (0, 0) ≡ (v, n) = rw (bad, hpack_decode_int) at e in ground arith
      | inr bits ↦ elim (Bool-cases (ltb val (max_first prefix_bits))) [
        | inl short ↦
            let got : (val, 1) ≡ (v, n) = rw (bits, short, hpack_decode_int) at e in
            let few : prefix_bits ≤ 8 = ground arith in
            let most : 2 ^ prefix_bits ≤ 2 ^ 8 = pow-le-pow_right (omega arith) few in
            rw (bits, short, hpack_decode_int) (ground arith)
        | inr long ↦
            let got : decode_more src val 0 1 ≡ (v, n) = rw (bits, long, hpack_decode_int) at e in
            let (lo, hi, word, same) = decode_more-Took src more val 0 1 v n got pos in
            rw (bits, long, hpack_decode_int) (omega arith, word, same)
      ]
    ]
