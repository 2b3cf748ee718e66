-- ===== src/RateLimit/MulDiv.antt =====
-- core/ratelimit.go: `mulDivCapped` without its words.
use alos_http.Prelude.{
  ℕ, ◌+◌, ◌*◌, ◌/◌, ◌%◌, ◌≤◌, ◌<◌, ◌≡◌, min, leb, ◌==◌, if◌then◌else◌, u64_mod, IsU64, arith,
  Bool-cases, inl, inr, ap, false, some,
}
use native.Mathlib.Nat.{le-div_iff_mul-le}
use alos_http.RateLimit.{mul_div_capped, capped, div64, div_word}

-- A high word that is no smaller than the divisor means a quotient beyond 64 bits.
quotient_large : (p d : ℕ) → 0 < d → d ≤ p / u64_mod → u64_mod ≤ p / d
quotient_large p d pos h =
    let wide : u64_mod * d ≤ p = omega arith in (le-div_iff_mul-le pos).1 wide

-- The two words make up the product.
words : (p : ℕ) → p / u64_mod * u64_mod + p % u64_mod ≡ p
words p = omega arith

capped-min : (limit q : ℕ) → capped limit (some q) ≡ some (min q limit)
capped-min limit q = elim (Bool-cases (leb limit q)) [
  | inl large ↦ rw large (ap some (ground (arith, large)))
  | inr small ↦ rw small (ap some (ground (arith, small)))
]

-- Neither division panics where the high word is below the divisor.
quotient_of_words :
    (p d : ℕ)
    → 0 < d
    → leb d (p / u64_mod) ≡ false
    → (if p / u64_mod == 0 then div_word (p % u64_mod) d else div64 (p / u64_mod) (p % u64_mod) d)
      ≡ some (p / d)
unfolding div64 div_word
quotient_of_words p d pos below = elim (Bool-cases (p / u64_mod == 0)) [
  | inl none_high ↦
      let low : p % u64_mod ≡ p =
        let z : p / u64_mod ≡ 0 = ground (arith, none_high) in omega arith in
      let nz : (d == 0) ≡ false = ground arith in rw (none_high, nz) (ap (λ x. some (x / d)) low)
  | inr high ↦ rw (high, below) (ap (λ x. some (x / d)) (words p))
]

-- `mul_div_capped` does not panic, and is the exact quotient of the 128-bit product by a divisor
-- that is not 0, or the limit, a uint64, where that is less.
pub mul_div_capped_exact :
    (a b divisor limit : ℕ)
    → 0 < divisor
    → IsU64 limit
    → mul_div_capped a b divisor limit ≡ some (min (a * b / divisor) limit)
unfolding mul_div_capped
mul_div_capped_exact a b divisor limit pos u = elim (Bool-cases (leb divisor (a * b / u64_mod))) [
  | inl large ↦
      let le : divisor ≤ a * b / u64_mod = ground arith in
      rw large (ap some (omega (arith, quotient_large (a * b) divisor pos le)))
  | inr small ↦
      rw (small, quotient_of_words (a * b) divisor pos small) (capped-min limit (a * b / divisor))
]
