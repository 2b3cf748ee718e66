-- ===== src/Quic/Varint/Marks.antt =====
-- core/quic_varint.go: the marks of the length in a word and in its highest byte.
use Prim.Native.Nat.{digits, bit_or-bitwise}
use alos_http.Prelude.{
  ℕ, zero, suc, ◌+◌, ◌*◌, ◌/◌, ◌%◌, ◌^◌, ◌≤◌, ◌<◌, ◌≡◌, refl, max, bit_or, arith, or_40, or_80,
  true, same_below, agree_below, IsU64, sym,
}

or_c0_table : same_below (λ x. bit_or 0xc0 x) (λ x. 192 + x % 64) 256 ≡ true
unfolding same_below
or_c0_table = refl

pub or_c0_mark : (x : ℕ) → x < 256 → bit_or 0xc0 x ≡ 192 + x % 64
or_c0_mark = agree_below 256 (λ x. bit_or 0xc0 x) (λ x. 192 + x % 64) or_c0_table

abbrev or_digits : ℕ → ℕ → ℕ → ℕ
or_digits n a b = digits (λ b. b) max n a b

or_digits_enough : (n m a b : ℕ) → a ≤ n → a ≤ m → or_digits n a b ≡ or_digits m a b
or_digits_enough zero zero a b p q = refl
or_digits_enough zero (suc m) zero b p q = refl
or_digits_enough zero (suc m) (suc a) b p q = absurd (omega arith)
or_digits_enough (suc n) zero zero b p q = refl
or_digits_enough (suc n) zero (suc a) b p q = absurd (omega arith)
or_digits_enough (suc n) (suc m) zero b p q = refl
or_digits_enough (suc n) (suc m) (suc a) b p q =
    omega (arith, or_digits_enough n m (suc a / 2) (b / 2) (omega arith) (omega arith))

zero-bit_or : (b : ℕ) → bit_or 0 b ≡ b
zero-bit_or b = bit_or-bitwise 0 b

-- The disjunction by its lowest digit.
bit_or_step : (a b : ℕ) → bit_or a b ≡ bit_or (a / 2) (b / 2) * 2 + max (a % 2) (b % 2)
bit_or_step zero b = omega (arith, zero-bit_or b, zero-bit_or (b / 2))
bit_or_step (suc a) b = omega (
  arith,
  bit_or-bitwise (suc a) b,
  bit_or-bitwise (suc a / 2) (b / 2),
  or_digits_enough a (suc a / 2) (suc a / 2) (b / 2) (omega arith) (omega arith),
)

bit_or_double : (a b : ℕ) → bit_or (a * 2) b ≡ bit_or a (b / 2) * 2 + b % 2
bit_or_double a b =
    let half : a * 2 / 2 ≡ a = omega arith in
    let e : bit_or (a * 2 / 2) (b / 2) ≡ bit_or a (b / 2) = rw half refl in
    omega (arith, bit_or_step (a * 2) b, e)

-- A number of whole half-bytes, or bytes, leaves the lowest one of the other alone.
bit_or_nibble : (a b : ℕ) → bit_or (a * 16) b ≡ bit_or a (b / 16) * 16 + b % 16
bit_or_nibble a b =
    let e : a * 2 * 2 * 2 * 2 ≡ a * 16 = omega arith in
    let q : b / 2 / 2 / 2 / 2 ≡ b / 16 = omega arith in
    let s : bit_or a (b / 2 / 2 / 2 / 2) ≡ bit_or a (b / 16) = rw q refl in
    rw (sym e) (
      omega (
        arith,
        bit_or_double (a * 2 * 2 * 2) b,
        bit_or_double (a * 2 * 2) (b / 2),
        bit_or_double (a * 2) (b / 2 / 2),
        bit_or_double a (b / 2 / 2 / 2),
        s,
      ))

bit_or_byte : (a b : ℕ) → bit_or (a * 256) b ≡ bit_or a (b / 256) * 256 + b % 256
bit_or_byte a b =
    let e : a * 16 * 16 ≡ a * 256 = omega arith in
    let q : b / 16 / 16 ≡ b / 256 = omega arith in
    let s : bit_or a (b / 16 / 16) ≡ bit_or a (b / 256) = rw q refl in
    rw (sym e) (omega (arith, bit_or_nibble (a * 16) b, bit_or_nibble a (b / 16), s))

shifted_or : (a b c : ℕ) → bit_or a (b / 256) ≡ c → bit_or (a * 256) b ≡ c * 256 + b % 256
shifted_or a b c e = omega (arith, bit_or_byte a b, e)

-- The marked words, as sums.
pub or_4000 : (v : ℕ) → v < 16384 → bit_or 0x4000 v ≡ 0x4000 + v
or_4000 v h = omega (arith, shifted_or 0x40 v _ (or_40 (v / 256) (omega arith)))

pub or_80000000 : (v : ℕ) → v < 2 ^ 30 → bit_or 0x80000000 v ≡ 0x80000000 + v
or_80000000 v h =
    let top = or_80 (v / 256 / 256 / 256) (omega arith) in
    let two = shifted_or 0x80 (v / 256 / 256) _ top in
    let three = shifted_or 0x8000 (v / 256) _ two in omega (arith, shifted_or 0x800000 v _ three)

pub or_c000000000000000 :
    (v : ℕ) → IsU64 v → bit_or 0xc000000000000000 v ≡ 0xc000000000000000 + v % 2 ^ 62
or_c000000000000000 v h =
    let b7 = or_c0_mark (v / 256 / 256 / 256 / 256 / 256 / 256 / 256) (omega arith) in
    let b6 = shifted_or 0xc0 (v / 256 / 256 / 256 / 256 / 256 / 256) _ b7 in
    let b5 = shifted_or 0xc000 (v / 256 / 256 / 256 / 256 / 256) _ b6 in
    let b4 = shifted_or 0xc00000 (v / 256 / 256 / 256 / 256) _ b5 in
    let b3 = shifted_or 0xc0000000 (v / 256 / 256 / 256) _ b4 in
    let b2 = shifted_or 0xc000000000 (v / 256 / 256) _ b3 in
    let b1 = shifted_or 0xc00000000000 (v / 256) _ b2 in
    omega (arith, shifted_or 0xc0000000000000 v _ b1)
