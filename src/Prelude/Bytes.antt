-- ===== src/Prelude/Bytes.antt =====
-- Facts about single bytes, checked over all of them.
use Prim.Native.Nat.{ℕ, zero, suc, ◌+◌, ◌*◌, ◌/◌, ◌%◌, ◌<◌, bit_and, bit_or}
use mathlib.Core.Path.{◌≡◌, refl, ap}
use mathlib.Core.Bool.{Bool, true, false}
use native.Mathlib.Omega.{arith}
use alos_http.Prelude.Tests.{◌==◌, if◌then◌else◌}

-- Every entry of a byte slice is below 256.
abbrev pub IsByte : ℕ → Type 0
IsByte b = b < 256

-- Whether two functions agree at each number below a bound.
unfoldable pub same_below : (ℕ → ℕ) → (ℕ → ℕ) → ℕ → Bool
same_below f g zero = true
same_below f g (suc n) = if f n == g n then same_below f g n else false

-- Two functions of a byte that agree at each of its values, as evaluation shows, are equal on it.
pub agree_below : (n : ℕ) (f g : ℕ → ℕ) → same_below f g n ≡ true → (x : ℕ) → x < n → f x ≡ g x
unfolding same_below
agree_below zero f g table x h = absurd (omega arith)
agree_below (suc n) f g table x h =
    let before : same_below f g n ≡ true → x < n → f x ≡ g x = λ t l. agree_below n f g t x l in
    let last : x ≡ n → (f x ≡ f n) × (g x ≡ g n) = λ e. (ap f e, ap g e) in
    ground (arith, before, last)

or_40_table : same_below (λ x. bit_or 0x40 x) (λ x. 64 + x) 64 ≡ true
unfolding same_below
or_40_table = refl

or_80_table : same_below (λ x. bit_or 0x80 x) (λ x. 128 + x) 128 ≡ true
unfolding same_below
or_80_table = refl

or_c0_table : same_below (λ x. bit_or 0xc0 x) (λ x. 192 + x) 64 ≡ true
unfolding same_below
or_c0_table = refl

and_3f_table : same_below (λ x. bit_and x 0x3f) (λ x. x % 64) 256 ≡ true
unfolding same_below
and_3f_table = refl

and_7f_table : same_below (λ x. bit_and x 0x7f) (λ x. x % 128) 256 ≡ true
unfolding same_below
and_7f_table = refl

and_80_table : same_below (λ x. bit_and x 0x80) (λ x. x / 128 * 128) 256 ≡ true
unfolding same_below
and_80_table = refl

-- Setting the marks of a length prefix over smaller bits.
pub or_40 : (x : ℕ) → x < 64 → bit_or 0x40 x ≡ 64 + x
or_40 = agree_below 64 (λ x. bit_or 0x40 x) (λ x. 64 + x) or_40_table

pub or_80 : (x : ℕ) → x < 128 → bit_or 0x80 x ≡ 128 + x
or_80 = agree_below 128 (λ x. bit_or 0x80 x) (λ x. 128 + x) or_80_table

pub or_c0 : (x : ℕ) → x < 64 → bit_or 0xc0 x ≡ 192 + x
or_c0 = agree_below 64 (λ x. bit_or 0xc0 x) (λ x. 192 + x) or_c0_table

-- Masking the low bits of a byte, and its top bit.
pub and_3f : (x : ℕ) → x < 256 → bit_and x 0x3f ≡ x % 64
and_3f = agree_below 256 (λ x. bit_and x 0x3f) (λ x. x % 64) and_3f_table

pub and_7f : (x : ℕ) → x < 256 → bit_and x 0x7f ≡ x % 128
and_7f = agree_below 256 (λ x. bit_and x 0x7f) (λ x. x % 128) and_7f_table

pub and_80 : (x : ℕ) → x < 256 → bit_and x 0x80 ≡ x / 128 * 128
and_80 = agree_below 256 (λ x. bit_and x 0x80) (λ x. x / 128 * 128) and_80_table
