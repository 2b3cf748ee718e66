-- ===== src/Hpack/Table/Ring.antt =====
-- core/hpack.go: positions in the ring.
use alos_http.Prelude.{
  ℕ, suc, ◌+◌, ◌-◌, ◌%◌, ◌≤◌, ◌<◌, ◌≡◌, arith, ltb, if◌then◌else◌, Bool-cases, inl, inr, ◌≢◌, ap,
  ◌∙◌,
}
use native.Mathlib.Nat.{mod-eq_of_lt, add-mod_right, mod-add-mod}

-- The position `i` places behind the head.
pub wrap :
    (c head i : ℕ)
    → head < c
    → i ≤ c
    → ((head + i) % c ≡ (if ltb (head + i) c then head + i else head + i - c))
wrap c head i h k = elim (Bool-cases (ltb (head + i) c)) [
  | inl e ↦ rw e (let l : head + i < c = ground arith in mod-eq_of_lt l)
  | inr e ↦
      let back : head + i ≡ head + i - c + c = ground arith in
      let less : head + i - c < c = omega arith in
      rw e (ap (λ n. n % c) back ∙ add-mod_right (head + i - c) c ∙ mod-eq_of_lt less)
]

pub wrap_injective :
    (c head i j : ℕ) → head < c → i < c → j < c → i ≢ j → (head + i) % c ≢ (head + j) % c
wrap_injective c head i j h k l ne = ground (arith, wrap c head i h, wrap c head j h)

-- One place behind the position before the head is the head's.
pub wrap_before : (c head i : ℕ) → head < c → ((head + c - 1) % c + suc i) % c ≡ (head + i) % c
wrap_before c head i h =
    let whole : head + c - 1 + suc i ≡ head + i + c = omega arith in
    mod-add-mod (head + c - 1) c (suc i) ∙ ap (λ n. n % c) whole ∙ add-mod_right (head + i) c
