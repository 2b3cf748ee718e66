-- ===== src/RateLimit/Bound.antt =====
-- core/ratelimit.go: what all callers together may take out of a bucket, however their atomic
-- operations interleave.
use alos_http.Prelude.{
  ℕ, ◌+◌, ◌-◌, ◌*◌, ◌/◌, ◌≤◌, ◌<◌, ◌≡◌, refl, min, ltb, leb, ◌==◌, u64_mod, arith, Bool-cases, inl,
  inr, ap,
}
use alos_http.RateLimit.{
  nanos_per_second, Bucket, Caller, idle, refill, load_last, claim, credit, swap_credit, spend,
  swap_spend, answered, panicked, elapsed_tokens, act,
}
use alos_http.RateLimit.MulDiv.{mul_div_capped_exact}

-- The tokens that a bucket's rate makes from `start` to `now`.
abbrev pub made : ℕ → ℕ → ℕ → ℕ
made rate start now = (now - start) * rate / nanos_per_second

-- The tokens that a caller is about to put into the bucket.
abbrev pub owed : Caller → ℕ
owed (credit n add) = add
owed (swap_credit n add current) = add
owed _ = 0

-- What a caller knows of the bucket and the clock.
abbrev pub Knows : ℕ → ℕ → Caller → Type 0
Knows rate clock (load_last n now) = now ≤ clock
Knows rate clock (claim n last now add) = (last < now) × (now ≤ clock) × (add ≤ made rate last now)
Knows rate clock (swap_spend n current) = n ≤ current
Knows rate clock _ = Unit

-- A bucket whose time is behind the clock.
abbrev pub Sound : ℕ → ℕ → Bucket → Type 0
Sound start clock b =
    (start ≤ b.last_time) × (b.last_time ≤ clock) × (b.tokens ≤ b.burst) × (b.burst < u64_mod)

pub made_split :
    (rate start last now : ℕ)
    → start ≤ last
    → last ≤ now
    → made rate start last + made rate last now ≤ made rate start now
made_split rate start last now h l =
    let parts : now - start ≡ last - start + (now - last) = omega arith in
    let spread : (last - start + (now - last)) * rate
        ≡ (last - start) * rate + (now - last) * rate =
      grind arith in
    omega (arith, ap (λ x. x * rate) parts, spread)

-- One atomic operation gives out no more than it takes from the bucket, the caller and the clock.
abbrev pub Pays : ℕ → ℕ → Bucket → Caller → Bucket × Caller × ℕ → Type 0
Pays start clock b c (b', c', g) =
    Sound start clock b'
    × Knows b.rate clock c'
    × (g + b'.tokens + owed c' + made b.rate start b.last_time
        ≤ b.tokens + owed c + made b.rate start b'.last_time)
    × (b'.rate ≡ b.rate)
    × (b'.burst ≡ b.burst)

elapsed_tokens-Knows :
    (b : Bucket) (clock n now last : ℕ)
    → b.burst < u64_mod
    → now ≤ clock
    → Knows b.rate clock (elapsed_tokens b n now last) × (owed (elapsed_tokens b n now last) ≡ 0)
unfolding elapsed_tokens
elapsed_tokens-Knows b clock n now last u h =
    let exact = mul_div_capped_exact (now - last) b.rate nanos_per_second b.burst (omega arith) u in
    elim (Bool-cases (leb now last)) [
      | inl early ↦ rw (early, elapsed_tokens) (tt, refl)
      | inr later ↦ elim (Bool-cases (min (made b.rate last now) b.burst == 0)) [
        | inl zero_tokens ↦ rw (later, exact, zero_tokens) (tt, refl)
        | inr some_tokens ↦
            let after : last < now = ground arith in
            rw (later, exact, some_tokens) ((after, h, omega arith), refl)
      ]
    ]

pub act-Pays :
    (start clock : ℕ) (b : Bucket) (c : Caller)
    → Sound start clock b
    → Knows b.rate clock c
    → Pays start clock b c (act b clock c)
unfolding act
act-Pays start clock b idle s k = (s, tt, omega arith, refl, refl)
act-Pays start clock b (answered r) s k = (s, tt, omega arith, refl, refl)
act-Pays start clock b panicked s k = (s, tt, omega arith, refl, refl)
act-Pays start clock b (refill n) s k = (s, omega arith, omega arith, refl, refl)
act-Pays start clock b (load_last n now) (after, before, small, word) k =
    let (knows, no_debt) = elapsed_tokens-Knows b clock n now b.last_time word k in
    ((after, before, small, word), knows, omega (arith, no_debt), refl, refl)
act-Pays start clock b (claim n last now add) (after, before, small, word) (l, c, a) =
    elim (Bool-cases (b.last_time == last)) [
      | inl same ↦
          let e : b.last_time ≡ last = ground arith in
          let here : made b.rate start b.last_time ≡ made b.rate start last =
            ap (made b.rate start) e in
          let split = made_split b.rate start last now (omega arith) (omega arith) in
          rw (same, act) ((omega arith, c, small, word), tt, omega (arith, here, split), refl, refl)
      | inr moved ↦ rw (moved, act) ((after, before, small, word), tt, omega arith, refl, refl)
    ]
act-Pays start clock b (credit n add) s k = (s, tt, omega arith, refl, refl)
act-Pays start clock b (swap_credit n add current) (after, before, small, word) k =
    elim (Bool-cases (b.tokens == current)) [
      | inl same ↦
          let e : b.tokens ≡ current = ground arith in
          elim (Bool-cases (ltb add (b.burst - current))) [
            | inl room ↦
                rw (same, room, act)
                  ((after, before, ground arith, word), tt, ground arith, refl, refl)
            | inr full ↦
                rw (same, full, act)
                  ((after, before, omega arith, word), tt, ground arith, refl, refl)
          ]
      | inr moved ↦ rw (moved, act) ((after, before, small, word), tt, omega arith, refl, refl)
    ]
act-Pays start clock b (spend n) s k = elim (Bool-cases (ltb b.tokens n)) [
  | inl few ↦ rw (few, act) (s, tt, omega arith, refl, refl)
  | inr enough ↦ rw (enough, act) (s, ground arith, omega arith, refl, refl)
]
act-Pays start clock b (swap_spend n current) (after, before, small, word) k =
    elim (Bool-cases (b.tokens == current)) [
      | inl same ↦
          let e : b.tokens ≡ current = ground arith in
          rw (same, act) ((after, before, omega arith, word), tt, omega arith, refl, refl)
      | inr moved ↦ rw (moved, act) ((after, before, small, word), tt, omega arith, refl, refl)
    ]
