-- ===== src/RateLimit/Alone.antt =====
-- core/ratelimit.go: a caller of `Allow` that no other caller disturbs.
use alos_http.Prelude.{
  ℕ, zero, suc, ◌+◌, ◌-◌, ◌*◌, ◌/◌, ◌≤◌, ◌<◌, ◌≡◌, refl, min, ltb, leb, ◌==◌, Bool, true, false,
  if◌then◌else◌, IsU64, arith, Bool-cases, inl, inr, ap, ◌∙◌, sym,
}
use alos_http.RateLimit.{
  nanos_per_second, Bucket, Caller, refill, load_last, claim, credit, swap_credit, spend,
  swap_spend, answered, allow, elapsed_tokens, act,
}
use alos_http.RateLimit.MulDiv.{mul_div_capped_exact}
use alos_http.RateLimit.Bound.{made}

-- So many operations of one caller, one after the other.
unfoldable pub alone : ℕ → Bucket → ℕ → Caller → Bucket × Caller × ℕ
alone zero b clock c = (b, c, 0)
alone (suc k) b clock c =
    let (b', c', g) = act b clock c in
    let (b'', c'', g') = alone k b' clock c' in (b'', c'', g + g')

-- The bucket after a refill: what its rate has made is added, up to the burst. Less than a token
-- is not taken, so that the time until then counts on.
unfoldable pub topped : Bucket → ℕ → Bucket
topped b clock =
    let new = made b.rate b.last_time clock in
    if new == 0 then b else record b { tokens = min (b.tokens + new) b.burst; last_time = clock }

alone-answered :
    (k : ℕ) (b : Bucket) (clock : ℕ) (r : Bool) → alone k b clock (answered r) ≡ (b, answered r, 0)
unfolding alone act
alone-answered zero b clock r = refl
alone-answered (suc k) b clock r =
    rw (alone-answered k b clock r) (ap (λ g. (b, answered r, g)) (omega arith))

alone-act :
    (k : ℕ) (b b' : Bucket) (clock : ℕ) (c c' : Caller)
    → act b clock c ≡ (b', c', 0)
    → alone (suc k) b clock c ≡ alone k b' clock c'
unfolding alone
alone-act k b b' clock c c' e =
    let (b'', c'', g) = alone k b' clock c' in
    rw (e, alone) (ap (λ n. ((alone k b' clock c').0, (alone k b' clock c').1, n)) (omega arith))

-- The bucket, the caller and the tokens when `n` are asked of a bucket that needs no refill.
abbrev pub spent : Bucket → ℕ → Bucket × Caller × ℕ
spent b n =
    if leb n b.tokens
    then (record b { tokens = b.tokens - n }, answered true, n)
    else (b, answered false, 0)

act-swap_spend :
    (b : Bucket) (clock n : ℕ)
    → act b clock (swap_spend n b.tokens) ≡ (record b { tokens = b.tokens - n }, answered true, n)
unfolding act
act-swap_spend b clock n =
    let same : (b.tokens == b.tokens) ≡ true = ground arith in rw (same, act) refl

alone-swap_spend :
    (k : ℕ) (b : Bucket) (clock n : ℕ)
    → alone (suc k) b clock (swap_spend n b.tokens)
      ≡ (record b { tokens = b.tokens - n }, answered true, n)
unfolding alone
alone-swap_spend k b clock n =
    rw (act-swap_spend b clock n, alone)
      (rw (alone-answered k (record b { tokens = b.tokens - n }) clock true)
        (ap (λ g. (record b { tokens = b.tokens - n }, answered true, g)) (omega arith)))

alone-spend : (k : ℕ) (b : Bucket) (clock n : ℕ) → alone (suc (suc k)) b clock (spend n) ≡ spent b n
unfolding act
alone-spend k b clock n = elim (Bool-cases (leb n b.tokens)) [
  | inl enough ↦
      let no_less : ltb b.tokens n ≡ false = ground arith in
      rw enough (
        alone-act (suc k) b b clock (spend n) (swap_spend n b.tokens) (rw (no_less, act) refl)
        ∙ alone-swap_spend k b clock n)
  | inr few ↦
      let less : ltb b.tokens n ≡ true = ground arith in
      rw few (
        alone-act (suc k) b b clock (spend n) (answered false) (rw (less, act) refl)
        ∙ alone-answered (suc k) b clock false)
]

-- The operations of a refill that has something to add.
alone-claim :
    (b : Bucket) (clock n add : ℕ)
    → b.tokens ≤ b.burst
    → alone 5 b clock (claim n b.last_time clock add)
      ≡ spent (record b { tokens = min (b.tokens + add) b.burst; last_time = clock }) n
unfolding act
alone-claim b clock n add h =
    let timed = record b { last_time = clock } in
    let full : (if ltb add (b.burst - b.tokens) then b.tokens + add else b.burst)
        ≡ min (b.tokens + add) b.burst =
      ground arith in
    let same_time : (b.last_time == b.last_time) ≡ true = ground arith in
    let same : (b.tokens == b.tokens) ≡ true = ground arith in
    alone-act 4 b (record b { last_time = clock }) clock (claim n b.last_time clock add)
      (credit n add) (rw (same_time, act) refl)
    ∙ alone-act 3 (record b { last_time = clock }) (record b { last_time = clock }) clock
        (credit n add) (swap_credit n add b.tokens) refl
    ∙ alone-act 2 (record b { last_time = clock })
        (record b { tokens = min (b.tokens + add) b.burst; last_time = clock }) clock
        (swap_credit n add b.tokens) (spend n) (rw (same, full, act) refl)
    ∙ alone-spend 0 (record b { tokens = min (b.tokens + add) b.burst; last_time = clock }) clock n

positive : (t rate : ℕ) → 0 < t * rate / nanos_per_second → 0 < t
positive zero rate h = absurd (omega arith)
positive (suc t) rate h = omega arith

topped_idle : (b : Bucket) (clock : ℕ) → made b.rate b.last_time clock ≡ 0 → topped b clock ≡ b
unfolding topped
topped_idle b clock e =
    let none : (made b.rate b.last_time clock == 0) ≡ true = ground arith in rw (none, topped) refl

topped_more :
    (b : Bucket) (clock : ℕ)
    → 0 < made b.rate b.last_time clock
    → topped b clock ≡ record b {
      tokens = min (b.tokens + made b.rate b.last_time clock) b.burst;
      last_time = clock;
    }
unfolding topped
topped_more b clock h =
    let more : (made b.rate b.last_time clock == 0) ≡ false = ground arith in rw (more, topped) refl

elapsed_tokens_idle :
    (b : Bucket) (clock n : ℕ)
    → IsU64 b.burst
    → made b.rate b.last_time clock ≡ 0
    → elapsed_tokens b n clock b.last_time ≡ spend n
unfolding elapsed_tokens
elapsed_tokens_idle b clock n u e =
    let exact =
      mul_div_capped_exact (clock - b.last_time) b.rate nanos_per_second b.burst (omega arith) u in
    let none_new : (min (made b.rate b.last_time clock) b.burst == 0) ≡ true = ground (arith, e) in
    elim (Bool-cases (leb clock b.last_time)) [
      | inl early ↦ rw (early, elapsed_tokens) refl
      | inr late ↦ rw (late, exact, none_new) refl
    ]

elapsed_tokens_more :
    (b : Bucket) (clock n : ℕ)
    → IsU64 b.burst
    → 0 < b.burst
    → 0 < made b.rate b.last_time clock
    → elapsed_tokens b n clock b.last_time
      ≡ claim n b.last_time clock (min (made b.rate b.last_time clock) b.burst)
unfolding elapsed_tokens
elapsed_tokens_more b clock n u pos h =
    let exact =
      mul_div_capped_exact (clock - b.last_time) b.rate nanos_per_second b.burst (omega arith) u in
    let some_tokens : (min (made b.rate b.last_time clock) b.burst == 0) ≡ false =
      ground (arith, pos, h) in
    let past : 0 < clock - b.last_time = positive (clock - b.last_time) b.rate h in
    let late : leb clock b.last_time ≡ false = ground arith in rw (late, exact, some_tokens) refl

alone-elapsed_tokens :
    (b : Bucket) (clock n : ℕ)
    → 0 < b.burst
    → b.tokens ≤ b.burst
    → IsU64 b.burst
    → alone 5 b clock (elapsed_tokens b n clock b.last_time) ≡ spent (topped b clock) n
alone-elapsed_tokens b clock n pos h u = elim (Bool-cases (ltb 0 (made b.rate b.last_time clock))) [
  | inl more ↦
      let new : 0 < made b.rate b.last_time clock = ground arith in
      let sum : min (b.tokens + min (made b.rate b.last_time clock) b.burst) b.burst
          ≡ min (b.tokens + made b.rate b.last_time clock) b.burst =
        omega arith in
      ap (alone 5 b clock) (elapsed_tokens_more b clock n u pos new)
      ∙ alone-claim b clock n (min (made b.rate b.last_time clock) b.burst) h
      ∙ ap (λ t. spent (record b { tokens = t; last_time = clock }) n) sum
      ∙ ap (λ t. spent t n) (sym (topped_more b clock new))
  | inr none_new ↦
      let zero_new : made b.rate b.last_time clock ≡ 0 = ground arith in
      ap (alone 5 b clock) (elapsed_tokens_idle b clock n u zero_new)
      ∙ alone-spend 3 b clock n
      ∙ ap (λ t. spent t n) (sym (topped_idle b clock zero_new))
]

-- A caller that no other caller disturbs has its answer after seven operations: the bucket is
-- topped up by what its rate has made, up to the burst, and then the request is taken out and
-- granted if it is there in full, and refused otherwise. (A request of 1 up to the burst tokens, of a
-- bucket that holds no more than its burst, a uint64.)
pub alone-allow :
    (b : Bucket) (clock n : ℕ)
    → 0 < n
    → n ≤ b.burst
    → b.tokens ≤ b.burst
    → IsU64 b.burst
    → alone 7 b clock (allow b n) ≡ spent (topped b clock) n
unfolding allow act
alone-allow b clock n pos h small u =
    let some_tokens : (n == 0) ≡ false = ground arith in
    let possible : ltb b.burst n ≡ false = ground arith in
    rw (some_tokens, possible, allow)
      (alone-act 6 b b clock (refill n) (load_last n clock) refl
        ∙ alone-act 5 b b clock (load_last n clock) (elapsed_tokens b n clock b.last_time) refl
        ∙ alone-elapsed_tokens b clock n (omega arith) small u)
