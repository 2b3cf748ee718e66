-- ===== src/RateLimit.antt =====
-- core/ratelimit.go: the token bucket, with the atomic operations of concurrent callers as steps.
-- The code tests a rate, a burst and a request that is not positive only for that, so that they
-- are 0 here. The coarse clock is a number that moves on.
pub mod MulDiv
pub mod Bound
pub mod Interleaved
pub mod Alone
mod Tests
use alos_http.Prelude.{
  ℕ, zero, suc, ◌+◌, ◌-◌, ◌*◌, ◌/◌, ◌%◌, ltb, leb, ◌==◌, Bool, true, false, ◌||◌, List, [], ◌∷◌,
  if◌then◌else◌, u64_mod, Option, none, some, get_elem?,
}

abbrev pub nanos_per_second : ℕ
nanos_per_second = 1000000000

-- `bits.Div64`, whose quotient must fit a word, and the division of words; `none` is their panic.
unfoldable pub div64 : ℕ → ℕ → ℕ → Option ℕ
div64 hi lo y = if leb y hi then none else some ((hi * u64_mod + lo) / y)

unfoldable pub div_word : ℕ → ℕ → Option ℕ
div_word x y = if y == 0 then none else some (x / y)

abbrev pub capped : ℕ → Option ℕ → Option ℕ
capped limit none = none
capped limit (some quotient) = if leb limit quotient then some limit else some quotient

-- `mulDivCapped`, with the product's high and low words.
unfoldable pub mul_div_capped : ℕ → ℕ → ℕ → ℕ → Option ℕ
mul_div_capped a b divisor limit =
    let hi = a * b / u64_mod in
    let lo = a * b % u64_mod in
    if leb divisor hi
    then some limit
    else capped limit (if hi == 0 then div_word lo divisor else div64 hi lo divisor)

pub record Bucket : Type 0 where
  pub tokens : ℕ
  pub last_time : ℕ
  pub rate : ℕ
  pub burst : ℕ

unfoldable pub new_token_bucket : ℕ → ℕ → ℕ → Bucket
new_token_bucket rate_per_sec burst now =
    let burst' = if rate_per_sec == 0 then 0 else if burst == 0 then rate_per_sec else burst in
    record { tokens = burst'; last_time = now; rate = rate_per_sec; burst = burst' }

-- Where a caller of `Allow` stands between two atomic operations, with its local variables; the
-- first number is that of the tokens it asks for.
pub data Caller : Type 0 where
  idle : Caller
  refill : ℕ → Caller
  load_last : ℕ → ℕ → Caller
  claim : ℕ → ℕ → ℕ → ℕ → Caller
  credit : ℕ → ℕ → Caller
  swap_credit : ℕ → ℕ → ℕ → Caller
  spend : ℕ → Caller
  swap_spend : ℕ → ℕ → Caller
  answered : Bool → Caller
  panicked : Caller

-- `Allow` up to its call of `refill`.
unfoldable pub allow : Bucket → ℕ → Caller
allow b n =
    if n == 0 then answered true else if ltb b.burst n then answered (b.burst == 0) else refill n

abbrev pub claim_if_any : ℕ → ℕ → ℕ → Option ℕ → Caller
claim_if_any n last now none = panicked
claim_if_any n last now (some add) = if add == 0 then spend n else claim n last now add

-- `refill` up to its `CompareAndSwap` of the time, after the load of `last`.
unfoldable pub elapsed_tokens : Bucket → ℕ → ℕ → ℕ → Caller
elapsed_tokens b n now last =
    if leb now last
    then spend n
    else claim_if_any n last now (mul_div_capped (now - last) b.rate nanos_per_second b.burst)

-- One atomic operation of a caller: the bucket, the caller, and the tokens granted.
unfoldable pub act : Bucket → ℕ → Caller → Bucket × Caller × ℕ
act b clock idle = (b, idle, 0)
act b clock (answered r) = (b, answered r, 0)
act b clock panicked = (b, panicked, 0)
act b clock (refill n) = (b, load_last n clock, 0)
act b clock (load_last n now) = (b, elapsed_tokens b n now b.last_time, 0)
act b clock (claim n last now add) =
    if b.last_time == last then (record b { last_time = now }, credit n add, 0) else (b, spend n, 0)
act b clock (credit n add) = (b, swap_credit n add b.tokens, 0)
act b clock (swap_credit n add current) =
    let full = if ltb add (b.burst - current) then current + add else b.burst in
    if b.tokens == current then (record b { tokens = full }, spend n, 0) else (b, credit n add, 0)
act b clock (spend n) =
    if ltb b.tokens n then (b, answered false, 0) else (b, swap_spend n b.tokens, 0)
act b clock (swap_spend n current) =
    if b.tokens == current
    then (record b { tokens = current - n }, answered true, n)
    else (b, spend n, 0)

-- What a call is granted that `Allow` answers without looking at the bucket.
abbrev pub granted_at_once : ℕ → Caller → ℕ
granted_at_once n (answered r) = if r then n else 0
granted_at_once n c = 0

-- A bucket and its callers, and the tokens granted to them.
pub record System : Type 0 where
  pub bucket : Bucket
  pub clock : ℕ
  pub callers : List Caller
  pub granted : ℕ

unfoldable pub put_at : ℕ → Caller → List Caller → List Caller
put_at i c [] = []
put_at zero c (d ∷ cs) = c ∷ cs
put_at (suc i) c (d ∷ cs) = d ∷ put_at i c cs

pub data Move : Type 0 where
  tick : ℕ → Move
  call : ℕ → Move
  step : ℕ → Move

unfoldable pub move : System → Move → System
move s (tick d) = record s { clock = s.clock + d }
move s (call n) =
    let c = allow s.bucket n in
    record s { callers = c ∷ s.callers; granted = s.granted + granted_at_once n c }
move s (step i) = elim (get_elem? s.callers i) [
  | none ↦ s
  | some c ↦
      let done = act s.bucket s.clock c in
      record s {
        bucket = done.0;
        callers = put_at i done.1 s.callers;
        granted = s.granted + done.2;
      }
]

unfoldable pub run : System → List Move → System
run s [] = s
run s (m ∷ ms) = run (move s m) ms
