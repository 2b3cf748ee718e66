-- ===== src/RateLimit/Interleaved.antt =====
-- core/ratelimit.go: any number of callers, in any order of their atomic operations.
use alos_http.Prelude.{
  ℕ, zero, suc, ◌+◌, ◌≤◌, ◌<◌, false, ◌≡◌, refl, ltb, ◌==◌, IsU64, arith, Bool-cases, Option-cases,
  inl, inr, ap, ◌∙◌, sym, List, [], ◌∷◌, All, get_elem?, some, subst,
}
use alos_http.RateLimit.{
  Bucket, new_token_bucket, Caller, idle, refill, load_last, claim, credit, swap_credit, spend,
  swap_spend, answered, panicked, granted_at_once, allow, act, System, put_at, Move, tick, call,
  step, move, run,
}
use alos_http.RateLimit.Bound.{made, made_split, owed, Knows, Sound, Pays, act-Pays}

unfoldable pub owed_all : List Caller → ℕ
owed_all [] = 0
owed_all (c ∷ cs) = owed c + owed_all cs

owed_all-put_at :
    (i : ℕ) (c c' : Caller) (cs : List Caller)
    → get_elem? cs i ≡ some c
    → owed_all (put_at i c' cs) + owed c ≡ owed_all cs + owed c'
unfolding owed_all put_at
owed_all-put_at i c c' [] e = cc
owed_all-put_at zero c c' (d ∷ cs) e = let same : d ≡ c = cc in omega (arith, ap owed same)
owed_all-put_at (suc i) c c' (d ∷ cs) e = omega (arith, owed_all-put_at i c c' cs e)

abbrev pub AllKnow : ℕ → ℕ → List Caller → Type 0
AllKnow rate clock cs = All (Knows rate clock) cs

AllKnow-put_at :
    (rate clock i : ℕ) (c' : Caller) (cs : List Caller)
    → AllKnow rate clock cs
    → Knows rate clock c'
    → AllKnow rate clock (put_at i c' cs)
unfolding put_at
AllKnow-put_at rate clock i c' [] h k = tt
AllKnow-put_at rate clock zero c' (d ∷ cs) h k = (k, h.1)
AllKnow-put_at rate clock (suc i) c' (d ∷ cs) h k = (h.0, AllKnow-put_at rate clock i c' cs h.1 k)

AllKnow-get :
    (rate clock i : ℕ) (c : Caller) (cs : List Caller)
    → AllKnow rate clock cs
    → get_elem? cs i ≡ some c
    → Knows rate clock c
AllKnow-get rate clock i c [] h e = cc
AllKnow-get rate clock zero c (d ∷ cs) h e =
    let same : d ≡ c = cc in subst (Knows rate clock) same h.0
AllKnow-get rate clock (suc i) c (d ∷ cs) h e = AllKnow-get rate clock i c cs h.1 e

Knows-later : (rate clock d : ℕ) (c : Caller) → Knows rate clock c → Knows rate (clock + d) c
Knows-later rate clock d idle k = tt
Knows-later rate clock d (refill n) k = tt
Knows-later rate clock d (load_last n now) k = omega arith
Knows-later rate clock d (claim n last now add) (l, before, a) = (l, omega arith, a)
Knows-later rate clock d (credit n add) k = tt
Knows-later rate clock d (swap_credit n add current) k = tt
Knows-later rate clock d (spend n) k = tt
Knows-later rate clock d (swap_spend n current) k = k
Knows-later rate clock d (answered r) k = tt
Knows-later rate clock d panicked k = tt

AllKnow-later :
    (rate clock d : ℕ) (cs : List Caller) → AllKnow rate clock cs → AllKnow rate (clock + d) cs
AllKnow-later rate clock d [] h = tt
AllKnow-later rate clock d (c ∷ cs) h =
    (Knows-later rate clock d c h.0, AllKnow-later rate clock d cs h.1)

-- A bucket with a burst grants nothing but what it takes from its tokens.
allow-Knows :
    (b : Bucket) (rate clock n : ℕ)
    → 0 < b.burst
    → Knows rate clock (allow b n) × (owed (allow b n) ≡ 0) × (granted_at_once n (allow b n) ≡ 0)
unfolding allow
allow-Knows b rate clock n limited = elim (Bool-cases (n == 0)) [
  | inl e ↦ rw (e, allow) (tt, refl, ground (arith, e))
  | inr e ↦ elim (Bool-cases (ltb b.burst n)) [
    | inl f ↦
        let some_burst : (b.burst == 0) ≡ false = ground (arith, limited) in
        rw (e, f, some_burst, allow) (tt, refl, refl)
    | inr f ↦ rw (e, f, allow) (tt, refl, refl)
  ]
]

-- Every token granted, in the bucket or owed to it comes from the burst or from the time passed.
pub record IsFair (start rate burst : ℕ) (s : System) : Type 0 where
  pub sound : Sound start s.clock s.bucket
  pub know : AllKnow rate s.clock s.callers
  pub paid :
      s.granted + s.bucket.tokens + owed_all s.callers ≤ burst + made rate start s.bucket.last_time
  pub same_rate : s.bucket.rate ≡ rate
  pub limited : 0 < s.bucket.burst

stepped : System → ℕ → Bucket × Caller × ℕ → System
stepped s i (b', c', g) = record s {
  bucket = b';
  callers = put_at i c' s.callers;
  granted = s.granted + g;
}

stepped-IsFair :
    (start rate burst : ℕ) (s : System) (i : ℕ) (c : Caller) (done : Bucket × Caller × ℕ)
    → IsFair start rate burst s
    → get_elem? s.callers i ≡ some c
    → Pays start s.clock s.bucket c done
    → IsFair start rate burst (stepped s i done)
unfolding stepped
stepped-IsFair start rate burst s i c (b', c', g) f e (sound, knows, pays, same_rate, same_burst) =
    let debts = owed_all-put_at i c c' s.callers e in
    let before = ap (λ q. made q start s.bucket.last_time) f.same_rate in
    let after = ap (λ q. made q start b'.last_time) f.same_rate in
    record {
      sound = sound;
      know =
          AllKnow-put_at rate s.clock i c' s.callers f.know
            (subst (λ q. Knows q s.clock c') f.same_rate knows);
      paid = omega (arith, f.paid, pays, debts, before, after);
      same_rate = same_rate ∙ f.same_rate;
      limited = omega (arith, f.limited, same_burst);
    }

move-IsFair :
    (start rate burst : ℕ) (s : System) (m : Move)
    → IsFair start rate burst s
    → IsFair start rate burst (move s m)
unfolding move stepped
move-IsFair start rate burst s (tick d) f =
    let (after, before, small, word) = f.sound in
    record {
      sound = (after, omega arith, small, word);
      know = AllKnow-later rate s.clock d s.callers f.know;
      paid = f.paid;
      same_rate = f.same_rate;
      limited = f.limited;
    }
move-IsFair start rate burst s (call n) f =
    let (knows, debt, free) = allow-Knows s.bucket rate s.clock n f.limited in
    record {
      sound = f.sound;
      know = (knows, f.know);
      paid = unfold owed_all in omega (arith, f.paid, debt, free);
      same_rate = f.same_rate;
      limited = f.limited;
    }
move-IsFair start rate burst s (step i) f = elim (Option-cases (get_elem? s.callers i)) [
  | inl gone ↦ rw (gone, move) f
  | inr (c, e) ↦
      rw (e, move)
        (stepped-IsFair start rate burst s i c (act s.bucket s.clock c) f e (
          act-Pays start s.clock s.bucket c f.sound (
            subst (λ q. Knows q s.clock c) (sym f.same_rate)
              (AllKnow-get rate s.clock i c s.callers f.know e))))
]

run-IsFair :
    (start rate burst : ℕ) (s : System) (ms : List Move)
    → IsFair start rate burst s
    → IsFair start rate burst (run s ms)
unfolding run
run-IsFair start rate burst s [] f = f
run-IsFair start rate burst s (m ∷ ms) f =
    run-IsFair start rate burst (move s m) ms (move-IsFair start rate burst s m f)

-- A new bucket and no caller.
abbrev pub new_system : ℕ → ℕ → ℕ → System
new_system rate burst start = record {
  bucket = new_token_bucket rate burst start;
  clock = start;
  callers = [];
  granted = 0;
}

-- Callers of `allow` on a new bucket, however many there are and however their loads and
-- compare-and-swaps interleave, are never granted more tokens together than the burst and what
-- the rate makes in the time that has passed. The bucket never holds more than its burst.
-- (The rate is positive, and both it and the burst are uint64.)
pub run_granted :
    (rate burst start : ℕ) (ms : List Move)
    → 0 < rate
    → IsU64 rate
    → IsU64 burst
    → let s = run (new_system rate burst start) ms in
      (s.granted ≤ (new_token_bucket rate burst start).burst + made rate start s.clock)
      × (s.bucket.tokens ≤ s.bucket.burst)
unfolding new_token_bucket
run_granted rate burst start ms p r b =
    let begin : IsFair start rate (new_token_bucket rate burst start).burst
        (new_system rate burst start) =
      record {
        sound = (omega arith, omega arith, omega arith, ground arith);
        know = tt;
        paid = unfold owed_all in omega arith;
        same_rate = refl;
        limited = ground arith;
      } in
    let f =
      run-IsFair start rate (new_token_bucket rate burst start).burst (new_system rate burst start)
        ms begin in
    let s = run (new_system rate burst start) ms in
    let (after, before, small, word) = f.sound in
    (omega (arith, f.paid, made_split rate start s.bucket.last_time s.clock after before), small)
