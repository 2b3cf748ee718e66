-- ===== src/Server/Budget/Within.antt =====
-- core/server.go: the request-body bytes that are reserved never exceed their limit, and the shared
-- count is right whenever no caller is at work.
use alos_http.Prelude.{
  ℕ, zero, suc, ◌+◌, ◌-◌, ◌≤◌, ◌≡◌, refl, inl, inr, ◌∷◌, Option, none, some, pos, arith, ap, ◌∙◌,
  get_elem?, Option-cases,
}
use alos_http.Server.Budget.{
  BodyLimits, Reserved, BudgetCaller, start_bytes, begin_reserve, begin_release,
}
use alos_http.Server.Budget.System.{
  BudgetSystem, acted, BudgetStep, reserves, takes, releases, acts, BudgetReached, fresh, later,
}
use alos_http.Server.Budget.Acts.{
  unsettled, releasing, Knows, Accounts, start_bytes-Knows, budget_act-Accounts,
}
use alos_http.Server.Budget.Callers.{
  together, drop_caller, together-drop_caller, together-put_caller, together_le, AllKnow,
  AllKnow-put_caller, AllKnow-get,
}

-- The shared count is made of the reserved bytes and of what callers have in it for a while.
record IsAccounted (limit : ℕ) (s : BudgetSystem) : Type 0 where
  counted : s.bytes ≡ pos (s.kept + together unsettled s.callers)
  within : s.kept + together releasing s.callers ≤ limit
  know : AllKnow limit s.callers

begun-IsAccounted :
    (limit n : ℕ) (s : BudgetSystem) (owner : Option ℕ) (k : BudgetCaller)
    → n ≤ s.kept
    → (unsettled k ≡ n) × (releasing k ≡ n) × Knows limit k
    → IsAccounted limit s
    → IsAccounted limit (record s { callers = (owner, k) ∷ s.callers; kept = s.kept - n })
unfolding together
begun-IsAccounted limit n s owner k le (u, r, knows) h = record {
  counted = h.counted ∙ ap pos (omega (arith, u));
  within = omega (arith, h.within, r);
  know = (knows, h.know);
}

begin_reserve-Knows :
    (l : BodyLimits) (limit n : ℕ)
    → (unsettled (begin_reserve l n) ≡ 0)
      × (releasing (begin_reserve l n) ≡ 0)
      × Knows limit (begin_reserve l n)
unfolding begin_reserve
begin_reserve-Knows l limit zero = (refl, refl, tt)
begin_reserve-Knows l limit (suc n) = elim (Option-cases l.max_in_flight) [
  | inl e ↦ rw e (refl, refl, tt)
  | inr (m, e) ↦ rw e (refl, refl, tt)
]

begin_release-Knows :
    (l : BodyLimits) (limit n : ℕ)
    → l.max_in_flight ≡ some limit
    → (unsettled (begin_release l n) ≡ n)
      × (releasing (begin_release l n) ≡ n)
      × Knows limit (begin_release l n)
unfolding begin_release
begin_release-Knows l limit zero e = (refl, refl, tt)
begin_release-Knows l limit (suc n) e = rw e (refl, refl, tt)

reserve_begun :
    (limit : ℕ) (s : BudgetSystem) (owner : Option ℕ) (k : BudgetCaller)
    → (unsettled k ≡ 0) × (releasing k ≡ 0) × Knows limit k
    → IsAccounted limit s
    → IsAccounted limit (record s { callers = (owner, k) ∷ s.callers })
unfolding together
reserve_begun limit s owner k (u, r, knows) h = record {
  counted = h.counted ∙ ap pos (omega (arith, u));
  within = omega (arith, h.within, r);
  know = (knows, h.know);
}

acted-IsAccounted :
    (limit i : ℕ) (s : BudgetSystem) (owner : Option ℕ) (k : BudgetCaller)
    (done : Reserved × BudgetCaller × ℕ)
    → get_elem? s.callers i ≡ some (owner, k)
    → Accounts limit
        (s.kept + together unsettled (drop_caller i s.callers))
        (s.kept + together releasing (drop_caller i s.callers))
        done
    → IsAccounted limit s
    → IsAccounted limit (acted s i owner done)
acted-IsAccounted limit i s owner k (r, k', got) e (counted, within, knows) h = record {
  counted =
      counted
      ∙ ap pos (omega (arith, together-put_caller unsettled i (owner, k) (owner, k') s.callers e));
  within =
      omega (arith, within, together-put_caller releasing i (owner, k) (owner, k') s.callers e);
  know = AllKnow-put_caller limit i (owner, k') s.callers h.know knows;
}

step-IsAccounted :
    (l : BodyLimits) (limit : ℕ) {s t : BudgetSystem}
    → l.max_in_flight ≡ some limit
    → BudgetStep l limit s t
    → IsAccounted limit s
    → IsAccounted limit t
step-IsAccounted l limit e (reserves s c n) h =
    reserve_begun limit s (some c) (begin_reserve l n) (begin_reserve-Knows l limit n) h
step-IsAccounted l limit e (takes s n) h =
    let (knows, u, r) = start_bytes-Knows limit n in
    reserve_begun limit s none (start_bytes limit n) (u, r, knows) h
step-IsAccounted l limit e (releases s owner n le) h =
    begun-IsAccounted limit n s owner (begin_release l n) le (begin_release-Knows l limit n e) h
step-IsAccounted l limit e (acts s i owner k max_body at) h =
    let rest = drop_caller i s.callers in
    let u = together-drop_caller unsettled i (owner, k) s.callers at in
    let r = together-drop_caller releasing i (owner, k) s.callers at in
    acted-IsAccounted limit i s owner k _ at
      (budget_act-Accounts limit max_body _ k (s.kept + together unsettled rest)
        (s.kept + together releasing rest) (h.counted ∙ ap pos (omega (arith, u)))
        (omega (arith, together_le rest)) (omega (arith, h.within, r))
        (AllKnow-get limit i (owner, k) s.callers h.know at))
      h

reached-IsAccounted :
    (l : BodyLimits) (limit : ℕ) {s : BudgetSystem}
    → l.max_in_flight ≡ some limit
    → BudgetReached l limit s
    → IsAccounted limit s
reached-IsAccounted l limit e fresh = record {
  counted = ap pos (unfold together in omega arith);
  within = unfold together in omega arith;
  know = tt;
}
reached-IsAccounted l limit e (later before step) =
    step-IsAccounted l limit e step (reached-IsAccounted l limit e before)

-- However the atomic operations of callers interleave, the request-body bytes that were reserved and
-- are not being released never exceed the limit. The shared count is these and what callers have in
-- it for a while: an addition that is about to be undone, or a release that has begun. It is exact
-- when there is none, and never negative. (No caller releases more than there is reserved.)
pub BudgetReached-within :
    (l : BodyLimits) (limit : ℕ) (s : BudgetSystem)
    → l.max_in_flight ≡ some limit
    → BudgetReached l limit s
    → (s.kept ≤ limit) × (s.bytes ≡ pos (s.kept + together unsettled s.callers))
BudgetReached-within l limit s e reached =
    let h = reached-IsAccounted l limit e reached in (omega (arith, h.within), h.counted)
