-- ===== src/Server/Tests.antt =====
-- The body budget: runs, and the theorem at a run whose count is above the limit for a while.
use alos_http.Prelude.{◌≤◌, ◌+◌, ◌≡◌, ◌+ℤ◌, ◌-ℤ◌, [], ◌∷◌, refl, true, false, some, none, pos}
use alos_http.Server.Budget.{
  BodyLimits, Reserved, add_bytes, undo_bytes, reserved, start_bytes, budget_act, act_alone,
  begin_reserve, begin_release, conn_body_share, try_reserve_conn_body_bytes,
  release_conn_body_bytes,
}
use alos_http.Server.Budget.System.{
  BudgetSystem, BudgetReached, takes, acts, fresh, later, put_caller,
}
use alos_http.Server.Budget.Acts.{unsettled}
use alos_http.Server.Budget.Callers.{together}
use alos_http.Server.Budget.Within.{BudgetReached-within}

abbrev server_limits : BodyLimits
server_limits = record { max_in_flight = some 100; max_body_size = some 20 }

abbrev half_used : Reserved
half_used = record { conn_reserved = pos 10; in_flight = pos 50 }

-- A connection above its share is refused under pressure, and its count is as it was.
run_refused : try_reserve_conn_body_bytes server_limits half_used 30 ≡ (false, half_used)
unfolding try_reserve_conn_body_bytes act_alone budget_act begin_reserve start_bytes conn_body_share
    ◌+ℤ◌ ◌-ℤ◌
run_refused = refl

run_released :
    release_conn_body_bytes server_limits half_used 10
    ≡ record { conn_reserved = pos 0; in_flight = pos 40 }
unfolding release_conn_body_bytes act_alone budget_act begin_release ◌+ℤ◌ ◌-ℤ◌
run_released = refl

-- 60 bytes are reserved, and 45 more were added and are about to be taken back.
abbrev above_limit : BudgetSystem
above_limit = record {
  bytes = pos 105;
  conns = λ _. pos 0;
  callers = (none, undo_bytes 45) ∷ (none, reserved true) ∷ [];
  kept = 60;
}

above_limit-reached : BudgetReached server_limits 100 above_limit
unfolding start_bytes budget_act put_caller ◌+ℤ◌
above_limit-reached =
    later
      (later (later (later fresh (takes _ 60)) (takes _ 45))
        (acts _ 1 none (add_bytes 60) (some 20) refl))
      (acts _ 0 none (add_bytes 45) (some 20) refl)

BudgetReached-within_example :
    (60 ≤ 100) × (pos 105 ≡ pos (60 + together unsettled above_limit.callers))
BudgetReached-within_example =
    BudgetReached-within server_limits 100 above_limit refl above_limit-reached
