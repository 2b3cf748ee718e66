-- ===== src/Server/Budget/System.antt =====
-- core/server.go: any number of callers of the body budget, in any order of their atomic operations.
use alos_http.Prelude.{
  ℕ, zero, suc, ◌+◌, ◌-◌, ◌≤◌, ◌==◌, ◌≡◌, List, [], ◌∷◌, Option, none, some, ℤ, pos, get_elem?,
  if◌then◌else◌,
}
use alos_http.Server.Budget.{
  BodyLimits, Reserved, BudgetCaller, start_bytes, begin_reserve, begin_release, budget_act,
}

-- The server's count, the counts of its connections, the callers, each of a connection or of none,
-- and the bytes that were reserved and are not being released.
pub record BudgetSystem : Type 0 where
  pub bytes : ℤ
  pub conns : ℕ → ℤ
  pub callers : List (Option ℕ × BudgetCaller)
  pub kept : ℕ

abbrev pub conn_of : (ℕ → ℤ) → Option ℕ → ℤ
conn_of conns none = pos 0
conn_of conns (some c) = conns c

abbrev pub set_conn : (ℕ → ℤ) → Option ℕ → ℤ → ℕ → ℤ
set_conn conns none v = conns
set_conn conns (some c) v = λ d. if d == c then v else conns d

unfoldable pub put_caller :
    ℕ → Option ℕ × BudgetCaller → List (Option ℕ × BudgetCaller) → List (Option ℕ × BudgetCaller)
put_caller i c [] = []
put_caller zero c (d ∷ cs) = c ∷ cs
put_caller (suc i) c (d ∷ cs) = d ∷ put_caller i c cs

abbrev pub acted : BudgetSystem → ℕ → Option ℕ → Reserved × BudgetCaller × ℕ → BudgetSystem
acted s i owner (r, k, got) = record s {
  bytes = r.in_flight;
  conns = set_conn s.conns owner r.conn_reserved;
  callers = put_caller i (owner, k) s.callers;
  kept = s.kept + got;
}

-- A call begins, of a connection or straight on the server's count, or a caller makes an atomic
-- operation, with the `MaxBodySize` that is set then. What is released was reserved before.
pub data BudgetStep (l : BodyLimits) (limit : ℕ) : BudgetSystem → BudgetSystem → Type 0 where
  reserves :
      (s : BudgetSystem) (c n : ℕ)
      → BudgetStep l limit s (record s { callers = (some c, begin_reserve l n) ∷ s.callers })
  takes :
      (s : BudgetSystem) (n : ℕ)
      → BudgetStep l limit s (record s { callers = (none, start_bytes limit n) ∷ s.callers })
  releases :
      (s : BudgetSystem) (owner : Option ℕ) (n : ℕ)
      → n ≤ s.kept
      → BudgetStep l limit s
          (record s { callers = (owner, begin_release l n) ∷ s.callers; kept = s.kept - n })
  acts :
      (s : BudgetSystem) (i : ℕ) (owner : Option ℕ) (k : BudgetCaller) (max_body : Option ℕ)
      → get_elem? s.callers i ≡ some (owner, k)
      → BudgetStep l limit s (
          acted s i owner (
            budget_act limit max_body
              (record { conn_reserved = conn_of s.conns owner; in_flight = s.bytes })
              k))

-- A server without a request, and what it goes through.
abbrev pub new_budget : BudgetSystem
new_budget = record { bytes = pos 0; conns = λ _. pos 0; callers = []; kept = 0 }

pub data BudgetReached (l : BodyLimits) (limit : ℕ) : BudgetSystem → Type 0 where
  fresh : BudgetReached l limit new_budget
  later :
      {s t : BudgetSystem}
      → BudgetReached l limit s
      → BudgetStep l limit s t
      → BudgetReached l limit t
