-- ===== src/Server/Budget.antt =====
-- core/server.go: the budget of request-body bytes in flight, with the atomic operations of
-- concurrent callers as steps.
pub mod System
pub mod Acts
pub mod Callers
pub mod Within
pub mod Alone
use alos_http.Prelude.{
  ℕ, zero, suc, ◌+◌, ◌-◌, ◌/◌, ◌≤◌, min, max, ltb, leb, Bool, true, false, ◌&&◌, if◌then◌else◌,
  Option, none, some, ℤ, pos, ◌+ℤ◌, ◌-ℤ◌, ltb_ℤ, eqb_ℤ, ◌^◌, ◌==◌,
}

-- What a stream uses of its connection's budget, whose state is `B`.
pub record BodyBudget (B : Type 0) : Type 0 where
  pub try_reserve : B → ℕ → Bool × B
  pub release : B → ℕ → B

-- `MaxInFlightBodyBytes` and `MaxBodySize`, where `none` is a negative setting.
pub record BodyLimits : Type 0 where
  pub max_in_flight : Option ℕ
  pub max_body_size : Option ℕ

-- `bodyReserved` of the connection and `inFlightBodyBytes` of the server, two atomic int64.
pub record Reserved : Type 0 where
  pub conn_reserved : ℤ
  pub in_flight : ℤ

abbrev pub conn_share_divisor : ℕ
conn_share_divisor = 8

abbrev pub pressure_divisor : ℕ
pressure_divisor = 2

-- `connBodyShare`.
unfoldable pub conn_body_share : ℕ → Option ℕ → ℕ
conn_body_share limit none = limit
conn_body_share limit (some max_body) = min (max (limit / conn_share_divisor) max_body) limit

abbrev pub add_path_max_limit : ℕ
add_path_max_limit = 2 ^ 40

-- Where a caller stands, by the atomic operation that it makes next, with the bytes that it is about.
pub data BudgetCaller : Type 0 where
  add_conn : ℕ → BudgetCaller
  check_pressure : ℕ → BudgetCaller
  add_bytes : ℕ → BudgetCaller
  undo_bytes : ℕ → BudgetCaller
  load_bytes : ℕ → BudgetCaller
  swap_bytes : ℕ → ℤ → BudgetCaller
  undo_conn : ℕ → BudgetCaller
  reserved : Bool → BudgetCaller
  give_conn : ℕ → BudgetCaller
  give_bytes : ℕ → BudgetCaller
  regain_bytes : ℕ → BudgetCaller
  released : BudgetCaller

-- `tryReserveBodyBytes` up to its first atomic operation, below a limit.
unfoldable pub start_bytes : ℕ → ℕ → BudgetCaller
start_bytes limit n =
    if n == 0
    then reserved true
    else if ltb limit n
    then undo_conn n
    else if leb limit add_path_max_limit
    then add_bytes n
    else load_bytes n

-- `tryReserveConnBodyBytes` and `releaseConnBodyBytes` up to their first atomic operation.
unfoldable pub begin_reserve : BodyLimits → ℕ → BudgetCaller
begin_reserve l zero = reserved true
begin_reserve l (suc n) = elim l.max_in_flight [
  | none ↦ reserved true
  | some limit ↦ add_conn (suc n)
]

unfoldable pub begin_release : BodyLimits → ℕ → BudgetCaller
begin_release l zero = released
begin_release l (suc n) = elim l.max_in_flight [ none ↦ released | some limit ↦ give_conn (suc n) ]

-- One atomic operation of a caller, with the `MaxBodySize` at that time: the two counters, the
-- caller, and the bytes that it has got. `undo_conn` is the end of a refused reservation, and
-- `regain_bytes` takes back a release that made the count negative.
unfoldable pub budget_act : ℕ → Option ℕ → Reserved → BudgetCaller → Reserved × BudgetCaller × ℕ
budget_act limit max_body r (add_conn n) =
    let v = r.conn_reserved +ℤ pos n in
    (
      record r { conn_reserved = v },
      if ltb_ℤ (pos (conn_body_share limit max_body)) v
          then check_pressure n
          else start_bytes limit n,
      0,
    )
budget_act limit max_body r (check_pressure n) = (
  r,
  if ltb_ℤ (pos (limit / pressure_divisor)) (r.in_flight +ℤ pos n)
      then undo_conn n
      else start_bytes limit n,
  0,
)
budget_act limit max_body r (add_bytes n) =
    let v = r.in_flight +ℤ pos n in
    if ltb_ℤ (pos limit) v
    then (record r { in_flight = v }, undo_bytes n, 0)
    else (record r { in_flight = v }, reserved true, n)
budget_act limit max_body r (undo_bytes n) =
    (record r { in_flight = r.in_flight -ℤ pos n }, undo_conn n, 0)
budget_act limit max_body r (load_bytes n) = (
  r,
  if ltb_ℤ (pos limit -ℤ r.in_flight) (pos n) then undo_conn n else swap_bytes n r.in_flight,
  0,
)
budget_act limit max_body r (swap_bytes n used) =
    if eqb_ℤ r.in_flight used
    then (record r { in_flight = used +ℤ pos n }, reserved true, n)
    else (r, load_bytes n, 0)
budget_act limit max_body r (undo_conn n) =
    (record r { conn_reserved = r.conn_reserved -ℤ pos n }, reserved false, 0)
budget_act limit max_body r (reserved kept) = (r, reserved kept, 0)
budget_act limit max_body r (give_conn n) =
    (record r { conn_reserved = r.conn_reserved -ℤ pos n }, give_bytes n, 0)
budget_act limit max_body r (give_bytes n) =
    let v = r.in_flight -ℤ pos n in
    (record r { in_flight = v }, if ltb_ℤ v (pos 0) then regain_bytes n else released, 0)
budget_act limit max_body r (regain_bytes n) =
    (record r { in_flight = r.in_flight +ℤ pos n }, released, 0)
budget_act limit max_body r released = (r, released, 0)

-- So many operations of a caller that no other one disturbs.
unfoldable pub act_alone : ℕ → ℕ → Option ℕ → Reserved → BudgetCaller → Reserved × BudgetCaller
act_alone zero limit max_body r c = (r, c)
act_alone (suc k) limit max_body r c =
    let done = budget_act limit max_body r c in act_alone k limit max_body done.0 done.1

abbrev pub is_kept : BudgetCaller → Bool
is_kept (reserved kept) = kept
is_kept c = false

-- The two calls without other callers. Five operations are enough.
unfoldable pub try_reserve_conn_body_bytes : BodyLimits → Reserved → ℕ → Bool × Reserved
try_reserve_conn_body_bytes l r n = elim l.max_in_flight [
  | none ↦ (true, r)
  | some limit ↦
      let done = act_alone 5 limit l.max_body_size r (begin_reserve l n) in (is_kept done.1, done.0)
]

unfoldable pub release_conn_body_bytes : BodyLimits → Reserved → ℕ → Reserved
release_conn_body_bytes l r n = elim l.max_in_flight [
  | none ↦ r
  | some limit ↦ (act_alone 3 limit l.max_body_size r (begin_release l n)).0
]

abbrev pub server_budget : BodyLimits → BodyBudget Reserved
server_budget l = record {
  try_reserve = try_reserve_conn_body_bytes l;
  release = release_conn_body_bytes l;
}
