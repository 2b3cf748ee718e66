-- ===== src/Server/Budget/Alone.antt =====
-- core/server.go: a caller of the body budget that no other one disturbs comes to its end.
use alos_http.Prelude.{
  ℕ, zero, suc, ◌/◌, ◌^◌, ◌≡◌, refl, Bool, true, false, ltb, leb, ◌==◌, Bool-cases, inl, inr,
  Option, pos, ◌+ℤ◌, ◌-ℤ◌, ltb_ℤ, eqb_ℤ, arith, Option-cases,
}
use alos_http.Server.Budget.{
  BodyLimits, Reserved, BudgetCaller, add_conn, check_pressure, add_bytes, undo_bytes, load_bytes,
  swap_bytes, undo_conn, reserved, give_conn, regain_bytes, released, start_bytes, begin_reserve,
  begin_release, budget_act, act_alone, conn_body_share, pressure_divisor,
}

abbrev pub is_settled : BudgetCaller → Bool
is_settled (reserved kept) = true
is_settled released = true
is_settled c = false

module _ (limit : ℕ) (max_body : Option ℕ) where
  abbrev Ends : ℕ → Reserved → BudgetCaller → Type 0
  Ends k r c = is_settled (act_alone k limit max_body r c).1 ≡ true

  reserved-Ends : (k : ℕ) (r : Reserved) (b : Bool) → Ends k r (reserved b)
  unfolding act_alone budget_act
  reserved-Ends zero r b = refl
  reserved-Ends (suc k) r b = reserved-Ends k r b

  released-Ends : (k : ℕ) (r : Reserved) → Ends k r released
  unfolding act_alone budget_act
  released-Ends zero r = refl
  released-Ends (suc k) r = released-Ends k r

  undo_conn-Ends : (k n : ℕ) (r : Reserved) → Ends (suc k) r (undo_conn n)
  unfolding act_alone budget_act
  undo_conn-Ends k n r = reserved-Ends k _ false

  undo_bytes-Ends : (k n : ℕ) (r : Reserved) → Ends (suc (suc k)) r (undo_bytes n)
  unfolding act_alone budget_act
  undo_bytes-Ends k n r = undo_conn-Ends k n _

  add_bytes-Ends : (k n : ℕ) (r : Reserved) → Ends (suc (suc (suc k))) r (add_bytes n)
  unfolding act_alone budget_act
  add_bytes-Ends k n r = elim (Bool-cases (ltb_ℤ (pos limit) (r.in_flight +ℤ pos n))) [
    | inl over ↦ rw (over, act_alone) (undo_bytes-Ends k n _)
    | inr fits ↦ rw (fits, act_alone) (reserved-Ends (suc (suc k)) _ true)
  ]

  swap_bytes-Ends : (k n : ℕ) (r : Reserved) → Ends (suc k) r (swap_bytes n r.in_flight)
  unfolding act_alone budget_act
  swap_bytes-Ends k n r =
      let same : eqb_ℤ r.in_flight r.in_flight ≡ true = ground arith in
      rw (same, act_alone) (reserved-Ends k _ true)

  load_bytes-Ends : (k n : ℕ) (r : Reserved) → Ends (suc (suc k)) r (load_bytes n)
  unfolding act_alone budget_act
  load_bytes-Ends k n r = elim (Bool-cases (ltb_ℤ (pos limit -ℤ r.in_flight) (pos n))) [
    | inl few ↦ rw (few, act_alone) (undo_conn-Ends k n r)
    | inr room ↦ rw (room, act_alone) (swap_bytes-Ends k n r)
  ]

  start_bytes-Ends : (k n : ℕ) (r : Reserved) → Ends (suc (suc (suc k))) r (start_bytes limit n)
  unfolding start_bytes
  start_bytes-Ends k n r = elim (Bool-cases (n == 0)) [
    | inl none_asked ↦ rw none_asked (reserved-Ends (suc (suc (suc k))) r true)
    | inr asked ↦ elim (Bool-cases (ltb limit n)) [
      | inl large ↦ rw (asked, large) (undo_conn-Ends (suc (suc k)) n r)
      | inr small ↦ elim (Bool-cases (leb limit (2 ^ 40))) [
        | inl low ↦ rw (asked, small, low) (add_bytes-Ends k n r)
        | inr high ↦ rw (asked, small, high) (load_bytes-Ends (suc k) n r)
      ]
    ]
  ]

  check_pressure-Ends : (n : ℕ) (r : Reserved) → Ends 4 r (check_pressure n)
  unfolding act_alone budget_act
  check_pressure-Ends n r =
      elim (Bool-cases (ltb_ℤ (pos (limit / pressure_divisor)) (r.in_flight +ℤ pos n))) [
        | inl high ↦ rw (high, act_alone) (undo_conn-Ends 2 n r)
        | inr low ↦ rw (low, act_alone) (start_bytes-Ends 0 n r)
      ]

  add_conn-Ends : (n : ℕ) (r : Reserved) → Ends 5 r (add_conn n)
  unfolding act_alone budget_act
  add_conn-Ends n r =
      let v = r.conn_reserved +ℤ pos n in
      elim (Bool-cases (ltb_ℤ (pos (conn_body_share limit max_body)) v)) [
        | inl above ↦ rw (above, act_alone) (check_pressure-Ends n _)
        | inr below ↦ rw (below, act_alone) (start_bytes-Ends 1 n _)
      ]

  regain_bytes-Ends : (k n : ℕ) (r : Reserved) → Ends (suc k) r (regain_bytes n)
  unfolding act_alone budget_act
  regain_bytes-Ends k n r = released-Ends k _

  give_conn-Ends : (n : ℕ) (r : Reserved) → Ends 3 r (give_conn n)
  unfolding act_alone budget_act
  give_conn-Ends n r =
      let r' : Reserved = record {
        conn_reserved = r.conn_reserved -ℤ pos n;
        in_flight = r.in_flight -ℤ pos n;
      } in
      elim (Bool-cases (ltb_ℤ (r.in_flight -ℤ pos n) (pos 0))) [
        | inl negative ↦ rw (negative, act_alone) (regain_bytes-Ends 0 n r')
        | inr enough ↦ rw (enough, act_alone) (released-Ends 1 r')
      ]

  -- Five operations are enough for a reservation, and three for a release.
  pub begin_reserve-Ends : (l : BodyLimits) (n : ℕ) (r : Reserved) → Ends 5 r (begin_reserve l n)
  unfolding begin_reserve
  begin_reserve-Ends l zero r = reserved-Ends 5 r true
  begin_reserve-Ends l (suc n) r = elim (Option-cases l.max_in_flight) [
    | inl e ↦ rw e (reserved-Ends 5 r true)
    | inr (m, e) ↦ rw e (add_conn-Ends (suc n) r)
  ]

  pub begin_release-Ends : (l : BodyLimits) (n : ℕ) (r : Reserved) → Ends 3 r (begin_release l n)
  unfolding begin_release
  begin_release-Ends l zero r = released-Ends 3 r
  begin_release-Ends l (suc n) r = elim (Option-cases l.max_in_flight) [
    | inl e ↦ rw e (released-Ends 3 r)
    | inr (m, e) ↦ rw e (give_conn-Ends (suc n) r)
  ]
