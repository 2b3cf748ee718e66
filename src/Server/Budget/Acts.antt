-- ===== src/Server/Budget/Acts.antt =====
-- core/server.go: what one atomic operation of a caller does to the shared count.
use alos_http.Prelude.{
  ℕ, ◌+◌, ◌≤◌, ◌≡◌, Bool-cases, inl, inr, Option, pos, ◌+ℤ◌, ◌-ℤ◌, pos-add, pos-sub, ltb_ℤ, false,
  eqb_ℤ, eqb_ℤ_same, arith, ap, ◌∙◌, subst,
}
use alos_http.Server.Budget.{
  Reserved, BudgetCaller, add_conn, check_pressure, add_bytes, undo_bytes, load_bytes, swap_bytes,
  undo_conn, reserved, give_conn, give_bytes, regain_bytes, released, start_bytes, budget_act,
}

-- What a caller has in the shared count beside the reserved bytes, and what of it is a release.
abbrev pub unsettled : BudgetCaller → ℕ
unsettled (undo_bytes n) = n
unsettled (give_conn n) = n
unsettled (give_bytes n) = n
unsettled _ = 0

abbrev pub releasing : BudgetCaller → ℕ
releasing (give_conn n) = n
releasing (give_bytes n) = n
releasing _ = 0

-- What a caller knows: that its bytes fit, and that no release makes the count negative.
abbrev pub Knows : ℕ → BudgetCaller → Type 0
Knows limit (swap_bytes n used) = (u : ℕ) × (used ≡ pos u) × (u + n ≤ limit)
Knows limit (regain_bytes n) = 1 ≤ 0
Knows limit _ = Unit

abbrev pub Accounts : ℕ → ℕ → ℕ → Reserved × BudgetCaller × ℕ → Type 0
Accounts limit other w (r, k, got) =
    (r.in_flight ≡ pos (other + got + unsettled k))
    × (w + got + releasing k ≤ limit)
    × Knows limit k

pub start_bytes-Knows :
    (limit n : ℕ)
    → Knows limit (start_bytes limit n)
      × (unsettled (start_bytes limit n) ≡ 0)
      × (releasing (start_bytes limit n) ≡ 0)
unfolding start_bytes
start_bytes-Knows limit n = ground arith

room_left : (limit other n : ℕ) → ltb_ℤ (pos limit -ℤ pos other) (pos n) ≡ false → other + n ≤ limit
unfolding ◌-ℤ◌
room_left limit other n h = ground arith

pub budget_act-Accounts :
    (limit : ℕ) (max_body : Option ℕ) (r : Reserved) (k : BudgetCaller) (other w : ℕ)
    → r.in_flight ≡ pos (other + unsettled k)
    → w ≤ other
    → w + releasing k ≤ limit
    → Knows limit k
    → Accounts limit other w (budget_act limit max_body r k)
unfolding budget_act
budget_act-Accounts limit max_body r (add_conn n) other w h le fits k =
    let (knows, none_held, none_given) = start_bytes-Knows limit n in
    ground (arith, h, knows, none_held, none_given, fits)
budget_act-Accounts limit max_body r (check_pressure n) other w h le fits k =
    let (knows, none_held, none_given) = start_bytes-Knows limit n in
    ground (arith, h, knows, none_held, none_given, fits)
budget_act-Accounts limit max_body r (add_bytes n) other w h le fits k =
    let sum : r.in_flight +ℤ pos n ≡ pos (other + n) =
      ap (λ z. z +ℤ pos n) h ∙ pos-add (other + 0) n ∙ ap pos (omega arith) in
    rw sum (ground (arith, le, fits))
budget_act-Accounts limit max_body r (undo_bytes n) other w h le fits k =
    let rest : r.in_flight -ℤ pos n ≡ pos (other + 0 + 0) =
      ap (λ z. z -ℤ pos n) h ∙ pos-sub (other + n) n (omega arith) ∙ ap pos (omega arith) in
    (rest, omega arith, tt)
budget_act-Accounts limit max_body r (load_bytes n) other w h le fits k =
    let used : r.in_flight ≡ pos other = h ∙ ap pos (omega arith) in
    let used_0 : r.in_flight ≡ pos (other + 0 + 0) = h ∙ ap pos (omega arith) in
    elim (Bool-cases (ltb_ℤ (pos limit -ℤ r.in_flight) (pos n))) [
      | inl few ↦ rw few (used_0, omega arith, tt)
      | inr enough ↦
          let room =
            room_left limit other n
              (subst (λ z. ltb_ℤ (pos limit -ℤ z) (pos n) ≡ false) used enough) in
          rw enough (used_0, omega arith, (other, used, room))
    ]
budget_act-Accounts limit max_body r (swap_bytes n used) other w h le fits (u, e, room) =
    elim (Bool-cases (eqb_ℤ r.in_flight used)) [
      | inl same ↦
          let now : r.in_flight ≡ used = eqb_ℤ_same r.in_flight used same in
          let all : other ≡ u = ground (arith, h, e, now) in
          let sum : used +ℤ pos n ≡ pos (other + n + 0) =
            ap (λ z. z +ℤ pos n) e ∙ pos-add u n ∙ ap pos (omega (arith, all)) in
          rw same (sum, omega (arith, all, room, le), tt)
      | inr moved ↦ rw moved (h ∙ ap pos (omega arith), omega arith, tt)
    ]
budget_act-Accounts limit max_body r (undo_conn n) other w h le fits k =
    (h ∙ ap pos (omega arith), omega arith, tt)
budget_act-Accounts limit max_body r (reserved kept) other w h le fits k =
    (h ∙ ap pos (omega arith), omega arith, tt)
budget_act-Accounts limit max_body r (give_conn n) other w h le fits k =
    (h ∙ ap pos (omega arith), omega arith, tt)
budget_act-Accounts limit max_body r (give_bytes n) other w h le fits k =
    let rest : r.in_flight -ℤ pos n ≡ pos other =
      ap (λ z. z -ℤ pos n) h ∙ pos-sub (other + n) n (omega arith) ∙ ap pos (omega arith) in
    rw rest (ground (arith, fits))
budget_act-Accounts limit max_body r (regain_bytes n) other w h le fits k = absurd (omega arith)
budget_act-Accounts limit max_body r released other w h le fits k =
    (h ∙ ap pos (omega arith), omega arith, tt)
