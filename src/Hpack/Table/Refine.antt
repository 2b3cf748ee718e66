-- ===== src/Hpack/Table/Refine.antt =====
-- core/hpack.go: the ring and its loops against a list of entries, newest first.
use alos_http.Prelude.{
  ℕ, zero, suc, ◌+◌, ◌-◌, ◌%◌, ◌≤◌, ◌<◌, ◌≡◌, refl, arith, ltb, leb, ◌==◌, if◌then◌else◌, true,
  false, ◌&&◌, List, [], ◌∷◌, ◌++◌, Bool-cases, inl, inr, ap, subst, ◌∙◌, sym,
}
use alos_http.Hpack.Table.{Entry, Table, dyn_get, dyn_set, drop_tail, evict}
use alos_http.Hpack.Table.Ring.{wrap_injective}
use alos_http.Hpack.Table.View.{
  tabulate, entries, total, fitting, tabulate-ext, tabulate-suc, total-snoc, fitting_all,
  fitting-append,
}

-- Every entry counts its overhead of 32 bytes.
abbrev pub AllLarge : List Entry → Type 0
AllLarge [] = Unit
AllLarge (e ∷ es) = (32 ≤ e.size) × AllLarge es

pub record IsRing (t : Table) : Type 0 where
  pub placed : t.head < t.capacity
  pub few : t.len ≤ t.capacity
  pub counted : t.size ≡ total (entries t)
  pub large : AllLarge (entries t)

AllLarge-prefix : (xs ys : List Entry) → AllLarge (xs ++ ys) → AllLarge xs
AllLarge-prefix [] ys h = tt
AllLarge-prefix (x ∷ xs) ys h = (h.0, AllLarge-prefix xs ys h.1)

dyn_get-drop_tail :
    (t : Table) (i : ℕ)
    → t.head < t.capacity
    → t.len ≤ t.capacity
    → i < t.len - 1
    → dyn_get (drop_tail t) i ≡ dyn_get t i
unfolding dyn_get drop_tail dyn_set
dyn_get-drop_tail t i p f h =
    let apart =
      wrap_injective t.capacity t.head i (t.len - 1) p (omega arith) (omega arith) (omega arith) in
    let other : ((t.head + i) % t.capacity == (t.head + (t.len - 1)) % t.capacity) ≡ false =
      ground (arith, apart) in
    rw other refl

entries-drop_tail :
    (t : Table)
    → t.head < t.capacity
    → t.len ≤ t.capacity
    → 0 < t.len
    → entries t ≡ entries (drop_tail t) ++ (dyn_get t (t.len - 1) ∷ [])
unfolding entries drop_tail
entries-drop_tail t p f h =
    let e : t.len ≡ suc (t.len - 1) = omega arith in
    ap (tabulate (dyn_get t)) e
    ∙ tabulate-suc (t.len - 1) (dyn_get t)
    ∙ ap (λ l. l ++ (dyn_get t (t.len - 1) ∷ []))
        (tabulate-ext (t.len - 1) (dyn_get t) (dyn_get (drop_tail t))
          (λ i l. sym (dyn_get-drop_tail t i p f l)))

drop_tail-IsRing : (t : Table) → IsRing t → 0 < t.len → IsRing (drop_tail t)
unfolding drop_tail dyn_set
drop_tail-IsRing t r h =
    let whole = entries-drop_tail t r.placed r.few h in
    let sum =
      r.counted ∙ ap total whole ∙ total-snoc (entries (drop_tail t)) (dyn_get t (t.len - 1)) in
    record {
      placed = r.placed;
      few = omega (arith, r.few);
      counted = omega (arith, sum);
      large =
          AllLarge-prefix (entries (drop_tail t)) (dyn_get t (t.len - 1) ∷ [])
            (subst AllLarge whole r.large);
    }

-- What an eviction leaves of a list.
abbrev pub room_made : ℕ → ℕ → List Entry → List Entry
room_made extra max_size es = if leb extra max_size then fitting (max_size - extra) es else []

abbrev pub Evicted : ℕ → Table → Table → Type 0
Evicted extra t t' =
    (entries t' ≡ room_made extra t.max_size (entries t))
    × IsRing t'
    × (t'.max_size ≡ t.max_size)
    × (t'.capacity ≡ t.capacity)

entries_none : (t : Table) → t.len ≡ 0 → entries t ≡ []
unfolding entries tabulate
entries_none t h = ap (tabulate (dyn_get t)) h

room_made_enough :
    (extra max_size : ℕ) (es : List Entry)
    → total es + extra ≤ max_size
    → room_made extra max_size es ≡ es
room_made_enough extra max_size es h =
    let fits : leb extra max_size ≡ true = ground arith in
    rw fits (fitting_all (max_size - extra) es (omega arith))

room_made_none : (extra max_size : ℕ) → room_made extra max_size [] ≡ []
unfolding fitting
room_made_none extra max_size = ground arith

room_made-append :
    (extra max_size : ℕ) (es : List Entry) (e : Entry)
    → max_size < total es + e.size + extra
    → room_made extra max_size (es ++ (e ∷ [])) ≡ room_made extra max_size es
room_made-append extra max_size es e h = elim (Bool-cases (leb extra max_size)) [
  | inl fits ↦
      let over : max_size - extra < total es + e.size = ground arith in
      rw fits (fitting-append (max_size - extra) es e over)
  | inr over ↦ rw over refl
]

-- With enough room, or with nothing left, an eviction takes nothing.
left_alone :
    (extra : ℕ) (t : Table)
    → IsRing t
    → ltb t.max_size (t.size + extra) && ltb 0 t.len ≡ false
    → room_made extra t.max_size (entries t) ≡ entries t
left_alone extra t r done = elim (Bool-cases (ltb t.max_size (t.size + extra))) [
  | inl over ↦
      let none = entries_none t (ground arith) in
      ap (room_made extra t.max_size) none ∙ room_made_none extra t.max_size ∙ sym none
  | inr fits ↦
      let enough : t.size + extra ≤ t.max_size = ground arith in
      room_made_enough extra t.max_size (entries t) (omega (arith, r.counted))
]

pub evict-Evicted :
    (extra fuel : ℕ) (t : Table) → IsRing t → t.len ≤ fuel → Evicted extra t (evict extra fuel t)
unfolding evict drop_tail dyn_set
evict-Evicted extra zero t r h =
    let none = entries_none t (omega arith) in
    (
      none ∙ sym (ap (room_made extra t.max_size) none ∙ room_made_none extra t.max_size),
      r,
      refl,
      refl,
    )
evict-Evicted extra (suc fuel) t r h =
    elim (Bool-cases (ltb t.max_size (t.size + extra) && ltb 0 t.len)) [
      | inl over ↦
          let some_entry : 0 < t.len = ground arith in
          let too_large : t.max_size < t.size + extra = ground arith in
          let whole = entries-drop_tail t r.placed r.few some_entry in
          let (seen, ring, limit, cap) =
            evict-Evicted extra fuel (drop_tail t) (drop_tail-IsRing t r some_entry)
              (omega arith) in
          let oldest = dyn_get t (t.len - 1) in
          let sum = r.counted ∙ ap total whole ∙ total-snoc (entries (drop_tail t)) oldest in
          let out =
            ap (room_made extra t.max_size) whole
            ∙ room_made-append extra t.max_size (entries (drop_tail t)) oldest
                (omega (arith, sum)) in
          rw (over, evict) (seen ∙ sym out, ring, limit, cap)
      | inr done ↦ rw (done, evict) (sym (left_alone extra t r done), r, refl, refl)
    ]
