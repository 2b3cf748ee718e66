-- ===== src/Hpack/Table/Add.antt =====
-- core/hpack.go: what the operations of the dynamic table do to the list of its entries.
use alos_http.Prelude.{
  ◌+◌, ◌-◌, ◌*◌, ◌/◌, ◌≤◌, ◌<◌, ◌≡◌, refl, arith, ltb, leb, ◌==◌, if◌then◌else◌, true, false, List,
  [], ◌∷◌, length, Bool-cases, inl, inr, ap, subst, ◌∙◌, sym,
}
use alos_http.Hpack.Table.{
  Entry, Table, dyn_get, grow_dyn_ring, put_front, add_fitting, add_entry, set_max_size, evict,
  entry_overhead,
}
use alos_http.Hpack.Table.View.{entries, total, fitting, total-fitting, length-entries}
use alos_http.Hpack.Table.Refine.{AllLarge, IsRing, Evicted}
use alos_http.Hpack.Table.Grow.{grow_dyn_ring-Grown, entries-put_front, put_front-IsRing}

-- The ring's invariant, and no more bytes than the table may hold.
pub record IsValid (t : Table) : Type 0 where
  pub ring : IsRing t
  pub bounded : t.size ≤ t.max_size

total-AllLarge : (es : List Entry) → AllLarge es → 32 * length es ≤ total es
unfolding total
total-AllLarge [] h = omega arith
total-AllLarge (e ∷ es) h = omega (arith, total-AllLarge es h.1, h.0)

abbrev Newest : Table → Entry → Table → Type 0
Newest t e t' = (entries t' ≡ e ∷ entries t) × IsValid t'

put_front_fits :
    (t : Table) (e : Entry)
    → IsRing t
    → t.len < t.capacity
    → 32 ≤ e.size
    → t.size + e.size ≤ t.max_size
    → Newest t e (put_front t e)
unfolding put_front
put_front_fits t e r f h room = (
  entries-put_front t e r.placed f,
  record {
    ring = put_front-IsRing t e r f h;
    bounded = unfold alos_http.Hpack.Table.dyn_set in omega arith;
  },
)

add_fitting_fits :
    (t : Table) (e : Entry)
    → IsRing t
    → 32 ≤ e.size
    → t.size + e.size ≤ t.max_size
    → Newest t e (add_fitting t e)
unfolding add_fitting
add_fitting_fits t e r h room =
    let fits : leb e.size t.max_size ≡ true = ground arith in
    elim (Bool-cases (t.len == t.capacity)) [
      | inl full ↦
          let (same, ring, len, size, limit, larger) = grow_dyn_ring-Grown t r in
          let heavy = total-AllLarge (entries t) r.large in
          let filled : t.len ≡ t.capacity = ground arith in
          let more : t.capacity < t.max_size / 32 =
            omega (arith, heavy, r.counted, length-entries t) in
          let space : (grow_dyn_ring t).len < (grow_dyn_ring t).capacity =
            omega (arith, larger more, len) in
          let less : ltb (grow_dyn_ring t).len (grow_dyn_ring t).capacity ≡ true = ground arith in
          let (front, valid) =
            put_front_fits (grow_dyn_ring t) e ring space h (omega (arith, size, limit)) in
          rw (fits, full, less, add_fitting) (front ∙ ap (◌∷◌ e) same, valid)
      | inr free ↦
          let less : ltb t.len t.capacity ≡ true = ground (arith, r.few) in
          rw (fits, free, less, add_fitting) (put_front_fits t e r (ground arith) h room)
    ]

add_fitting_over : (t : Table) (e : Entry) → t.max_size < e.size → add_fitting t e ≡ t
unfolding add_fitting
add_fitting_over t e h =
    let over : leb e.size t.max_size ≡ false = ground arith in rw (over, add_fitting) refl

-- An entry put into a table that has made room for it.
pub room_made-add_fitting :
    (t evicted : Table) (e : Entry)
    → 32 ≤ e.size
    → Evicted e.size t evicted
    → (entries (add_fitting evicted e)
        ≡ (if leb e.size t.max_size then e ∷ fitting (t.max_size - e.size) (entries t) else []))
      × IsValid (add_fitting evicted e)
room_made-add_fitting t evicted e h (seen, ring, limit, cap) =
    elim (Bool-cases (leb e.size t.max_size)) [
      | inl fits ↦
          let left : entries evicted ≡ fitting (t.max_size - e.size) (entries t) =
            rw fits at seen in
          let small = total-fitting (t.max_size - e.size) (entries t) in
          let le : e.size ≤ t.max_size = ground arith in
          let (front, valid) =
            add_fitting_fits evicted e ring h
              (omega (arith, ring.counted, ap total left, small, limit, le)) in
          rw fits (front ∙ ap (◌∷◌ e) left, valid)
      | inr over ↦
          let left : entries evicted ≡ [] = rw over at seen in
          let none : total [] ≡ 0 = unfold total in refl in
          let lt : t.max_size < e.size = ground arith in
          let kept = add_fitting_over evicted e (omega (arith, limit, lt)) in
          rw over (
            ap entries kept ∙ left,
            subst IsValid (sym kept) (record {
              ring = ring;
              bounded = omega (arith, ring.counted, ap total left, none);
            }),
          )
    ]
