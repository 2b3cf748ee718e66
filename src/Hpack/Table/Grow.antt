-- ===== src/Hpack/Table/Grow.antt =====
-- core/hpack.go: a larger ring holds the same entries, and a new entry comes first.
use alos_http.Prelude.{
  ℕ, suc, ◌+◌, ◌-◌, ◌/◌, ◌%◌, ◌≤◌, ◌<◌, ◌≡◌, refl, arith, ltb, leb, ◌==◌, true, false, ◌∷◌,
  Bool-cases, inl, inr, ap, subst, ◌∙◌, sym,
}
use native.Mathlib.Nat.{mod-eq_of_lt, mod-lt}
use alos_http.Hpack.Table.{Entry, Table, dyn_get, dyn_set, moved_to, grow_dyn_ring, put_front}
use alos_http.Hpack.Table.Ring.{wrap_injective, wrap_before}
use alos_http.Hpack.Table.View.{tabulate, entries, total, total-cons, tabulate-ext}
use alos_http.Hpack.Table.Refine.{AllLarge, IsRing}

dyn_get-moved_to :
    (t : Table) (capacity i : ℕ)
    → t.len ≤ capacity
    → i < t.len
    → dyn_get (moved_to t capacity) i ≡ dyn_get t i
unfolding dyn_get moved_to
dyn_get-moved_to t capacity i f h =
    let small : 0 + i < capacity = omega arith in
    let inside : ltb i t.len ≡ true = ground arith in
    let start : 0 + i ≡ i = omega arith in
    let here : (0 + i) % capacity ≡ i = mod-eq_of_lt small ∙ start in rw (here, inside) refl

entries-moved_to :
    (t : Table) (capacity : ℕ) → t.len ≤ capacity → entries (moved_to t capacity) ≡ entries t
unfolding entries moved_to
entries-moved_to t capacity f =
    tabulate-ext t.len (dyn_get (moved_to t capacity)) (dyn_get t)
      (λ i l. dyn_get-moved_to t capacity i f l)

moved_to-IsRing :
    (t : Table) (capacity : ℕ)
    → IsRing t
    → t.len ≤ capacity
    → 0 < capacity
    → IsRing (moved_to t capacity)
unfolding moved_to
moved_to-IsRing t capacity r f pos =
    let same = entries-moved_to t capacity f in
    record {
      placed = pos;
      few = f;
      counted = r.counted ∙ sym (ap total same);
      large = subst AllLarge (sym same) r.large;
    }

-- The same entries in a ring that is larger, if more entries are allowed than it has room for.
abbrev pub Grown : Table → Table → Type 0
Grown t t' =
    (entries t' ≡ entries t)
    × IsRing t'
    × (t'.len ≡ t.len)
    × (t'.size ≡ t.size)
    × (t'.max_size ≡ t.max_size)
    × (t.capacity < t.max_size / 32 → t.capacity < t'.capacity)

moved_to-Grown :
    (t : Table) (capacity : ℕ) → IsRing t → t.capacity < capacity → Grown t (moved_to t capacity)
unfolding moved_to
moved_to-Grown t capacity r h = (
  entries-moved_to t capacity (omega (arith, r.few)),
  moved_to-IsRing t capacity r (omega (arith, r.few)) (omega arith),
  refl,
  refl,
  refl,
  λ l. h,
)

pub grow_dyn_ring-Grown : (t : Table) → IsRing t → Grown t (grow_dyn_ring t)
unfolding grow_dyn_ring
grow_dyn_ring-Grown t r = elim (Bool-cases (leb (t.max_size / 32) t.capacity)) [
  | inl full ↦ rw (full, grow_dyn_ring) (refl, r, refl, refl, refl, λ l. ground arith)
  | inr more ↦ rw (more, grow_dyn_ring) (moved_to-Grown t _ r (ground (arith, r.placed)))
]

-- A new entry before the head leaves the others where they are.
dyn_get-put_front :
    (t : Table) (e : Entry) (i : ℕ)
    → t.head < t.capacity
    → t.len < t.capacity
    → i < t.len
    → dyn_get (put_front t e) (suc i) ≡ dyn_get t i
unfolding dyn_get dyn_set put_front
dyn_get-put_front t e i p f h =
    let c = t.capacity in
    let front = (t.head + c - 1) % c in
    let before : front < c = mod-lt (t.head + c - 1) (omega arith) in
    let apart = wrap_injective c front (suc i) 0 before (omega arith) (omega arith) (omega arith) in
    let other : ((front + suc i) % c == (front + 0) % c) ≡ false = ground (arith, apart) in
    rw other (ap t.cells (wrap_before c t.head i p))

dyn_get-put_front_new : (t : Table) (e : Entry) → dyn_get (put_front t e) 0 ≡ e
unfolding dyn_get dyn_set put_front
dyn_get-put_front_new t e =
    let at = ((t.head + t.capacity - 1) % t.capacity + 0) % t.capacity in
    let here : (at == at) ≡ true = ground arith in rw here refl

pub entries-put_front :
    (t : Table) (e : Entry)
    → t.head < t.capacity
    → t.len < t.capacity
    → entries (put_front t e) ≡ e ∷ entries t
unfolding entries put_front dyn_set
entries-put_front t e p f =
    let count : t.len + 1 ≡ suc t.len = omega arith in
    ap (tabulate (dyn_get (put_front t e))) count
    ∙ unfold tabulate in
      rw (dyn_get-put_front_new t e) (
        ap (◌∷◌ e) (
          tabulate-ext t.len (λ i. dyn_get (put_front t e) (suc i)) (dyn_get t)
            (λ i l. dyn_get-put_front t e i p f l)))

pub put_front-IsRing :
    (t : Table) (e : Entry) → IsRing t → t.len < t.capacity → 32 ≤ e.size → IsRing (put_front t e)
unfolding put_front dyn_set
put_front-IsRing t e r f h =
    let whole = entries-put_front t e r.placed f in
    record {
      placed = mod-lt (t.head + t.capacity - 1) (omega arith);
      few = omega arith;
      counted = omega (arith, r.counted, ap total whole, total-cons e (entries t));
      large = subst AllLarge (sym whole) (h, r.large);
    }
