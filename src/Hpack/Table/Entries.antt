-- ===== src/Hpack/Table/Entries.antt =====
-- core/hpack.go: an entry added and a new size limit, as RFC 7541, section 4, describes them on a
-- list of entries.
use alos_http.Prelude.{
  ℕ, ◌+◌, ◌-◌, ◌%◌, ◌≡◌, refl, arith, leb, if◌then◌else◌, true, false, List, [], ◌∷◌, length, ap,
  ◌∙◌, max, u64_mod,
}
use alos_http.Hpack.Table.{Entry, Table, dyn_get, add_entry, set_max_size, evict, entry_overhead}
use alos_http.Hpack.Table.View.{entries, total, fitting, total-fitting}
use alos_http.Hpack.Table.Refine.{IsRing, evict-Evicted, room_made}
use alos_http.Hpack.Table.Add.{IsValid, room_made-add_fitting}

-- A table with its fields other than the ring's set anew.
abbrev renewed : Table → ℕ → ℕ → Table
renewed t name_max max_size = record t {
  table_gen = (t.table_gen + 1) % u64_mod;
  memo_valid = false;
  name_max = name_max;
  max_size = max_size;
}

renewed-IsRing :
    (t : Table) (name_max max_size : ℕ) → IsRing t → IsRing (renewed t name_max max_size)
unfolding entries dyn_get
renewed-IsRing t name_max max_size r = record {
  placed = r.placed;
  few = r.few;
  counted = r.counted;
  large = r.large;
}

room_made_zero : (max_size : ℕ) (es : List Entry) → room_made 0 max_size es ≡ fitting max_size es
room_made_zero max_size es =
    let whole : max_size - 0 ≡ max_size = omega arith in
    let fits : leb 0 max_size ≡ true = ground arith in rw (fits, whole) refl

-- In a valid table, a new entry comes before the entries that fit into what it leaves of the
-- size limit, newest first; an entry that is larger than the limit empties the table. Either
-- way the table is valid: the ring holds its entries, their sizes add up to the table's, and that
-- is within the limit.
pub add_entry_entries :
    (t : Table) (name value : List ℕ)
    → IsValid t
    → let size = entry_overhead + length name + length value in
      (entries (add_entry t name value) ≡ (
        if leb size t.max_size
        then record { name = name; value = value; size = size }
          ∷ fitting (t.max_size - size) (entries t)
        else []))
      × IsValid (add_entry t name value)
unfolding add_entry entries dyn_get
add_entry_entries t name value v =
    let size = entry_overhead + length name + length value in
    let noted = renewed t (max t.name_max (length name)) t.max_size in
    let e : Entry = record { name = name; value = value; size = size } in
    room_made-add_fitting noted (evict size t.len noted) e (omega arith) (
      evict-Evicted size t.len noted
        (renewed-IsRing t (max t.name_max (length name)) t.max_size v.ring) (omega arith))

-- A new limit leaves a valid table with the newest entries that fit into it.
pub set_max_size_entries :
    (t : Table) (max_size : ℕ)
    → IsValid t
    → (entries (set_max_size t max_size) ≡ fitting max_size (entries t))
      × IsValid (set_max_size t max_size)
unfolding set_max_size entries dyn_get
set_max_size_entries t max_size v =
    let noted = renewed t t.name_max max_size in
    let (seen, ring, limit, cap) =
      evict-Evicted 0 t.len noted (renewed-IsRing t t.name_max max_size v.ring) (omega arith) in
    let left = seen ∙ room_made_zero max_size (entries t) in
    (
      left,
      record {
        ring = ring;
        bounded =
            omega (arith, ring.counted, ap total left, total-fitting max_size (entries t), limit);
      },
    )
