-- ===== src/Hpack/Table.antt =====
-- core/hpack.go: the decoder's dynamic table, a ring of entries with the newest first. The decoder
-- keeps the entries in an array inside it, and from the first growth on in a slice: `cells` and
-- `capacity` are those of the one in use.
pub mod Ring
pub mod View
pub mod Refine
pub mod Grow
pub mod Add
pub mod Entries
use alos_http.Prelude.{
  ℕ, zero, suc, ◌+◌, ◌-◌, ◌*◌, ◌/◌, ◌%◌, max, ltb, leb, ◌==◌, Bool, true, false, ◌&&◌, ◌||◌, List,
  [], ◌∷◌, length, Option, none, some, if◌then◌else◌, u64_mod,
}

abbrev pub entry_overhead : ℕ
entry_overhead = 32

pub record Entry : Type 0 where
  pub name : List ℕ
  pub value : List ℕ
  pub size : ℕ

abbrev pub empty_entry : Entry
empty_entry = record { name = []; value = []; size = 0 }

pub record Table : Type 0 where
  pub cells : ℕ → Entry
  pub capacity : ℕ
  pub head : ℕ
  pub len : ℕ
  pub size : ℕ
  pub max_size : ℕ
  pub name_max : ℕ
  pub ref_bytes : ℕ
  pub table_gen : ℕ
  pub memo_valid : Bool

abbrev pub new_table : ℕ → Table
new_table limit = record {
  cells = λ i. empty_entry;
  capacity = 128;
  head = 0;
  len = 0;
  size = 0;
  max_size = limit;
  name_max = 0;
  ref_bytes = 0;
  table_gen = 0;
  memo_valid = false;
}

unfoldable pub dyn_get : Table → ℕ → Entry
dyn_get t i = t.cells ((t.head + i) % t.capacity)

-- `*d.dynGet(i) = e`.
unfoldable pub dyn_set : Table → ℕ → Entry → Table
dyn_set t i e = record t { cells = λ j. if j == (t.head + i) % t.capacity then e else t.cells j }

-- A ring of another capacity with the same entries, from the first cell on.
unfoldable pub moved_to : Table → ℕ → Table
moved_to t capacity = record t {
  cells = λ j. if ltb j t.len then dyn_get t j else empty_entry;
  capacity = capacity;
  head = 0;
}

unfoldable pub grow_dyn_ring : Table → Table
grow_dyn_ring t =
    let max_entries = t.max_size / 32 in
    let doubled = t.capacity * 2 in
    if leb max_entries t.capacity
    then t
    else moved_to t
        (if ltb doubled t.capacity || ltb max_entries doubled then max_entries else doubled)

unfoldable pub drop_tail : Table → Table
drop_tail t = record (dyn_set t (t.len - 1) empty_entry) {
  size = t.size - (dyn_get t (t.len - 1)).size;
  len = t.len - 1;
}

-- The loops that make room for `extra` bytes; every round takes an entry away.
unfoldable pub evict : ℕ → ℕ → Table → Table
evict extra zero t = t
evict extra (suc fuel) t =
    let later = evict extra fuel (drop_tail t) in
    if ltb t.max_size (t.size + extra) && ltb 0 t.len then later else t

unfoldable pub put_front : Table → Entry → Table
put_front t e =
    let moved = record t { head = (t.head + t.capacity - 1) % t.capacity } in
    record (dyn_set moved 0 e) { len = t.len + 1; size = t.size + e.size }

unfoldable pub add_fitting : Table → Entry → Table
add_fitting t e =
    let grown = if leb e.size t.max_size && t.len == t.capacity then grow_dyn_ring t else t in
    if leb e.size t.max_size && ltb grown.len grown.capacity then put_front grown e else grown

unfoldable pub add_entry : Table → List ℕ → List ℕ → Table
add_entry t name value =
    let noted = record t {
      table_gen = (t.table_gen + 1) % u64_mod;
      memo_valid = false;
      name_max = max t.name_max (length name);
    } in
    let size = entry_overhead + length name + length value in
    add_fitting (evict size noted.len noted) (record { name = name; value = value; size = size })

unfoldable pub set_max_size : Table → ℕ → Table
set_max_size t max_size =
    evict 0 t.len (record t {
      table_gen = (t.table_gen + 1) % u64_mod;
      memo_valid = false;
      max_size = max_size;
    })
