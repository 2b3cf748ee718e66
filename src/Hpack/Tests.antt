-- ===== src/Hpack/Tests.antt =====
-- Runs of core/hpack.go at concrete inputs.
use alos_http.Prelude.{
  ◌++◌, bit_and, bit_or, same_below, agree_below, true, u64_mod, ◌-◌, ◌≤◌, ◌<◌, ◌≡◌, refl, [], ◌∷◌,
  length, arith, leb, if◌then◌else◌,
}
use alos_http.Hpack.Integer.{encode_int, hpack_decode_int}
use alos_http.Hpack.Integer.RoundTrip.{IsPrefix, hpack_decode_int-encode_int}
use alos_http.Hpack.Integer.Bounds.{hpack_decode_int_takes}
use alos_http.Hpack.Table.{Table, Entry, new_table, entry_overhead, add_entry, set_max_size}
use alos_http.Hpack.Table.View.{entries, fitting}
use alos_http.Hpack.Table.Add.{IsValid}
use alos_http.Hpack.Table.Entries.{add_entry_entries, set_max_size_entries}

new_table-IsValid : IsValid (new_table 4096)
unfolding alos_http.Hpack.Table.View.entries alos_http.Hpack.Table.View.tabulate
    alos_http.Hpack.Table.View.total
new_table-IsValid = record {
  ring = record { placed = omega arith; few = omega arith; counted = refl; large = tt };
  bounded = omega arith;
}

-- A table with one entry.
abbrev used_table : Table
used_table = add_entry (new_table 4096) (b'a' ∷ []) (b'b' ∷ [])

used_table-IsValid : IsValid used_table
used_table-IsValid =
    (add_entry_entries (new_table 4096) (b'a' ∷ []) (b'b' ∷ []) new_table-IsValid).1

add_entry_entries_example :
    (entries (add_entry used_table (b'c' ∷ []) []) ≡ (
      if leb 33 used_table.max_size
      then record { name = b'c' ∷ []; value = []; size = 33 }
        ∷ fitting (used_table.max_size - 33) (entries used_table)
      else []))
    × IsValid (add_entry used_table (b'c' ∷ []) [])
add_entry_entries_example = add_entry_entries used_table (b'c' ∷ []) [] used_table-IsValid

set_max_size_entries_example :
    (entries (set_max_size used_table 100) ≡ fitting 100 (entries used_table))
    × IsValid (set_max_size used_table 100)
set_max_size_entries_example = set_max_size_entries used_table 100 used_table-IsValid

prefix_80_table : same_below (λ x. bit_and (bit_or 0x80 x) 127) (λ x. x) 128 ≡ true
unfolding same_below
prefix_80_table = refl

prefix_80-IsPrefix : IsPrefix 0x80 7
prefix_80-IsPrefix x h =
    agree_below 128 (λ x. bit_and (bit_or 0x80 x) 127) (λ x. x) prefix_80_table x (omega arith)

hpack_decode_int-encode_int_example :
    hpack_decode_int (encode_int [] 0x80 7 1337 ++ (0xff ∷ [])) 7
    ≡ (1337, length (encode_int [] 0x80 7 1337))
hpack_decode_int-encode_int_example =
    hpack_decode_int-encode_int 0x80 7 1337 (0xff ∷ []) (omega arith) (omega arith)
      prefix_80-IsPrefix (omega arith)

reads_1337 : hpack_decode_int (0x1f ∷ 0x9a ∷ 0x0a ∷ []) 5 ≡ (1337, 3)
unfolding alos_http.Hpack.Integer.hpack_decode_int alos_http.Hpack.Integer.decode_more
reads_1337 = refl

hpack_decode_int_takes_example :
    (3 ≤ 3) × (1337 < u64_mod) × (hpack_decode_int (0x1f ∷ 0x9a ∷ 0x0a ∷ 0x00 ∷ []) 5 ≡ (1337, 3))
hpack_decode_int_takes_example =
    hpack_decode_int_takes (0x1f ∷ 0x9a ∷ 0x0a ∷ []) (0x00 ∷ []) 5 1337 3 reads_1337 (omega arith)
