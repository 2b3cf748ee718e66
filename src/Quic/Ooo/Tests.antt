-- ===== src/Quic/Ooo/Tests.antt =====
-- The list in chunks: the theorem at a concrete list.
use alos_http.Prelude.{none, ℕ, suc, ◌≡◌, refl, [], ◌∷◌, drop, get_elem?, arith}
use alos_http.Quic.Stream.{Segment}
use alos_http.Quic.Ooo.{
  OooPos, OooList, segment_at, next_pos, ooo_insert, drop_front, first_ending_pos, segment_before,
}
use alos_http.Quic.Ooo.Flat.{flat, index_of, IsList}
use alos_http.Quic.Ooo.Insert.{IsPos, InsertedInto}
use alos_http.Quic.Stream.Segments.{first_ending_after}
use alos_http.Quic.Stream.Segments.Order.{Ordered}
use alos_http.Quic.Ooo.{sort_search, end_pos, chunk_at, last_segment}
use alos_http.Quic.Ooo.Found.{first_ending_pos_finds}
use alos_http.Quic.Ooo.Walk.{IsAt, ooo_list_refines}

abbrev one_byte : ℕ → Segment
one_byte n = record { off = n; payload = 7 ∷ [] }

-- Three segments in two chunks.
abbrev two_chunks : OooList
two_chunks = record { chunks = (one_byte 2 ∷ one_byte 4 ∷ []) ∷ (one_byte 6 ∷ []) ∷ []; count = 3 }

two_chunks-IsList : IsList two_chunks
unfolding flat
two_chunks-IsList = record {
  bounded = ((omega arith, omega arith), ((omega arith, omega arith), _));
  counted = refl;
}

two_chunks-Ordered : Ordered 0 10 (flat two_chunks.chunks)
unfolding flat Ordered
two_chunks-Ordered =
    (omega arith, omega arith, (omega arith, omega arith, (omega arith, omega arith, omega arith)))

ooo_list_refines_example :
    ((p : OooPos)
      → IsAt two_chunks p
      → (segment_at two_chunks p ≡ get_elem? (flat two_chunks.chunks) (index_of two_chunks p))
        × (index_of two_chunks (next_pos two_chunks p) ≡ suc (index_of two_chunks p)))
    × ((p : OooPos) (seg : Segment)
        → IsPos two_chunks p
        → InsertedInto two_chunks (index_of two_chunks p) seg (ooo_insert two_chunks p seg))
    × ((k : ℕ)
        → (flat (drop_front two_chunks k).chunks ≡ drop k (flat two_chunks.chunks))
          × IsList (drop_front two_chunks k))
ooo_list_refines_example = ooo_list_refines two_chunks two_chunks-IsList

-- The first segment that ends after 5 is the third, in front of the second chunk.
run_first_ending : first_ending_pos two_chunks 5 ≡ record { chunk = 1; idx = 0 }
unfolding first_ending_pos sort_search end_pos chunk_at last_segment
run_first_ending = refl

first_ending_pos_finds_example :
    let p = first_ending_pos two_chunks 5 in
    let place = first_ending_after 5 none (flat two_chunks.chunks) in
    IsPos two_chunks p
    × (place.after ≡ drop (index_of two_chunks p) (flat two_chunks.chunks))
    × (place.prev ≡ segment_before two_chunks p)
first_ending_pos_finds_example =
    first_ending_pos_finds two_chunks 5 0 10 two_chunks-IsList two_chunks-Ordered
