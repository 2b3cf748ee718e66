-- ===== src/Quic/Ooo/Found.antt =====
-- core/quic_ooo_list.go: `firstEndingAfter` searches the chunks and then one chunk.
use alos_http.Prelude.{
  ℕ, ◌-◌, ◌<◌, ◌≤◌, ◌==◌, ◌≡◌, refl, ltb, Bool, true, false, List, [], length, drop, none, arith,
  ap, subst, ◌∙◌, sym, Bool-cases, inl, inr,
}
use alos_http.Quic.Stream.{Segment}
use alos_http.Quic.Stream.Segments.{first_ending_after}
use alos_http.Quic.Stream.Segments.Order.{Ordered}
use alos_http.Quic.Ooo.{
  OooPos, OooList, chunk_at, last_segment, ends_after, chunk_ends_after, segment_ends_after,
  first_ending_pos, end_pos, segment_before, sort_search,
}
use alos_http.Quic.Ooo.Flat.{flat, index_of, IsList}
use alos_http.Quic.Ooo.Insert.{IsPos}
use alos_http.Quic.Ooo.Walk.{chunk_at_none}
use alos_http.Quic.Ooo.Search.{
  IsLeast, Rises, sort_search-IsLeast, before_index, first_ending_after-at, ends_after-Rises,
  last_segment-at,
}
use alos_http.Quic.Ooo.Rising.{
  chunk_at-IsChunk, in_front-within, in_front-length, flat_test, segment_test-flat,
  segment_test-Rises, chunk_test-Rises,
}
use alos_http.Quic.Ooo.Before.{segment_before-flat, IsPos-within, none_before}

-- A position that can be inserted at, whose segment ends later, and the one before it does not.
record IsFound (off : ℕ) (l : OooList) (p : OooPos) : Type 0 where
  place : IsPos l p
  ahead : ends_after off (segment_before l p) ≡ false
  here : index_of l p < length (flat l.chunks) → flat_test off l.chunks (index_of l p) ≡ true

-- A test that holds at the last index is found to hold somewhere.
least-below : (f : ℕ → Bool) (n r : ℕ) → IsLeast f n r → 0 < n → f (n - 1) ≡ true → r < n
least-below f n r t full e = elim (Bool-cases (ltb r n)) [
  | inl lt ↦ ground (arith, lt)
  | inr ge ↦ absurd (ground (arith, t.fails (n - 1) (ground (arith, ge)), e))
]

chunk_ends_after-within :
    (off c : ℕ) (cs : List (List Segment)) → chunk_ends_after off cs c ≡ true → c < length cs
unfolding last_segment
chunk_ends_after-within off c cs e = elim (Bool-cases (ltb c (length cs))) [
  | inl lt ↦ ground (arith, lt)
  | inr ge ↦
      let gone = chunk_at_none c cs (ground (arith, ge)) in
      let e' : ends_after off (last_segment []) ≡ true =
        subst (λ ch. ends_after off (last_segment ch) ≡ true) gone e in
      absurd (ground (arith, e'))
]

-- The end, where the last chunk does not end later.
end_pos-IsFound :
    (off : ℕ) (l : OooList)
    → chunk_ends_after off l.chunks (length l.chunks - 1) ≡ false
    → IsFound off l (end_pos l)
unfolding end_pos segment_before
end_pos-IsFound off l e = record {
  place = inr (refl, refl);
  ahead = elim (Bool-cases (length l.chunks == 0)) [ inl z ↦ rw z refl | inr nz ↦ rw nz e ];
  here = λ lt. absurd (omega (arith, in_front-length l.chunks, lt));
}

empty-chunks :
    (off : ℕ) (l : OooList)
    → IsList l
    → l.count ≡ 0
    → chunk_ends_after off l.chunks (length l.chunks - 1) ≡ false
empty-chunks off l v z = elim (Bool-cases (chunk_ends_after off l.chunks (length l.chunks - 1))) [
  | inr e ↦ e
  | inl e ↦
      let lt = chunk_ends_after-within off (length l.chunks - 1) l.chunks e in
      let full = (chunk_at-IsChunk (length l.chunks - 1) l.chunks v.bounded lt).0 in
      absurd (omega (arith, in_front-within (length l.chunks - 1) l.chunks, full, z, v.counted))
]

-- The two searches, where the last chunk ends later.
searched-IsFound :
    (off c i : ℕ) (l : OooList)
    → IsLeast (chunk_ends_after off l.chunks) (length l.chunks) c
    → IsLeast (segment_ends_after off (chunk_at c l.chunks)) (length (chunk_at c l.chunks)) i
    → c < length l.chunks
    → i < length (chunk_at c l.chunks)
    → IsFound off l (record { chunk = c; idx = i })
unfolding segment_before
searched-IsFound off c i l s t lt lt' = record {
  place = inl (lt, omega arith);
  ahead = elim (Bool-cases (ltb 0 i)) [
    | inl inside ↦ rw inside (t.fails (i - 1) (ground (arith, inside)))
    | inr first ↦ elim (Bool-cases (c == 0)) [
      | inl z ↦ rw (first, z) refl
      | inr nz ↦ rw (first, nz) (s.fails (c - 1) (ground (arith, nz)))
    ]
  ];
  here = λ _. sym (segment_test-flat off c i l.chunks lt') ∙ t.holds i (omega arith) lt';
}

-- The search in the first chunk whose last segment ends later.
chunk-IsFound :
    (off c : ℕ) (l : OooList)
    → IsList l
    → Rises (flat_test off l.chunks) (length (flat l.chunks))
    → IsLeast (chunk_ends_after off l.chunks) (length l.chunks) c
    → c < length l.chunks
    → let ch = chunk_at c l.chunks in
      let i = sort_search (segment_ends_after off ch) (length ch) 0 (length ch) in
      IsFound off l (record { chunk = c; idx = i })
chunk-IsFound off c l v up s lt =
    let ch = chunk_at c l.chunks in
    let n = length ch in
    let full : 0 < n = (chunk_at-IsChunk c l.chunks v.bounded lt).0 in
    let t =
      sort_search-IsLeast (segment_ends_after off ch) n n 0 n (segment_test-Rises off c l.chunks up)
        (omega arith) (omega arith) (omega arith) (λ x lt. absurd (omega arith))
        (λ x ge lt. absurd (omega arith)) in
    let last : segment_ends_after off ch (n - 1) ≡ true =
      sym (ap (ends_after off) (last_segment-at ch full)) ∙ s.holds c (omega arith) lt in
    searched-IsFound off c _ l s t lt (least-below _ n _ t full last)

first_ending_pos-IsFound :
    (off : ℕ) (l : OooList)
    → IsList l
    → Rises (flat_test off l.chunks) (length (flat l.chunks))
    → IsFound off l (first_ending_pos l off)
unfolding first_ending_pos
first_ending_pos-IsFound off l v up =
    let n = length l.chunks in
    elim (Bool-cases (l.count == 0)) [
      | inl z ↦ rw z (end_pos-IsFound off l (empty-chunks off l v (ground (arith, z))))
      | inr nz ↦ elim (Bool-cases (chunk_ends_after off l.chunks (n - 1))) [
        | inr e ↦ rw (nz, e) (end_pos-IsFound off l e)
        | inl e ↦
            let some_chunk = chunk_ends_after-within off (n - 1) l.chunks e in
            let s =
              sort_search-IsLeast (chunk_ends_after off l.chunks) n n 0 n
                (chunk_test-Rises off l.chunks v.bounded up) (omega arith) (omega arith)
                (omega arith) (λ x lt. absurd (omega arith)) (λ x ge lt. absurd (omega arith)) in
            rw (nz, e) (chunk-IsFound off _ l v up s (least-below _ n _ s (omega arith) e))
      ]
    ]

IsFound-first :
    (off : ℕ) (l : OooList) (p : OooPos)
    → IsList l
    → Rises (flat_test off l.chunks) (length (flat l.chunks))
    → IsFound off l p
    → let place = first_ending_after off none (flat l.chunks) in
      (place.after ≡ drop (index_of l p) (flat l.chunks)) × (place.prev ≡ segment_before l p)
unfolding before_index
IsFound-first off l p v up h =
    let (le, within) = IsPos-within l p h.place in
    let before = segment_before-flat l p v.bounded le within in
    let bound : index_of l p ≤ length (flat l.chunks) =
      omega (arith, in_front-within p.chunk l.chunks, within) in
    let not_ahead : ends_after off (before_index none (flat l.chunks) (index_of l p)) ≡ false =
      subst (λ s. ends_after off s ≡ false) before h.ahead in
    let low : (x : ℕ) → x < index_of l p → flat_test off l.chunks x ≡ false =
      none_before off (flat l.chunks) (index_of l p) up bound not_ahead in
    let found = first_ending_after-at off (index_of l p) none (flat l.chunks) bound low h.here in
    (found.0, found.1 ∙ sym before)

-- On valid chunks whose segments are in order, the binary searches find the place that a search
-- from the front finds: the segments from the position on are those from that place on, and the
-- segment before the position is the one before that place. A segment can be inserted at the
-- position.
pub first_ending_pos_finds :
    (l : OooList) (off lo hi : ℕ)
    → IsList l
    → Ordered lo hi (flat l.chunks)
    → let p = first_ending_pos l off in
      let place = first_ending_after off none (flat l.chunks) in
      IsPos l p
      × (place.after ≡ drop (index_of l p) (flat l.chunks))
      × (place.prev ≡ segment_before l p)
first_ending_pos_finds l off lo hi v o =
    let up = ends_after-Rises off lo hi (flat l.chunks) o in
    let h = first_ending_pos-IsFound off l v up in
    let found = IsFound-first off l (first_ending_pos l off) v up h in (h.place, found.0, found.1)
