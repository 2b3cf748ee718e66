-- ===== src/Quic/Ooo/Insert.antt =====
-- core/quic_ooo_list.go: inserting at a position is inserting into the list at its index.
use alos_http.Prelude.{
  ℕ, zero, suc, ◌+◌, ◌-◌, ◌<◌, ◌≤◌, ◌≡◌, ◌⊎◌, refl, ◌==◌, false, List, [], ◌∷◌, ◌++◌, length, arith,
  All, length-append, ap, ◌∙◌, sym, Bool-cases, inl, inr, All-append, append-nil, subst,
}
use alos_http.Quic.Stream.{Segment}
use alos_http.Quic.Ooo.{
  OooPos, OooList, chunk_at, insert_segment, chunk_len, insert_with_room, insert_last, ooo_insert,
}
use alos_http.Quic.Ooo.Flat.{
  flat, in_front, index_of, IsChunk, IsList, flat-append, length-insert_segment, in_front_zero,
}
use alos_http.Quic.Ooo.Room.{IsInside, Inserted, insert_with_room-Inserted}

chunk_at_bound :
    (c : ℕ) (cs : List (List Segment)) → All IsChunk cs → length (chunk_at c cs) ≤ chunk_len
unfolding chunk_at
chunk_at_bound c [] all = omega arith
chunk_at_bound zero (ch ∷ cs) all = all.0.1
chunk_at_bound (suc c) (ch ∷ cs) all = chunk_at_bound c cs all.1

-- The last chunk ends where the list ends.
last_in_front :
    (cs : List (List Segment))
    → 0 < length cs
    → in_front (length cs - 1) cs + length (chunk_at (length cs - 1) cs) ≡ length (flat cs)
unfolding in_front chunk_at flat
last_in_front [] h = absurd (omega arith)
last_in_front (ch ∷ []) h = omega (arith, length-append ch [])
last_in_front (ch ∷ ds ∷ cs) h =
    let later = last_in_front (ds ∷ cs) (omega arith) in
    let e : suc (suc (length cs)) - 1 ≡ suc (length cs) = omega arith in
    let e' : suc (length cs) - 1 ≡ length cs = omega arith in
    let later' : in_front (length cs) (ds ∷ cs) + length (chunk_at (length cs) (ds ∷ cs))
        ≡ length (ds ++ flat cs) =
      rw e' at later in
    rw e (omega (arith, later', length-append ch (ds ++ flat cs)))

insert_end :
    (seg : Segment) (ss : List Segment) → insert_segment (length ss) seg ss ≡ ss ++ (seg ∷ [])
unfolding insert_segment
insert_end seg [] = refl
insert_end seg (s ∷ ss) = ap (λ l. s ∷ l) (insert_end seg ss)

in_front_all : (cs ds : List (List Segment)) → in_front (length cs) (cs ++ ds) ≡ length (flat cs)
unfolding in_front flat
in_front_all [] ds = in_front_zero ds
in_front_all (ch ∷ cs) ds = omega (arith, in_front_all cs ds, length-append ch (flat cs))

insert_last-Inserted :
    (l : OooList) (seg : Segment)
    → All IsChunk l.chunks
    → 0 < length l.chunks
    → Inserted l (length (flat l.chunks)) seg (insert_last l seg)
unfolding insert_last
insert_last-Inserted l seg all some_chunks =
    let c = length l.chunks - 1 in
    let ch = chunk_at c l.chunks in
    let one : List (List Segment) = (seg ∷ []) ∷ [] in
    let next : c + 1 ≡ length l.chunks = omega arith in
    let behind : in_front c l.chunks + length ch ≡ length (flat l.chunks) =
      last_in_front l.chunks some_chunks in
    elim (Bool-cases (length ch == chunk_len)) [
      | inl full ↦
          rw (full, next)
            (record {
              segments =
                  flat-append l.chunks one ∙ (unfold flat in sym (insert_end seg (flat l.chunks)));
              place = omega (arith, in_front_all l.chunks one);
              bounded = All-append IsChunk l.chunks one all ((omega arith, omega arith), _);
              count = refl;
            })
      | inr room ↦ rw room (
          subst
            (λ k. Inserted l k seg (insert_with_room l (record { chunk = c; idx = length ch }) seg))
            behind
            (insert_with_room-Inserted l (record { chunk = c; idx = length ch }) seg all
              (omega arith, omega arith) (chunk_at_bound c l.chunks all)))
    ]

-- A position that a segment can be inserted at: of a segment, or the end.
abbrev pub IsPos : OooList → OooPos → Type 0
IsPos l p = IsInside l p ⊎ ((p.chunk ≡ length l.chunks) × (p.idx ≡ 0))

-- An insertion that counts the segment.
abbrev pub InsertedInto : OooList → ℕ → Segment → OooList × OooPos → Type 0
InsertedInto l i seg t =
    (flat t.0.chunks ≡ insert_segment i seg (flat l.chunks)) × (index_of t.0 t.1 ≡ i) × IsList t.0

counted_insertion :
    (l : OooList) (i : ℕ) (seg : Segment) (t : OooList × OooPos)
    → IsList l
    → Inserted (record l { count = l.count + 1 }) i seg t
    → InsertedInto l i seg t
counted_insertion l i seg t v h = (
  h.segments,
  h.place,
  record {
    bounded = h.bounded;
    counted =
        h.count
        ∙ omega
            (arith, v.counted, ap length h.segments, length-insert_segment i seg (flat l.chunks));
  },
)

index_at_end :
    (l : OooList) (p : OooPos)
    → p.chunk ≡ length l.chunks
    → IsPos l p
    → index_of l p ≡ length (flat l.chunks)
index_at_end l p e (inl (lt, le)) = absurd (omega (arith, e))
index_at_end l p e (inr (c, i)) =
    let all : in_front (length l.chunks) l.chunks ≡ length (flat l.chunks) =
      sym (ap (in_front (length l.chunks)) (append-nil l.chunks)) ∙ in_front_all l.chunks [] in
    rw (c, i) (omega (arith, all))

insert_anywhere :
    (cs : List (List Segment)) (n : ℕ) (p : OooPos) (seg : Segment)
    → let l : OooList = record { chunks = cs; count = n } in
      IsList l → IsPos l p → InsertedInto l (index_of l p) seg (ooo_insert l p seg)
unfolding ooo_insert
insert_anywhere [] n p seg v (inl (lt, le)) = absurd (omega arith)
insert_anywhere [] n p seg v (inr (c, i)) =
    let none_counted : n ≡ 0 = unfold flat in v.counted in
    let counted : n + 1 ≡ 1 = omega (arith, none_counted) in
    let none_before : in_front p.chunk [] + p.idx ≡ 0 = unfold in_front in omega (arith, i) in
    rw none_before (
      unfold flat in_front insert_segment in
      (refl, refl, record { bounded = ((omega arith, omega arith), _); counted = counted }))
insert_anywhere (ch ∷ cs) n p seg v at =
    let l : OooList = record { chunks = ch ∷ cs; count = n } in
    let l' : OooList = record l { count = l.count + 1 } in
    let some_chunks : (length l.chunks == 0) ≡ false = ground arith in
    elim (Bool-cases (p.chunk == length l.chunks)) [
      | inl e ↦
          let end : index_of l p ≡ length (flat l.chunks) =
            index_at_end l p (ground (arith, e)) at in
          rw (some_chunks, e)
            (subst (λ k. InsertedInto l k seg (insert_last l' seg)) (sym end)
              (counted_insertion l (length (flat l.chunks)) seg (insert_last l' seg) v
                (insert_last-Inserted l' seg v.bounded (omega arith))))
      | inr e ↦
          let inside : IsInside l p = elim at [
            | inl h ↦ h
            | inr h ↦ absurd (let c = h.0 in ground (arith, e, c))
          ] in
          rw (some_chunks, e)
            (counted_insertion l (index_of l p) seg (insert_with_room l' p seg) v (
              insert_with_room-Inserted l' p seg v.bounded inside
                (chunk_at_bound p.chunk l.chunks v.bounded)))
    ]

-- Inserting at a position inserts into the list at the index of the position, and the position that
-- it returns has this index; every chunk keeps between 1 and 64 segments, and the count is right.
pub ooo_insert-IsList :
    (l : OooList) (p : OooPos) (seg : Segment)
    → IsList l
    → IsPos l p
    → InsertedInto l (index_of l p) seg (ooo_insert l p seg)
ooo_insert-IsList l p seg v at = insert_anywhere l.chunks l.count p seg v at
