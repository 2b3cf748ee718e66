-- ===== src/Quic/Ooo/Room.antt =====
-- core/quic_ooo_list.go: inserting into a chunk, which is split where it is full.
use alos_http.Prelude.{
  ℕ, zero, suc, ◌+◌, ◌<◌, ◌≤◌, ◌≡◌, refl, ltb, ◌==◌, true, List, [], ◌∷◌, length, take, drop, arith,
  All, length-take, length-drop, ap, ◌∙◌, Bool-cases, inl, inr, ltb→lt,
}
use alos_http.Quic.Stream.{Segment}
use alos_http.Quic.Ooo.{
  OooPos, OooList, chunk_at, replace_chunk, insert_segment, halves, chunk_len, half_chunk,
  split_chunk, insert_into, insert_with_room,
}
use alos_http.Quic.Ooo.Flat.{
  flat, in_front, index_of, IsChunk, length-insert_segment, flat-halves, flat-insert_segment,
  replace_chunk-IsChunk, in_front_zero, in_front-replace_chunk,
}

-- A position of a chunk, or behind the last segment of one.
abbrev pub IsInside : OooList → OooPos → Type 0
IsInside l p = (p.chunk < length l.chunks) × (p.idx ≤ length (chunk_at p.chunk l.chunks))

-- A segment inserted at an index.
pub record Inserted (l : OooList) (i : ℕ) (seg : Segment) (t : OooList × OooPos) : Type 0 where
  pub segments : flat t.0.chunks ≡ insert_segment i seg (flat l.chunks)
  pub place : index_of t.0 t.1 ≡ i
  pub bounded : All IsChunk t.0.chunks
  pub count : t.0.count ≡ l.count

insert_into-Inserted :
    (l : OooList) (p : OooPos) (seg : Segment)
    → All IsChunk l.chunks
    → IsInside l p
    → length (chunk_at p.chunk l.chunks) < chunk_len
    → Inserted l (index_of l p) seg (insert_into seg (l, p))
unfolding insert_into
insert_into-Inserted l p seg all (lt, le) room =
    let become : List Segment → List (List Segment) = λ ch. insert_segment p.idx seg ch ∷ [] in
    record {
      segments = flat-insert_segment p.chunk p.idx seg l.chunks lt le;
      place = ap (λ n. n + p.idx) (in_front-replace_chunk p.chunk become l.chunks);
      bounded = replace_chunk-IsChunk p.chunk become l.chunks all (λ h. (
        (
          omega (arith, length-insert_segment p.idx seg (chunk_at p.chunk l.chunks)),
          omega (arith, room, length-insert_segment p.idx seg (chunk_at p.chunk l.chunks)),
        ),
        _,
      ));
      count = refl;
    }

-- The two halves of a chunk in place of it.
halves_placed :
    (c : ℕ) (cs : List (List Segment))
    → c < length cs
    → let ds = replace_chunk c halves cs in
      (chunk_at c ds ≡ take half_chunk (chunk_at c cs))
      × (chunk_at (suc c) ds ≡ drop half_chunk (chunk_at c cs))
      × (length ds ≡ suc (length cs))
      × (in_front (suc c) ds ≡ in_front c cs + length (take half_chunk (chunk_at c cs)))
unfolding replace_chunk halves chunk_at in_front
halves_placed c [] lt = absurd (omega arith)
halves_placed zero (ch ∷ cs) lt =
    (refl, refl, refl, omega (arith, in_front_zero (drop half_chunk ch ∷ cs)))
halves_placed (suc c) (ch ∷ cs) lt =
    let (a, b, n, f) = halves_placed c cs (omega arith) in (a, b, ap suc n, omega (arith, f))

halves-IsChunk : (ch : List Segment) → (length ch == chunk_len) ≡ true → All IsChunk (halves ch)
unfolding halves
halves-IsChunk ch full =
    let size : length ch ≡ chunk_len = ground (arith, full) in
    let a = length-take half_chunk ch in
    let b = length-drop half_chunk ch in
    (
      (omega (arith, a, size), omega (arith, a, size)),
      ((omega (arith, b, size), omega (arith, b, size)), _),
    )

-- A list split at a full chunk, with the position moved along, has room at it.
record Roomy (l : OooList) (p : OooPos) (t : OooList × OooPos) : Type 0 where
  inside : IsInside t.0 t.1
  room : length (chunk_at t.1.chunk t.0.chunks) < chunk_len
  bounded : All IsChunk t.0.chunks
  segments : flat t.0.chunks ≡ flat l.chunks
  place : index_of t.0 t.1 ≡ index_of l p
  count : t.0.count ≡ l.count

split_chunk-Roomy :
    (l : OooList) (p : OooPos)
    → All IsChunk l.chunks
    → IsInside l p
    → (length (chunk_at p.chunk l.chunks) == chunk_len) ≡ true
    → Roomy l p (split_chunk l p)
unfolding split_chunk
split_chunk-Roomy l p all (lt, le) full =
    let ch = chunk_at p.chunk l.chunks in
    let size : length ch ≡ chunk_len = ground (arith, full) in
    let (a, b, n, f) = halves_placed p.chunk l.chunks lt in
    let left = length-take half_chunk ch in
    let right = length-drop half_chunk ch in
    let la = ap length a in
    let lb = ap length b in
    let bounded = replace_chunk-IsChunk p.chunk halves l.chunks all (λ h. halves-IsChunk ch full) in
    let same = flat-halves p.chunk l.chunks in
    let before = in_front-replace_chunk p.chunk halves l.chunks in
    elim (Bool-cases (ltb half_chunk p.idx)) [
      | inl e ↦
          let next : p.chunk + 1 ≡ suc p.chunk = omega arith in
          let far : half_chunk < p.idx = ltb→lt half_chunk p.idx e in
          rw (e, next)
            (record {
              inside = (omega (arith, n), omega (arith, lb, right, size));
              room = omega (arith, lb, right, size);
              bounded = bounded;
              segments = same;
              place = omega (arith, f, left, size, far);
              count = refl;
            })
      | inr e ↦
          let near : p.idx ≤ half_chunk = ground (arith, e) in
          rw e (record {
            inside = (omega (arith, n), omega (arith, la, left, size, near));
            room = omega (arith, la, left, size);
            bounded = bounded;
            segments = same;
            place = omega (arith, before);
            count = refl;
          })
    ]

pub insert_with_room-Inserted :
    (l : OooList) (p : OooPos) (seg : Segment)
    → All IsChunk l.chunks
    → IsInside l p
    → length (chunk_at p.chunk l.chunks) ≤ chunk_len
    → Inserted l (index_of l p) seg (insert_with_room l p seg)
unfolding insert_with_room
insert_with_room-Inserted l p seg all at fits =
    elim (Bool-cases (length (chunk_at p.chunk l.chunks) == chunk_len)) [
      | inl full ↦
          let t = split_chunk l p in
          let v = split_chunk-Roomy l p all at full in
          let i = insert_into-Inserted t.0 t.1 seg v.bounded v.inside v.room in
          rw full (record {
            segments =
                i.segments
                ∙ ap (λ k. insert_segment k seg (flat t.0.chunks)) v.place
                ∙ ap (insert_segment (index_of l p) seg) v.segments;
            place = i.place ∙ v.place;
            bounded = i.bounded;
            count = i.count ∙ v.count;
          })
      | inr room ↦ rw room (insert_into-Inserted l p seg all at (ground (arith, room, fits)))
    ]
