-- ===== src/Quic/Ooo/Flat.antt =====
-- core/quic_ooo_list.go: the chunks as one list.
use alos_http.Prelude.{
  ℕ, zero, suc, ◌+◌, ◌<◌, ◌≤◌, ◌≡◌, refl, List, [], ◌∷◌, ◌++◌, length, take, drop, arith, All,
  take-append-drop, append_assoc, length-append, length-take, length-drop, take-append_le,
  drop-append_le, ap, ◌∙◌, sym, All-append,
}
use alos_http.Quic.Stream.{Segment}
use alos_http.Quic.Ooo.{
  OooPos, OooList, chunk_at, replace_chunk, insert_segment, halves, chunk_len, half_chunk,
}

-- All the segments, in order.
unfoldable pub flat : List (List Segment) → List Segment
flat [] = []
flat (ch ∷ cs) = ch ++ flat cs

-- How many segments lie in front of a chunk, and of a position.
unfoldable pub in_front : ℕ → List (List Segment) → ℕ
in_front c [] = 0
in_front zero (ch ∷ cs) = 0
in_front (suc c) (ch ∷ cs) = length ch + in_front c cs

abbrev pub index_of : OooList → OooPos → ℕ
index_of l p = in_front p.chunk l.chunks + p.idx

-- A chunk has between 1 and 64 segments.
abbrev pub IsChunk : List Segment → Type 0
IsChunk ch = (0 < length ch) × (length ch ≤ chunk_len)

-- Chunks within their bounds, and the count of their segments.
pub record IsList (l : OooList) : Type 0 where
  pub bounded : All IsChunk l.chunks
  pub counted : l.count ≡ length (flat l.chunks)

pub flat-append : (cs ds : List (List Segment)) → flat (cs ++ ds) ≡ flat cs ++ flat ds
unfolding flat
flat-append [] ds = refl
flat-append (ch ∷ cs) ds =
    ap (λ l. ch ++ l) (flat-append cs ds) ∙ sym (append_assoc ch (flat cs) (flat ds))

pub length-insert_segment :
    (i : ℕ) (seg : Segment) (ss : List Segment) → length (insert_segment i seg ss) ≡ suc (length ss)
unfolding insert_segment
length-insert_segment i seg ss =
    omega (arith, length-append (take i ss) (seg ∷ drop i ss), length-take i ss, length-drop i ss)

-- Inserting in front of other segments, and behind others.
insert_segment-left :
    (i : ℕ) (seg : Segment) (ss ts : List Segment)
    → i ≤ length ss
    → insert_segment i seg ss ++ ts ≡ insert_segment i seg (ss ++ ts)
unfolding insert_segment
insert_segment-left i seg ss ts h =
    rw (take-append_le i ss ts h, drop-append_le i ss ts h)
      (append_assoc (take i ss) (seg ∷ drop i ss) ts)

insert_segment-right :
    (k : ℕ) (seg : Segment) (ss ts : List Segment)
    → ss ++ insert_segment k seg ts ≡ insert_segment (length ss + k) seg (ss ++ ts)
insert_segment-right k seg [] ts = let e : 0 + k ≡ k = omega arith in rw e refl
insert_segment-right k seg (s ∷ ss) ts =
    let e : suc (length ss) + k ≡ suc (length ss + k) = omega arith in
    rw e (ap (λ l. s ∷ l) (insert_segment-right k seg ss ts) ∙ (unfold insert_segment in refl))

-- A chunk in halves is the same list, and a segment inserted into a chunk is inserted into the list.
pub flat-halves : (c : ℕ) (cs : List (List Segment)) → flat (replace_chunk c halves cs) ≡ flat cs
unfolding replace_chunk flat halves
flat-halves c [] = refl
flat-halves zero (ch ∷ cs) =
    sym (append_assoc (take half_chunk ch) (drop half_chunk ch) (flat cs))
    ∙ ap (λ l. l ++ flat cs) (take-append-drop half_chunk ch)
flat-halves (suc c) (ch ∷ cs) = ap (λ l. ch ++ l) (flat-halves c cs)

pub flat-insert_segment :
    (c i : ℕ) (seg : Segment) (cs : List (List Segment))
    → c < length cs
    → i ≤ length (chunk_at c cs)
    → flat (replace_chunk c (λ ch. insert_segment i seg ch ∷ []) cs)
      ≡ insert_segment (in_front c cs + i) seg (flat cs)
unfolding replace_chunk flat chunk_at in_front
flat-insert_segment c i seg [] lt h = absurd (omega arith)
flat-insert_segment zero i seg (ch ∷ cs) lt h =
    let e : 0 + i ≡ i = omega arith in rw e (insert_segment-left i seg ch (flat cs) h)
flat-insert_segment (suc c) i seg (ch ∷ cs) lt h =
    let e : length ch + in_front c cs + i ≡ length ch + (in_front c cs + i) = omega arith in
    rw e (
      ap (λ l. ch ++ l) (flat-insert_segment c i seg cs (omega arith) h)
      ∙ insert_segment-right (in_front c cs + i) seg ch (flat cs))

-- Chunks that replace one within bounds are within bounds, and do not move what is in front of them.
pub replace_chunk-IsChunk :
    (c : ℕ) (become : List Segment → List (List Segment)) (cs : List (List Segment))
    → All IsChunk cs
    → (IsChunk (chunk_at c cs) → All IsChunk (become (chunk_at c cs)))
    → All IsChunk (replace_chunk c become cs)
unfolding replace_chunk chunk_at
replace_chunk-IsChunk c become [] all h = all
replace_chunk-IsChunk zero become (ch ∷ cs) all h =
    All-append IsChunk (become ch) cs (h all.0) all.1
replace_chunk-IsChunk (suc c) become (ch ∷ cs) all h =
    (all.0, replace_chunk-IsChunk c become cs all.1 h)

pub in_front_zero : (cs : List (List Segment)) → in_front 0 cs ≡ 0
unfolding in_front
in_front_zero [] = refl
in_front_zero (ch ∷ cs) = refl

pub in_front-replace_chunk :
    (c : ℕ) (become : List Segment → List (List Segment)) (cs : List (List Segment))
    → in_front c (replace_chunk c become cs) ≡ in_front c cs
unfolding replace_chunk in_front
in_front-replace_chunk c become [] = refl
in_front-replace_chunk zero become (ch ∷ cs) = in_front_zero (become ch ++ cs)
in_front-replace_chunk (suc c) become (ch ∷ cs) =
    ap (λ n. length ch + n) (in_front-replace_chunk c become cs)
