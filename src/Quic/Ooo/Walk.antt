-- ===== src/Quic/Ooo/Walk.antt =====
-- core/quic_ooo_list.go: walking over the positions is walking over the list.
use alos_http.Prelude.{
  ℕ, zero, suc, ◌+◌, ◌<◌, ◌≤◌, ◌≡◌, refl, ltb, leb, List, [], ◌∷◌, ◌++◌, length, drop, get_elem?,
  arith, ap, ◌∙◌, sym, Bool-cases, inl, inr,
}
use alos_http.Quic.Stream.{Segment}
use alos_http.Quic.Ooo.{OooPos, OooList, chunk_at, segment_at, next_pos, ooo_insert, drop_front}
use alos_http.Quic.Ooo.Flat.{flat, in_front, index_of, IsList, in_front_zero}
use alos_http.Quic.Ooo.Insert.{IsPos, InsertedInto, ooo_insert-IsList}
use alos_http.Quic.Ooo.Drop.{drop_front-IsList}

module _ {ℓ} {A : Type ℓ} where
  get_elem?-left :
      (i : ℕ) (xs ys : List A) → i < length xs → get_elem? (xs ++ ys) i ≡ get_elem? xs i
  get_elem?-left i [] ys h = absurd (omega arith)
  get_elem?-left zero (x ∷ xs) ys h = refl
  get_elem?-left (suc i) (x ∷ xs) ys h = get_elem?-left i xs ys (omega arith)

  get_elem?-right : (i : ℕ) (xs ys : List A) → get_elem? (xs ++ ys) (length xs + i) ≡ get_elem? ys i
  get_elem?-right i [] ys = let e : 0 + i ≡ i = omega arith in rw e refl
  get_elem?-right i (x ∷ xs) ys =
      let e : suc (length xs) + i ≡ suc (length xs + i) = omega arith in
      rw e (get_elem?-right i xs ys)

pub chunk_at-flat :
    (c i : ℕ) (cs : List (List Segment))
    → i < length (chunk_at c cs)
    → get_elem? (chunk_at c cs) i ≡ get_elem? (flat cs) (in_front c cs + i)
unfolding chunk_at flat in_front
chunk_at-flat c i [] h = absurd (omega arith)
chunk_at-flat zero i (ch ∷ cs) h =
    let e : 0 + i ≡ i = omega arith in rw e (sym (get_elem?-left i ch (flat cs) h))
chunk_at-flat (suc c) i (ch ∷ cs) h =
    let e : length ch + in_front c cs + i ≡ length ch + (in_front c cs + i) = omega arith in
    rw e (chunk_at-flat c i cs h ∙ sym (get_elem?-right (in_front c cs + i) ch (flat cs)))

pub chunk_at_none : (c : ℕ) (cs : List (List Segment)) → length cs ≤ c → chunk_at c cs ≡ []
unfolding chunk_at
chunk_at_none c [] h = refl
chunk_at_none zero (ch ∷ cs) h = absurd (omega arith)
chunk_at_none (suc c) (ch ∷ cs) h = chunk_at_none c cs (omega arith)

pub in_front-suc :
    (c : ℕ) (cs : List (List Segment))
    → in_front (suc c) cs ≡ in_front c cs + length (chunk_at c cs)
unfolding in_front chunk_at
in_front-suc c [] = omega arith
in_front-suc zero (ch ∷ cs) = omega (arith, in_front_zero cs)
in_front-suc (suc c) (ch ∷ cs) = omega (arith, in_front-suc c cs)

-- A position of a segment.
abbrev pub IsAt : OooList → OooPos → Type 0
IsAt l p = p.idx < length (chunk_at p.chunk l.chunks)

segment_at-flat :
    (l : OooList) (p : OooPos)
    → IsAt l p
    → segment_at l p ≡ get_elem? (flat l.chunks) (index_of l p)
unfolding segment_at
segment_at-flat l p h = elim (Bool-cases (leb (length l.chunks) p.chunk)) [
  | inl e ↦
      let gone = ap length (chunk_at_none p.chunk l.chunks (ground (arith, e))) in
      absurd (omega (arith, gone, h))
  | inr e ↦ rw e (chunk_at-flat p.chunk p.idx l.chunks h)
]

index_of-next_pos :
    (l : OooList) (p : OooPos) → IsAt l p → index_of l (next_pos l p) ≡ suc (index_of l p)
unfolding next_pos
index_of-next_pos l p h = elim (Bool-cases (ltb (p.idx + 1) (length (chunk_at p.chunk l.chunks)))) [
  | inl e ↦ rw e (omega arith)
  | inr e ↦
      let next : p.chunk + 1 ≡ suc p.chunk = omega arith in
      let last : length (chunk_at p.chunk l.chunks) ≡ suc p.idx = ground (arith, e, h) in
      rw (e, next) (omega (arith, in_front-suc p.chunk l.chunks, last))
]

-- The chunks are one list of segments: a position reads the segment at its index, the next position
-- has the next index, inserting at a position inserts at its index and returns a position of that
-- index, and dropping from the front drops as many. The chunks keep between 1 and 64 segments each,
-- and the count stays right.
pub ooo_list_refines :
    (l : OooList)
    → IsList l
    → ((p : OooPos)
        → IsAt l p
        → (segment_at l p ≡ get_elem? (flat l.chunks) (index_of l p))
          × (index_of l (next_pos l p) ≡ suc (index_of l p)))
      × ((p : OooPos) (seg : Segment)
          → IsPos l p
          → InsertedInto l (index_of l p) seg (ooo_insert l p seg))
      × ((k : ℕ)
          → (flat (drop_front l k).chunks ≡ drop k (flat l.chunks)) × IsList (drop_front l k))
ooo_list_refines l v = (
  (λ p h. (segment_at-flat l p h, index_of-next_pos l p h)),
  (λ p seg. ooo_insert-IsList l p seg v),
  (λ k. drop_front-IsList l k v),
)
