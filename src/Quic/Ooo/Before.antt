-- ===== src/Quic/Ooo/Before.antt =====
-- core/quic_ooo_list.go: `before` of a position, in the list.
use alos_http.Prelude.{
  ℕ, zero, suc, ◌+◌, ◌-◌, ◌<◌, ◌≤◌, ◌==◌, ◌≡◌, refl, ltb, false, List, length, none, arith, ap, ◌∙◌,
  Bool-cases, inl, inr, All,
}
use alos_http.Quic.Stream.{Segment}
use alos_http.Quic.Ooo.{OooPos, OooList, chunk_at, ends_after, segment_ends_after, segment_before}
use alos_http.Quic.Ooo.Flat.{flat, in_front, index_of, IsChunk, in_front_zero}
use alos_http.Quic.Ooo.Insert.{IsPos}
use alos_http.Quic.Ooo.Walk.{chunk_at-flat, in_front-suc}
use alos_http.Quic.Ooo.Search.{Rises, false-Rises, before_index, last_segment-at}
use alos_http.Quic.Ooo.Rising.{chunk_at-IsChunk}

-- The segment before a position is the one at the index before.
pub segment_before-flat :
    (l : OooList) (p : OooPos)
    → All IsChunk l.chunks
    → p.chunk ≤ length l.chunks
    → p.idx ≤ length (chunk_at p.chunk l.chunks)
    → segment_before l p ≡ before_index none (flat l.chunks) (index_of l p)
unfolding segment_before before_index
segment_before-flat l p all le within = elim (Bool-cases (ltb 0 p.idx)) [
  | inl inside ↦
      let at = chunk_at-flat p.chunk (p.idx - 1) l.chunks (ground (arith, inside)) in
      let e : index_of l p ≡ suc (in_front p.chunk l.chunks + (p.idx - 1)) =
        ground (arith, inside) in
      rw (inside, e) at
  | inr first ↦ elim (Bool-cases (p.chunk == 0)) [
    | inl z ↦
        let c : p.chunk ≡ 0 = ground (arith, z) in
        let none_in_front : in_front p.chunk l.chunks ≡ 0 =
          ap (λ c. in_front c l.chunks) c ∙ in_front_zero l.chunks in
        let e : index_of l p ≡ 0 = ground (arith, none_in_front, first) in rw (first, z, e) refl
    | inr nz ↦
        let d = p.chunk - 1 in
        let c : p.chunk ≡ suc d = ground (arith, nz) in
        let full = (chunk_at-IsChunk d l.chunks all (omega (arith, c))).0 in
        let n = length (chunk_at d l.chunks) in
        let in_all : in_front p.chunk l.chunks ≡ in_front d l.chunks + n =
          ap (λ c. in_front c l.chunks) c ∙ in_front-suc d l.chunks in
        let e : index_of l p ≡ suc (in_front d l.chunks + (n - 1)) =
          ground (arith, in_all, first, full) in
        rw (first, nz, e)
          (last_segment-at (chunk_at d l.chunks) full
            ∙ chunk_at-flat d (n - 1) l.chunks (omega (arith, full)))
  ]
]

pub IsPos-within :
    (l : OooList) (p : OooPos)
    → IsPos l p
    → (p.chunk ≤ length l.chunks) × (p.idx ≤ length (chunk_at p.chunk l.chunks))
IsPos-within l p (inl h) = (omega (arith, h.0), h.1)
IsPos-within l p (inr h) = (omega (arith, h.0), omega (arith, h.1))

-- Where the segment in front of an index does not end later, none in front does.
pub none_before :
    (off : ℕ) (ss : List Segment) (r : ℕ)
    → Rises (segment_ends_after off ss) (length ss)
    → r ≤ length ss
    → ends_after off (before_index none ss r) ≡ false
    → (x : ℕ) → x < r
    → segment_ends_after off ss x ≡ false
unfolding before_index
none_before off ss zero up le e x lt = absurd (omega arith)
none_before off ss (suc r) up le e x lt =
    false-Rises (segment_ends_after off ss) (length ss) up x r (omega arith) (omega arith) e
