-- ===== src/Quic/Ooo/Rising.antt =====
-- core/quic_ooo_list.go: the tests of `firstEndingAfter` rise along the chunks and along each chunk.
use alos_http.Prelude.{
  ℕ, zero, suc, ◌+◌, ◌-◌, ◌<◌, ◌≤◌, ◌≡◌, refl, ltb, Bool, true, List, [], ◌∷◌, length, arith, ap,
  subst, ◌∙◌, sym, Bool-cases, inl, inr, All, length-append,
}
use alos_http.Quic.Stream.{Segment}
use alos_http.Quic.Ooo.{chunk_at, ends_after, chunk_ends_after, segment_ends_after}
use alos_http.Quic.Ooo.Flat.{flat, in_front, IsChunk}
use alos_http.Quic.Ooo.Walk.{chunk_at-flat, in_front-suc}
use alos_http.Quic.Ooo.Search.{Rises, last_segment-at}

pub chunk_at-IsChunk :
    (c : ℕ) (cs : List (List Segment)) → All IsChunk cs → c < length cs → IsChunk (chunk_at c cs)
unfolding chunk_at
chunk_at-IsChunk c [] all lt = absurd (omega arith)
chunk_at-IsChunk zero (ch ∷ cs) all lt = all.0
chunk_at-IsChunk (suc c) (ch ∷ cs) all lt = chunk_at-IsChunk c cs all.1 (omega arith)

pub in_front-within :
    (c : ℕ) (cs : List (List Segment)) → in_front c cs + length (chunk_at c cs) ≤ length (flat cs)
unfolding in_front chunk_at flat
in_front-within c [] = omega arith
in_front-within zero (ch ∷ cs) = omega (arith, length-append ch (flat cs))
in_front-within (suc c) (ch ∷ cs) = omega (arith, length-append ch (flat cs), in_front-within c cs)

pub in_front-length : (cs : List (List Segment)) → in_front (length cs) cs ≡ length (flat cs)
unfolding in_front flat
in_front-length [] = refl
in_front-length (ch ∷ cs) = omega (arith, length-append ch (flat cs), in_front-length cs)

in_front_mono : (c d : ℕ) (cs : List (List Segment)) → c ≤ d → in_front c cs ≤ in_front d cs
unfolding in_front
in_front_mono c d [] le = omega arith
in_front_mono zero d (ch ∷ cs) le = omega arith
in_front_mono (suc c) zero (ch ∷ cs) le = absurd (omega arith)
in_front_mono (suc c) (suc d) (ch ∷ cs) le = omega (arith, in_front_mono c d cs (omega arith))

-- The tests of the two searches are the test of the one list, at an index of it.
abbrev pub flat_test : ℕ → List (List Segment) → ℕ → Bool
flat_test off cs = segment_ends_after off (flat cs)

pub segment_test-flat :
    (off c i : ℕ) (cs : List (List Segment))
    → i < length (chunk_at c cs)
    → segment_ends_after off (chunk_at c cs) i ≡ flat_test off cs (in_front c cs + i)
segment_test-flat off c i cs lt = ap (ends_after off) (chunk_at-flat c i cs lt)

chunk_test-flat :
    (off c : ℕ) (cs : List (List Segment))
    → All IsChunk cs
    → c < length cs
    → chunk_ends_after off cs c ≡ flat_test off cs (in_front c cs + (length (chunk_at c cs) - 1))
chunk_test-flat off c cs all lt =
    let some_in = (chunk_at-IsChunk c cs all lt).0 in
    ap (ends_after off) (last_segment-at (chunk_at c cs) some_in)
    ∙ segment_test-flat off c (length (chunk_at c cs) - 1) cs (omega arith)

pub segment_test-Rises :
    (off c : ℕ) (cs : List (List Segment))
    → Rises (flat_test off cs) (length (flat cs))
    → Rises (segment_ends_after off (chunk_at c cs)) (length (chunk_at c cs))
segment_test-Rises off c cs up x y le lt e =
    segment_test-flat off c y cs lt
    ∙ up (in_front c cs + x) (in_front c cs + y) (omega arith) (omega (arith, in_front-within c cs))
        (sym (segment_test-flat off c x cs (omega arith)) ∙ e)

pub chunk_test-Rises :
    (off : ℕ) (cs : List (List Segment))
    → All IsChunk cs
    → Rises (flat_test off cs) (length (flat cs))
    → Rises (chunk_ends_after off cs) (length cs)
chunk_test-Rises off cs all up x y le lt e = elim (Bool-cases (ltb x y)) [
  | inr same ↦
      let eq : x ≡ y = ground (arith, same) in subst (λ z. chunk_ends_after off cs z ≡ true) eq e
  | inl less ↦
      let full = (chunk_at-IsChunk x cs all (omega arith)).0 in
      let full' = (chunk_at-IsChunk y cs all lt).0 in
      chunk_test-flat off y cs all lt
      ∙ up (in_front x cs + (length (chunk_at x cs) - 1))
          (in_front y cs + (length (chunk_at y cs) - 1))
          (omega (
            arith,
            in_front-suc x cs,
            in_front_mono (suc x) y cs (ground (arith, less)),
            full,
            full',
          ))
          (omega (arith, in_front-within y cs, full'))
          (sym (chunk_test-flat off x cs all (omega arith)) ∙ e)
]
