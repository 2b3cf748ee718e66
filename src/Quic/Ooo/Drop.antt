-- ===== src/Quic/Ooo/Drop.antt =====
-- core/quic_ooo_list.go: dropping segments from the front, and the search for a position.
use alos_http.Prelude.{
  ℕ, zero, suc, ◌-◌, ◌≤◌, ◌≡◌, refl, ltb, ◌==◌, false, List, [], ◌∷◌, ◌++◌, length, drop, arith,
  All, length-drop, drop-append_le, ap, ◌∙◌, sym, Bool-cases, inl, inr,
}
use alos_http.Quic.Stream.{Segment}
use alos_http.Quic.Ooo.{OooList, drop_chunks, drop_front}
use alos_http.Quic.Ooo.Flat.{flat, IsChunk, IsList}

drop-append_over {ℓ} :
    {A : Type ℓ} (k : ℕ) (xs ys : List A)
    → length xs ≤ k
    → drop k (xs ++ ys) ≡ drop (k - length xs) ys
drop-append_over k [] ys h = let e : k - 0 ≡ k = omega arith in rw e refl
drop-append_over zero (x ∷ xs) ys h = absurd (omega arith)
drop-append_over (suc k) (x ∷ xs) ys h =
    let e : suc k - suc (length xs) ≡ k - length xs = omega arith in
    rw e (drop-append_over k xs ys (omega arith))

flat-drop_chunks :
    (k : ℕ) (cs : List (List Segment))
    → All IsChunk cs
    → (flat (drop_chunks k cs) ≡ drop k (flat cs)) × All IsChunk (drop_chunks k cs)
unfolding drop_chunks flat
flat-drop_chunks zero [] all = (refl, _)
flat-drop_chunks (suc k) [] all = (refl, _)
flat-drop_chunks zero (ch ∷ cs) all = (refl, all)
flat-drop_chunks (suc k) (ch ∷ cs) all =
    let some_left : (suc k == 0) ≡ false = ground arith in
    elim (Bool-cases (ltb (suc k) (length ch))) [
      | inl e ↦
          let fits : suc k ≤ length ch = ground (arith, e) in
          let size = length-drop (suc k) ch in
          let bounds = all.0 in
          rw (some_left, e)
            (
              sym (drop-append_le (suc k) ch (flat cs) fits),
              ((ground (arith, e, size), ground (arith, e, size, bounds)), all.1),
            )
      | inr e ↦
          let over : length ch ≤ suc k = ground (arith, e) in
          let later = flat-drop_chunks (suc k - length ch) cs all.1 in
          rw (some_left, e) (later.0 ∙ sym (drop-append_over (suc k) ch (flat cs) over), later.1)
    ]

-- Dropping from the front drops from the list; the chunks keep their bounds, and the count is right.
pub drop_front-IsList :
    (l : OooList) (k : ℕ)
    → IsList l
    → (flat (drop_front l k).chunks ≡ drop k (flat l.chunks)) × IsList (drop_front l k)
unfolding drop_front
drop_front-IsList l k v =
    let d = flat-drop_chunks k l.chunks v.bounded in
    (
      d.0,
      record {
        bounded = d.1;
        counted = omega (arith, v.counted, ap length d.0, length-drop k (flat l.chunks));
      },
    )
