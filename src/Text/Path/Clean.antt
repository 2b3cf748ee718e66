-- ===== src/Text/Path/Clean.antt =====
-- core/utils.go: what a cleaned path is.
use alos_http.Prelude.{
  ℕ, ◌≡◌, refl, ◌==◌, true, false, not, ◌&&◌, ◌||◌, List, [], ◌∷◌, ◌++◌, length, if◌then◌else◌,
  arith, Bool-cases, inl, inr, All, ◌∙◌,
}
use alos_http.Text.Path.{
  slash, dot, contains, starts_with, is_one_dot, is_two_dots, push_segment, split_segments,
  join_segments, clean_path, needs_sanitize, has_double_slash, sanitize_split_path,
}
use alos_http.Text.Path.Segments.{IsSegment, split_segments-IsSegment, split_segments-join_segments}
use alos_http.Text.Path.Dots.{
  dots_from, has_dot_segment, join_segments-slash, join_segments-has_dot_segment, quick_calm,
  IsCalm, IsCalm-has_dot_segment,
}

-- Cleaning twice is cleaning once, where the path has segments.
clean_path-join_segments :
    (ss : List (List ℕ)) (p : List ℕ)
    → (length ss == 0) ≡ false
    → starts_with slash p ≡ true
    → split_segments [] p [] ≡ ss
    → clean_path p ≡ join_segments ss []
unfolding clean_path split_segments push_segment is_one_dot starts_with
clean_path-join_segments ss [] some_segments s e = absurd (cc)
clean_path-join_segments ss (x ∷ p) some_segments s e =
    let e' : split_segments [] p [] ≡ ss = rw s at e in rw (s, e') (rw some_segments refl)

-- What cleaning makes of a path.
pub record IsClean (p : List ℕ) : Type 0 where
  pub rooted : starts_with slash p ≡ true
  pub plain : has_dot_segment p ≡ false
  pub stable : sanitize_split_path p ≡ p

root_IsClean : IsClean (slash ∷ [])
unfolding starts_with dots_from is_one_dot is_two_dots sanitize_split_path contains has_double_slash
root_IsClean = record { rooted = refl; plain = refl; stable = refl }

stable_if : (p : List ℕ) → starts_with slash p ≡ true → clean_path p ≡ p → sanitize_split_path p ≡ p
unfolding sanitize_split_path
stable_if [] s e = absurd (unfold starts_with in cc)
stable_if (x ∷ p) s e =
    let some_bytes : (length (x ∷ p) == 0) ≡ false = ground arith in
    let quick =
      starts_with slash (x ∷ p) && not (contains dot (x ∷ p)) && not (has_double_slash (x ∷ p)) in
    elim (Bool-cases quick) [
      | inl a ↦ rw (some_bytes, a) refl
      | inr a ↦ elim (Bool-cases (needs_sanitize (x ∷ p))) [
        | inl b ↦ rw (some_bytes, a, s, b) e
        | inr b ↦ rw (some_bytes, a, s, b) refl
      ]
    ]

joined_IsClean :
    (ss : List (List ℕ))
    → All IsSegment ss
    → (length ss == 0) ≡ false
    → IsClean (join_segments ss [])
joined_IsClean [] all some_segments = absurd (ground (arith, some_segments))
joined_IsClean (t ∷ ss) all some_segments =
    let r = join_segments (t ∷ ss) [] in
    let rooted : starts_with slash r ≡ true =
      unfold join_segments in
      join_segments-slash ss (slash ∷ (t ++ [])) (unfold starts_with in refl) in
    let back : split_segments [] r [] ≡ t ∷ ss =
      split_segments-join_segments (t ∷ ss) [] all (inl refl)
      ∙ (unfold split_segments push_segment is_one_dot in refl) in
    record {
      rooted = rooted;
      plain =
          join_segments-has_dot_segment (t ∷ ss) [] all (inl refl)
            (unfold dots_from is_one_dot is_two_dots in refl);
      stable = stable_if r rooted (clean_path-join_segments (t ∷ ss) r some_segments rooted back);
    }

joined_or_root :
    (ss : List (List ℕ))
    → All IsSegment ss
    → IsClean (if length ss == 0 then slash ∷ [] else join_segments ss [])
joined_or_root [] all = root_IsClean
joined_or_root (t ∷ ss) all =
    let some_segments : (length (t ∷ ss) == 0) ≡ false = ground arith in
    rw some_segments (joined_IsClean (t ∷ ss) all some_segments)

clean_path-IsClean : (p : List ℕ) → IsClean (clean_path p)
unfolding clean_path
clean_path-IsClean [] = root_IsClean
clean_path-IsClean (x ∷ p) =
    let found = λ (q : List ℕ). split_segments-IsSegment [] q [] (unfold contains in refl) _ in
    elim (Bool-cases (x == slash)) [
      | inl e ↦ rw e (joined_or_root (split_segments [] p []) (found p))
      | inr e ↦ rw e (joined_or_root (split_segments [] (x ∷ p) []) (found (x ∷ p)))
    ]

IsCalm-IsClean : (x : ℕ) (xs : List ℕ) → IsCalm (x ∷ xs) → IsClean (x ∷ xs)
unfolding sanitize_split_path
IsCalm-IsClean x xs (s, k) =
    let p = x ∷ xs in
    let some_bytes : (length p == 0) ≡ false = ground arith in
    let quick = not (contains dot p) && not (has_double_slash p) in
    record {
      rooted = s;
      plain = IsCalm-has_dot_segment p (s, k);
      stable = elim (Bool-cases quick) [
        | inl a ↦ rw (some_bytes, s, a) refl
        | inr a ↦ rw (some_bytes, s, a, k) refl
      ];
    }

-- The cleaned path starts with a slash, has no segment of one or two dots, and cleaning it again
-- leaves it as it is.
pub sanitize_split_path-IsClean : (p : List ℕ) → IsClean (sanitize_split_path p)
sanitize_split_path-IsClean [] = unfold sanitize_split_path in root_IsClean
sanitize_split_path-IsClean (x ∷ xs) =
    let p = x ∷ xs in
    let some_bytes : (length p == 0) ≡ false = ground arith in
    let quick = starts_with slash p && not (contains dot p) && not (has_double_slash p) in
    let cleaned = clean_path-IsClean p in
    elim (Bool-cases quick) [
      | inl a ↦
          let calm : IsCalm p =
            (ground (arith, a), quick_calm p (ground (arith, a)) (ground (arith, a))) in
          unfold sanitize_split_path in rw (some_bytes, a) (IsCalm-IsClean x xs calm)
      | inr a ↦ elim (Bool-cases (not (starts_with slash p) || needs_sanitize p)) [
        | inl b ↦ unfold sanitize_split_path in rw (some_bytes, a, b) cleaned
        | inr b ↦
            let calm : IsCalm p = (ground (arith, b), ground (arith, b)) in
            unfold sanitize_split_path in rw (some_bytes, a, b) (IsCalm-IsClean x xs calm)
      ]
    ]
