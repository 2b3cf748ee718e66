-- ===== src/Text/Path/Segments.antt =====
-- core/utils.go: the segments on the stack, and the path that they are joined to.
use alos_http.Prelude.{
  ℕ, ◌≡◌, ◌⊎◌, refl, ◌==◌, true, false, ◌||◌, List, [], ◌∷◌, ◌++◌, length, arith, Bool-cases, inl,
  inr, All, append_assoc, append-nil, ◌∙◌, sym,
}
use alos_http.Text.Path.{
  slash, contains, starts_with, is_one_dot, is_two_dots, drop_last_segment, push_segment,
  split_segments, join_segments,
}

-- A segment without a slash, neither empty nor of one or two dots.
pub record IsSegment (s : List ℕ) : Type 0 where
  pub no_slash : contains slash s ≡ false
  pub not_empty : (length s == 0) ≡ false
  pub not_dots : (is_one_dot s || is_two_dots s) ≡ false

contains-append :
    (c : ℕ) (xs ys : List ℕ) → contains c (xs ++ ys) ≡ (contains c xs || contains c ys)
unfolding contains
contains-append c [] ys = refl
contains-append c (x ∷ xs) ys = ground (arith, contains-append c xs ys)

push_segment-IsSegment :
    (s : List ℕ) (ss : List (List ℕ))
    → contains slash s ≡ false
    → All IsSegment ss
    → All IsSegment (push_segment s ss)
unfolding push_segment drop_last_segment
push_segment-IsSegment s ss h all = elim (Bool-cases (is_one_dot s || length s == 0)) [
  | inl a ↦ rw a all
  | inr a ↦ elim (Bool-cases (is_two_dots s)) [
    | inl b ↦ rw (a, b) (drop_last_all ss all)
    | inr b ↦
        rw (a, b)
          (
            record { no_slash = h; not_empty = ground (arith, a); not_dots = ground (arith, a, b) },
            all,
          )
  ]
]
  where
    drop_last_all : (ss : List (List ℕ)) → All IsSegment ss → All IsSegment (drop_last_segment ss)
    drop_last_all [] all = all
    drop_last_all (s ∷ ss) all = all.1

longer :
    (part : List ℕ) (x : ℕ)
    → contains slash part ≡ false
    → (x == slash) ≡ false
    → contains slash (part ++ (x ∷ [])) ≡ false
unfolding contains
longer part x h e = contains-append slash part (x ∷ []) ∙ ground (arith, h, e)

pub split_segments-IsSegment :
    (part xs : List ℕ) (ss : List (List ℕ))
    → contains slash part ≡ false
    → All IsSegment ss
    → All IsSegment (split_segments part xs ss)
unfolding split_segments
split_segments-IsSegment part [] ss h all = push_segment-IsSegment part ss h all
split_segments-IsSegment part (x ∷ xs) ss h all = elim (Bool-cases (x == slash)) [
  | inl e ↦ rw e (
      split_segments-IsSegment [] xs (push_segment part ss) (unfold contains in refl)
        (push_segment-IsSegment part ss h all))
  | inr e ↦ rw e (split_segments-IsSegment (part ++ (x ∷ [])) xs ss (longer part x h e) all)
]

-- Bytes without a slash lengthen the open segment.
split_segments-append :
    (part s rest : List ℕ) (ss : List (List ℕ))
    → contains slash s ≡ false
    → split_segments part (s ++ rest) ss ≡ split_segments (part ++ s) rest ss
unfolding split_segments contains
split_segments-append part [] rest ss h = rw (append-nil part) refl
split_segments-append part (x ∷ s) rest ss h =
    let other : (x == slash) ≡ false = ground (arith, h) in
    rw (other, sym (append_assoc part (x ∷ []) s))
      (split_segments-append (part ++ (x ∷ [])) s rest ss (ground (arith, h)))

push_new : (s : List ℕ) (ss : List (List ℕ)) → IsSegment s → push_segment s ss ≡ s ∷ ss
unfolding push_segment
push_new s ss v = let a = v.not_empty in let b = v.not_dots in ground (arith, a, b)

pub split_segments-slash :
    (xs : List ℕ) (ss : List (List ℕ)) → split_segments [] (slash ∷ xs) ss ≡ split_segments [] xs ss
unfolding split_segments push_segment is_one_dot
split_segments-slash xs ss = refl

close_segment :
    (s clean : List ℕ) (ss : List (List ℕ))
    → IsSegment s
    → (clean ≡ []) ⊎ (starts_with slash clean ≡ true)
    → split_segments s clean ss ≡ split_segments [] clean (s ∷ ss)
unfolding split_segments
close_segment s [] ss v c = push_new s ss v ∙ (unfold push_segment is_one_dot in refl)
close_segment s (x ∷ clean) ss v (inl e) = absurd (cc)
close_segment s (x ∷ clean) ss v (inr e) =
    let at_slash : (x == slash) ≡ true = unfold starts_with in e in
    let empty : push_segment [] (s ∷ ss) ≡ s ∷ ss = unfold push_segment is_one_dot in refl in
    rw (at_slash, push_new s ss v, empty) refl

-- Splitting a joined path puts its segments back on the stack.
pub split_segments-join_segments :
    (ss : List (List ℕ)) (clean : List ℕ)
    → All IsSegment ss
    → (clean ≡ []) ⊎ (starts_with slash clean ≡ true)
    → split_segments [] (join_segments ss clean) [] ≡ split_segments [] clean ss
unfolding join_segments
split_segments-join_segments [] clean all c = refl
split_segments-join_segments (s ∷ ss) clean all c =
    let rest = slash ∷ (s ++ clean) in
    let v = all.0 in
    split_segments-join_segments ss rest all.1 (inr (unfold starts_with in refl))
    ∙ split_segments-slash (s ++ clean) ss
    ∙ split_segments-append [] s clean ss v.no_slash
    ∙ close_segment s clean ss v c
