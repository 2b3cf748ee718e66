-- ===== src/Text/Path/Dots.antt =====
-- core/utils.go: which paths have a segment of dots.
use alos_http.Prelude.{
  ℕ, ◌≡◌, ◌⊎◌, refl, ◌==◌, Bool, true, false, ◌&&◌, ◌||◌, List, [], ◌∷◌, ◌++◌, length,
  if◌then◌else◌, arith, length-append, inl, inr, All, append_assoc, append-nil, ◌∙◌, sym,
}
use alos_http.Text.Path.{
  slash, dot, contains, starts_with, is_one_dot, is_two_dots, join_segments, needs_sanitize,
  has_double_slash,
}
use alos_http.Text.Path.Segments.{IsSegment}

-- Whether a path, cut at its slashes, has a segment of one or two dots: independent of the cleaning.
unfoldable pub dots_from : List ℕ → List ℕ → Bool
dots_from part [] = is_one_dot part || is_two_dots part
dots_from part (x ∷ xs) =
    let behind = dots_from [] xs in
    let longer = dots_from (part ++ (x ∷ [])) xs in
    if x == slash then is_one_dot part || is_two_dots part || behind else longer

abbrev pub has_dot_segment : List ℕ → Bool
has_dot_segment p = dots_from [] p

-- A joined path starts with a slash.
pub join_segments-slash :
    (ss : List (List ℕ)) (clean : List ℕ)
    → starts_with slash clean ≡ true
    → starts_with slash (join_segments ss clean) ≡ true
unfolding join_segments
join_segments-slash [] clean h = h
join_segments-slash (s ∷ ss) clean h =
    join_segments-slash ss (slash ∷ (s ++ clean)) (unfold starts_with in refl)

dots_from-append :
    (part s rest : List ℕ)
    → contains slash s ≡ false
    → dots_from part (s ++ rest) ≡ dots_from (part ++ s) rest
unfolding dots_from contains
dots_from-append part [] rest h = rw (append-nil part) refl
dots_from-append part (x ∷ s) rest h =
    let other : (x == slash) ≡ false = ground (arith, h) in
    rw (other, sym (append_assoc part (x ∷ []) s))
      (dots_from-append (part ++ (x ∷ [])) s rest (ground (arith, h)))

-- A segment in front of what is joined already brings no dots.
dots_segment :
    (s clean : List ℕ)
    → IsSegment s
    → (clean ≡ []) ⊎ (starts_with slash clean ≡ true)
    → has_dot_segment clean ≡ false
    → has_dot_segment (slash ∷ (s ++ clean)) ≡ false
unfolding dots_from is_one_dot is_two_dots
dots_segment s [] v c h = dots_from-append [] s [] v.no_slash ∙ v.not_dots
dots_segment s (x ∷ clean) v (inl e) h = absurd (cc)
dots_segment s (x ∷ clean) v (inr e) h =
    let at_slash : (x == slash) ≡ true = unfold starts_with in e in
    let no_dots = v.not_dots in
    dots_from-append [] s (x ∷ clean) v.no_slash ∙ (ground (arith, at_slash, no_dots, h))

pub join_segments-has_dot_segment :
    (ss : List (List ℕ)) (clean : List ℕ)
    → All IsSegment ss
    → (clean ≡ []) ⊎ (starts_with slash clean ≡ true)
    → has_dot_segment clean ≡ false
    → has_dot_segment (join_segments ss clean) ≡ false
unfolding join_segments
join_segments-has_dot_segment [] clean all c h = h
join_segments-has_dot_segment (s ∷ ss) clean all c h =
    join_segments-has_dot_segment ss (slash ∷ (s ++ clean)) all.1 (inr (unfold starts_with in refl))
      (dots_segment s clean all.0 c h)

no_dots :
    (part : List ℕ) → starts_with dot part ≡ false → (is_one_dot part || is_two_dots part) ≡ false
unfolding starts_with is_one_dot is_two_dots
no_dots [] h = refl
no_dots (x ∷ []) h = ground (arith, h)
no_dots (x ∷ y ∷ []) h = ground (arith, h)
no_dots (x ∷ y ∷ z ∷ part) h = refl

longer_start :
    (part : List ℕ) (x : ℕ) (xs : List ℕ)
    → starts_with dot part ≡ false
    → (length part == 0 && starts_with dot (x ∷ xs)) ≡ false
    → starts_with dot (part ++ (x ∷ [])) ≡ false
unfolding starts_with
longer_start [] x xs h a = a
longer_start (y ∷ part) x xs h a = h

-- A path whose slashes stand before neither a slash nor a dot has no segment of dots.
dots_from_calm :
    (part xs : List ℕ)
    → starts_with dot part ≡ false
    → (length part == 0 && starts_with dot xs) ≡ false
    → needs_sanitize xs ≡ false
    → dots_from part xs ≡ false
unfolding dots_from needs_sanitize
dots_from_calm part [] h a k = no_dots part h
dots_from_calm part (x ∷ xs) h a k =
    let quiet = no_dots part h in
    let next = λ (b : starts_with dot xs ≡ false) (c : needs_sanitize xs ≡ false).
      dots_from_calm [] xs (unfold starts_with in refl) (ground (arith, b)) c in
    let rest = λ (c : needs_sanitize xs ≡ false).
      dots_from_calm (part ++ (x ∷ [])) xs (longer_start part x xs h a)
        (ground (arith, length-append part (x ∷ []))) c in
    ground (arith, k, quiet, next, rest)

-- The quick test of a path is stricter than the loop.
pub quick_calm :
    (p : List ℕ) → contains dot p ≡ false → has_double_slash p ≡ false → needs_sanitize p ≡ false
unfolding contains has_double_slash needs_sanitize
quick_calm [] h d = refl
quick_calm (x ∷ xs) h d =
    let rest = quick_calm xs in
    let head : contains dot xs ≡ false → starts_with dot xs ≡ false = contains_start xs in
    ground (arith, h, d, rest, head)
  where
    contains_start : (xs : List ℕ) → contains dot xs ≡ false → starts_with dot xs ≡ false
    contains_start [] h = unfold starts_with in refl
    contains_start (x ∷ xs) h = unfold starts_with in ground (arith, h)

-- A path that the cleaning leaves alone.
abbrev pub IsCalm : List ℕ → Type 0
IsCalm p = (starts_with slash p ≡ true) × (needs_sanitize p ≡ false)

pub IsCalm-has_dot_segment : (p : List ℕ) → IsCalm p → has_dot_segment p ≡ false
IsCalm-has_dot_segment p (s, k) =
    dots_from_calm [] p (unfold starts_with in refl) (unfold starts_with in slash_first p s) k
  where
    slash_first : (p : List ℕ) → starts_with slash p ≡ true → (0 == 0 && starts_with dot p) ≡ false
    slash_first [] s = unfold starts_with in refl
    slash_first (x ∷ p) s = unfold starts_with in ground (arith, s)
