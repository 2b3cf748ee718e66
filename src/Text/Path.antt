-- ===== src/Text/Path.antt =====
-- core/utils.go: the path of a request, cleaned of dot segments and of empty ones. A string is the
-- list of its bytes.
pub mod Segments
pub mod Dots
pub mod Clean
use alos_http.Prelude.{
  ℕ, zero, suc, ◌+◌, ltb, ◌==◌, Bool, true, false, not, ◌&&◌, ◌||◌, List, [], ◌∷◌, ◌++◌, length,
  if◌then◌else◌,
}

abbrev pub slash : ℕ
slash = 47

abbrev pub dot : ℕ
dot = 46

-- `strings.IndexByte` and the slice before the byte, and the bytes behind it.
unfoldable pub cut_before : ℕ → List ℕ → List ℕ
cut_before c [] = []
cut_before c (x ∷ xs) = let rest = cut_before c xs in if x == c then [] else x ∷ rest

unfoldable pub cut_behind : ℕ → List ℕ → List ℕ
cut_behind c [] = []
cut_behind c (x ∷ xs) = let rest = cut_behind c xs in if x == c then xs else rest

unfoldable pub split_path_query : List ℕ → List ℕ × List ℕ
split_path_query raw = (cut_before 63 raw, cut_behind 63 raw)

-- `strings.IndexByte(p, c) >= 0`, and `strings.Contains(p, "//")`.
unfoldable pub contains : ℕ → List ℕ → Bool
contains c [] = false
contains c (x ∷ xs) = x == c || contains c xs

unfoldable pub starts_with : ℕ → List ℕ → Bool
starts_with c [] = false
starts_with c (x ∷ xs) = x == c

unfoldable pub has_double_slash : List ℕ → Bool
has_double_slash [] = false
has_double_slash (x ∷ xs) = (x == slash && starts_with slash xs) || has_double_slash xs

-- The loop that looks for a slash before a slash or a dot.
unfoldable pub needs_sanitize : List ℕ → Bool
needs_sanitize [] = false
needs_sanitize (x ∷ xs) =
    (x == slash && (starts_with slash xs || starts_with dot xs)) || needs_sanitize xs

-- A segment goes on the stack, which is held with the last one first; `.` and the empty one are
-- left out, and `..` takes the last one off.
unfoldable pub is_one_dot : List ℕ → Bool
is_one_dot [] = false
is_one_dot (x ∷ []) = x == dot
is_one_dot (x ∷ y ∷ xs) = false

unfoldable pub is_two_dots : List ℕ → Bool
is_two_dots [] = false
is_two_dots (x ∷ []) = false
is_two_dots (x ∷ y ∷ []) = x == dot && y == dot
is_two_dots (x ∷ y ∷ z ∷ xs) = false

unfoldable pub drop_last_segment : List (List ℕ) → List (List ℕ)
drop_last_segment [] = []
drop_last_segment (s ∷ ss) = ss

unfoldable pub push_segment : List ℕ → List (List ℕ) → List (List ℕ)
push_segment seg segments =
    if is_one_dot seg || length seg == 0
    then segments
    else if is_two_dots seg
    then drop_last_segment segments
    else seg ∷ segments

-- The loop over the bytes, with the bytes of the segment that is open.
unfoldable pub split_segments : List ℕ → List ℕ → List (List ℕ) → List (List ℕ)
split_segments part [] segments = push_segment part segments
split_segments part (x ∷ xs) segments =
    let closed = split_segments [] xs (push_segment part segments) in
    let longer = split_segments (part ++ (x ∷ [])) xs segments in
    if x == slash then closed else longer

-- `clean`: each segment behind a slash.
unfoldable pub join_segments : List (List ℕ) → List ℕ → List ℕ
join_segments [] clean = clean
join_segments (s ∷ ss) clean = join_segments ss (slash ∷ (s ++ clean))

-- `"/" + p` where the slash is missing, and the loop from index 1 on.
unfoldable pub clean_path : List ℕ → List ℕ
clean_path [] = slash ∷ []
clean_path (x ∷ xs) =
    let segments = if x == slash then split_segments [] xs [] else split_segments [] (x ∷ xs) [] in
    if length segments == 0 then slash ∷ [] else join_segments segments []

unfoldable pub sanitize_split_path : List ℕ → List ℕ
sanitize_split_path p =
    if length p == 0
    then slash ∷ []
    else if starts_with slash p && not (contains dot p) && not (has_double_slash p)
    then p
    else if not (not (starts_with slash p) || needs_sanitize p)
    then p
    else clean_path p

unfoldable pub sanitize_request_path : List ℕ → List ℕ
sanitize_request_path path =
    sanitize_split_path (split_path_query (cut_before 10 (cut_before 13 (cut_before 0 path)))).0
