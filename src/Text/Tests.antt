-- ===== src/Text/Tests.antt =====
-- The path functions: runs, and the theorem at a concrete path.
use alos_http.Prelude.{◌≡◌, refl, [], ◌∷◌}
use alos_http.Text.Path.{
  sanitize_request_path, sanitize_split_path, split_path_query, cut_before, cut_behind, contains,
  starts_with, has_double_slash, needs_sanitize, clean_path, split_segments, push_segment,
  is_one_dot, is_two_dots, drop_last_segment, join_segments,
}
use alos_http.Text.Path.Clean.{IsClean, sanitize_split_path-IsClean}

-- `/a/./b/../c?x` gives `/a/c`.
run_sanitize :
    sanitize_request_path (47 ∷ 97 ∷ 47 ∷ 46 ∷ 47 ∷ 98 ∷ 47 ∷ 46 ∷ 46 ∷ 47 ∷ 99 ∷ 63 ∷ 120 ∷ [])
    ≡ 47 ∷ 97 ∷ 47 ∷ 99 ∷ []
unfolding sanitize_request_path sanitize_split_path split_path_query cut_before cut_behind contains
    starts_with has_double_slash needs_sanitize clean_path split_segments push_segment is_one_dot
    is_two_dots drop_last_segment join_segments
run_sanitize = refl

sanitize_split_path-IsClean_example :
    IsClean (sanitize_split_path (47 ∷ 46 ∷ 46 ∷ 47 ∷ 47 ∷ 97 ∷ []))
sanitize_split_path-IsClean_example = sanitize_split_path-IsClean (47 ∷ 46 ∷ 46 ∷ 47 ∷ 47 ∷ 97 ∷ [])
