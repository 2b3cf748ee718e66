-- ===== src/H3/Tests.antt =====
-- Requests of HTTP/3: runs, and the theorems at concrete inputs.
use alos_http.Prelude.{ℕ, ◌≡◌, ◌≢◌, refl, ltb, true, List, [], ◌∷◌, none, some, ok, arith}
use alos_http.H3.Request.{RequestParts, request, unread, read_request, wrong_length}
use alos_http.H3.Request.Total.{read_request_settled}
use alos_http.H3.Request.Order.{AFrame, FramesOf, MessageOf}
use alos_http.H3.Request.Accepted.{read_request_ordered}
use alos_http.H3.Request.RoundTrip.{write_request, join_body, Trails, read_request-write_request}

-- Sections that decode to themselves, a limit of 1000 bytes, and no declared length.
abbrev plain_parts : RequestParts (List ℕ) (List ℕ)
plain_parts = record {
  decode_request = λ block. ok block;
  decode_trailers = λ block. ok block;
  body_too_large = λ n. ltb 1000 n;
  has_path = λ m. true;
  declared_length = λ m. none;
}

-- The body comes in two pieces, and trailers behind it.
read_request-write_request_example :
    read_request plain_parts (write_request (7 ∷ []) ((1 ∷ 2 ∷ []) ∷ (3 ∷ []) ∷ []) (some (9 ∷ [])))
    ≡ request (7 ∷ []) (join_body ((1 ∷ 2 ∷ []) ∷ (3 ∷ []) ∷ [])) (some (9 ∷ []))
read_request-write_request_example =
    read_request-write_request plain_parts (7 ∷ []) (7 ∷ []) ((1 ∷ 2 ∷ []) ∷ (3 ∷ []) ∷ [])
      (some (9 ∷ [])) (some (9 ∷ [])) (omega arith) refl (omega arith, (omega arith, _))
      (unfold Trails in (omega arith, (9 ∷ [], refl, refl)))
      (unfold wrong_length join_body in
        record { path = refl; declared = refl; small = λ n le. ground (arith, le) })

read_request_ordered_example :
    (fs : List AFrame) × FramesOf
      (write_request (7 ∷ []) ((1 ∷ 2 ∷ []) ∷ (3 ∷ []) ∷ []) (some (9 ∷ [])))
      fs
    × MessageOf plain_parts fs (7 ∷ []) (join_body ((1 ∷ 2 ∷ []) ∷ (3 ∷ []) ∷ [])) (some (9 ∷ []))
read_request_ordered_example =
    read_request_ordered plain_parts
      (write_request (7 ∷ []) ((1 ∷ 2 ∷ []) ∷ (3 ∷ []) ∷ []) (some (9 ∷ []))) (7 ∷ [])
      (join_body ((1 ∷ 2 ∷ []) ∷ (3 ∷ []) ∷ [])) (some (9 ∷ [])) read_request-write_request_example

read_request_settled_example : read_request plain_parts (1 ∷ 2 ∷ 3 ∷ []) ≢ unread
read_request_settled_example = read_request_settled plain_parts (1 ∷ 2 ∷ 3 ∷ [])
