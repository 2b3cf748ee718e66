-- ===== src/Chunked/Body.antt =====
-- core/http_redirect.go: `readHTTPRouteChunkedBody`, which decodes what it has and reads more when
-- the decoder wants it. A read gives a list of bytes; the end of the reads is a read error. The
-- interim answer that the code may send before the first read is left out.
pub mod Rounds
pub mod Steps
pub mod Segments
pub mod Reads
pub mod Whole
pub mod Segmentation
use alos_http.Prelude.{
  ℕ, zero, suc, ◌+◌, ltb, ◌==◌, ◌&&◌, ◌||◌, length, drop, List, [], ◌∷◌, ◌++◌, Bool, true, false,
  if◌then◌else◌,
}
use alos_http.Chunked.Next.{Decoder, DecoderState, Answer, took, malformed, next, new_decoder}
use alos_http.Chunked.Feed.{is_done}

-- `MaxBodySize`, and the read cap, which is 0 here where it is unlimited.
abbrev pub Limits : Type 0
Limits = ℕ × ℕ

unfoldable pub request_body_too_large : Limits → ℕ → Bool
request_body_too_large (max_body, read_cap) n =
    ltb 0 max_body && ltb max_body n || ltb 0 read_cap && ltb read_cap n

-- What the loop has come to when it has no more to do with its input.
pub data Stage : Type 0 where
  wants_more : Decoder → List ℕ → List ℕ → Stage
  complete_body : List ℕ → Stage
  bad_request : Stage
  content_too_large : Stage
  out_of_fuel : Stage

unfoldable pub decode_round :
    (Decoder → List ℕ → List ℕ → Stage) → Limits → List ℕ → List ℕ → Answer × Decoder → Stage
decode_round again limit body input (malformed, d) = bad_request
decode_round again limit body input (took n bytes, d) =
    if request_body_too_large limit (length (body ++ bytes))
    then content_too_large
    else if n == 0
    then wants_more d (body ++ bytes) input
    else again d (body ++ bytes) (drop n input)

-- The rounds up to the next read.
unfoldable pub decode_rounds : ℕ → Limits → Decoder → List ℕ → List ℕ → Stage
decode_rounds zero limit d body input = out_of_fuel
decode_rounds (suc fuel) limit d body input =
    if is_done d.state
    then complete_body body
    else decode_round (decode_rounds fuel limit) limit body input (next d input)

pub data BodyResult : Type 0 where
  body_read : List ℕ → BodyResult
  status : ℕ → BodyResult
  read_error : BodyResult
  stuck_body : BodyResult

unfoldable pub after_rounds : (Decoder → List ℕ → List ℕ → BodyResult) → Stage → BodyResult
after_rounds read (wants_more d body input) = read d body input
after_rounds read (complete_body body) = body_read body
after_rounds read bad_request = status 400
after_rounds read content_too_large = status 413
after_rounds read out_of_fuel = stuck_body

-- The rounds on an input and one round more, and the reads.
unfoldable pub read_rest_of_body : Limits → List (List ℕ) → Decoder → List ℕ → List ℕ → BodyResult
read_rest_of_body limit [] d body input =
    after_rounds (λ d' body' input'. read_error)
      (decode_rounds (suc (length input)) limit d body input)
read_rest_of_body limit (r ∷ reads) d body input =
    after_rounds (λ d' body' input'. read_rest_of_body limit reads d' body' (input' ++ r))
      (decode_rounds (suc (length input)) limit d body input)

unfoldable pub read_http_route_chunked_body : Limits → List ℕ → List (List ℕ) → BodyResult
read_http_route_chunked_body limit input reads =
    read_rest_of_body limit reads (new_decoder false) [] input
