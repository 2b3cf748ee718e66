-- ===== src/H3/Request.antt =====
-- core/h3_conn.go: handleRequest up to the dispatch, on the bytes of a request stream. The decoder of
-- field sections and the limit of a body are a parameter.
pub mod Total
pub mod Order
pub mod Steps
pub mod Accepted
pub mod RoundTrip
use alos_http.Prelude.{
  ℕ, zero, suc, ◌+◌, leb, ltb, ◌==◌, not, ◌&&◌, ◌||◌, Bool, true, false, List, [], ◌∷◌, ◌++◌,
  length, if◌then◌else◌, Option, none, some, Result, ok, err,
}
use alos_http.H3.Frame.{
  frame_data, frame_headers, frame_cancel_push, frame_settings, frame_push_promise, frame_goaway,
  frame_max_push_id, reserved_from_http2, next_frame,
}

-- What `handleRequest` uses: `decodeRequestSection` and `decodeTrailerSection`, which answer with a
-- status where they refuse, `bodyTooLarge`, and of the metadata whether there is a path and the
-- declared length.
pub record RequestParts (M T : Type 0) : Type 0 where
  pub decode_request : List ℕ → Result ℕ M
  pub decode_trailers : List ℕ → Result ℕ T
  pub body_too_large : ℕ → Bool
  pub has_path : M → Bool
  pub declared_length : M → Option ℕ

-- How a request stream ends: the connection is closed for a truncated frame or for a frame out of
-- place, the request is rejected with a status, or it goes on to the handler. `unread` is the end of
-- the fuel.
pub data RequestEnd (M T : Type 0) : Type 0 where
  truncated : RequestEnd M T
  unexpected : RequestEnd M T
  status : ℕ → RequestEnd M T
  request : M → List ℕ → Option T → RequestEnd M T
  unread : RequestEnd M T

-- `headersSeen` with the metadata, `trailersSeen` with the trailers, and `req.Body`.
pub record Reading (M T : Type 0) : Type 0 where
  pub headers : Option M
  pub trailers : Option T
  pub body : List ℕ

-- The types that may only come on a control stream, or on a push stream.
unfoldable pub for_control_stream : ℕ → Bool
for_control_stream t =
    t == frame_settings
    || t == frame_goaway
    || t == frame_max_push_id
    || t == frame_cancel_push
    || t == frame_push_promise

-- Whether a declared length, where there is one, is not that of the body.
unfoldable pub wrong_length : Option ℕ → ℕ → Bool
wrong_length none n = false
wrong_length (some declared) n = not (declared == n)

module _ {A : Type 0} where
  unfoldable pub is_seen : Option A → Bool
  is_seen none = false
  is_seen (some a) = true

module _ {M T : Type 0} (parts : RequestParts M T) where
  -- A section of request headers, or of trailers, as it is decoded.
  unfoldable pub with_headers : Reading M T → Result ℕ M → Result (RequestEnd M T) (Reading M T)
  with_headers r (err code) = err (status code)
  with_headers r (ok meta) = ok (record r { headers = some meta })

  unfoldable pub with_trailers : Reading M T → Result ℕ T → Result (RequestEnd M T) (Reading M T)
  with_trailers r (err code) = err (status code)
  with_trailers r (ok fields) = ok (record r { trailers = some fields })

  unfoldable pub take_headers : Reading M T → List ℕ → Result (RequestEnd M T) (Reading M T)
  take_headers r payload =
      if is_seen r.headers
      then with_trailers r (parts.decode_trailers payload)
      else with_headers r (parts.decode_request payload)

  unfoldable pub take_body : Reading M T → List ℕ → Result (RequestEnd M T) (Reading M T)
  take_body r payload =
      if parts.body_too_large (length (r.body ++ payload))
      then err (status 413)
      else ok (record r { body = r.body ++ payload })

  -- One frame: the request ends there, or reading goes on.
  unfoldable pub take_frame : Reading M T → ℕ → List ℕ → Result (RequestEnd M T) (Reading M T)
  take_frame r t payload =
      if t == frame_headers
      then if is_seen r.trailers then err unexpected else take_headers r payload
      else if t == frame_data
      then if not (is_seen r.headers) || is_seen r.trailers
        then err unexpected
        else take_body r payload
      else if for_control_stream t
      then err unexpected
      else if reserved_from_http2 t
      then err unexpected
      else ok r

  -- The checks behind the loop.
  unfoldable pub end_with : Reading M T → Option M → RequestEnd M T
  end_with r none = status 400
  end_with r (some meta) =
      if not (parts.has_path meta) || wrong_length (parts.declared_length meta) (length r.body)
      then status 400
      else request meta r.body r.trailers

  unfoldable pub end_request : Reading M T → RequestEnd M T
  end_request r = end_with r r.headers

  -- What follows a frame, and a round of the loop.
  unfoldable pub after_frame :
      (Reading M T → List ℕ → RequestEnd M T)
      → List ℕ
      → Result (RequestEnd M T) (Reading M T)
      → RequestEnd M T
  after_frame again rest (err end) = end
  after_frame again rest (ok r) = again r rest

  unfoldable pub frame_round :
      (Reading M T → List ℕ → RequestEnd M T)
      → Reading M T
      → List ℕ
      → Option (ℕ × List ℕ × List ℕ)
      → RequestEnd M T
  frame_round again r bytes none = if length bytes == 0 then end_request r else truncated
  frame_round again r bytes (some (t, payload, rest)) =
      after_frame again rest (take_frame r t payload)

  -- The loop, with one round of fuel for each byte and one more.
  unfoldable pub read_frames : ℕ → Reading M T → List ℕ → RequestEnd M T
  read_frames zero r bytes = unread
  read_frames (suc fuel) r bytes = frame_round (read_frames fuel) r bytes (next_frame bytes)

  unfoldable pub read_request : List ℕ → RequestEnd M T
  read_request bytes =
      read_frames (suc (length bytes)) (record { headers = none; trailers = none; body = [] }) bytes
