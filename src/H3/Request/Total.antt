-- ===== src/H3/Request/Total.antt =====
-- core/h3_conn.go: reading a request stream comes to an end.
use alos_http.Prelude.{
  ℕ, zero, suc, ◌<◌, ◌≡◌, ◌≢◌, refl, ◌==◌, not, ◌||◌, Bool, true, false, List, [], ◌++◌, length,
  Option, none, some, Result, ok, err, arith, Bool-cases, inl, inr,
}
use alos_http.H3.Frame.{next_frame, frame_headers, frame_data, reserved_from_http2}
use alos_http.H3.Frame.Reading.{next_frame_takes}
use alos_http.H3.Request.{
  RequestParts, RequestEnd, truncated, unexpected, status, request, unread, Reading, with_headers,
  with_trailers, take_headers, take_body, take_frame, for_control_stream, is_seen, end_with,
  end_request, after_frame, frame_round, read_frames, read_request,
}

module _ {M T : Type 0} where
  -- Whether an end is not the end of the fuel.
  unfoldable pub is_settled : RequestEnd M T → Bool
  is_settled truncated = true
  is_settled unexpected = true
  is_settled (status code) = true
  is_settled (request meta body trailers) = true
  is_settled unread = false

  -- An answer to a frame that is no end of the fuel.
  unfoldable pub IsSettling : Result (RequestEnd M T) (Reading M T) → Type 0
  IsSettling (err end) = is_settled end ≡ true
  IsSettling (ok r) = Unit

module _ {M T : Type 0} (parts : RequestParts M T) where
  with_headers-IsSettling : (r : Reading M T) (d : Result ℕ M) → IsSettling (with_headers parts r d)
  unfolding with_headers IsSettling is_settled
  with_headers-IsSettling r (err code) = refl
  with_headers-IsSettling r (ok meta) = _

  with_trailers-IsSettling :
      (r : Reading M T) (d : Result ℕ T) → IsSettling (with_trailers parts r d)
  unfolding with_trailers IsSettling is_settled
  with_trailers-IsSettling r (err code) = refl
  with_trailers-IsSettling r (ok fields) = _

  take_headers-IsSettling :
      (r : Reading M T) (payload : List ℕ) → IsSettling (take_headers parts r payload)
  unfolding take_headers
  take_headers-IsSettling r payload = elim (Bool-cases (is_seen r.headers)) [
    | inl e ↦ rw e (with_trailers-IsSettling r (parts.decode_trailers payload))
    | inr e ↦ rw e (with_headers-IsSettling r (parts.decode_request payload))
  ]

  take_body-IsSettling :
      (r : Reading M T) (payload : List ℕ) → IsSettling (take_body parts r payload)
  unfolding take_body IsSettling is_settled
  take_body-IsSettling r payload =
      elim (Bool-cases (parts.body_too_large (length (r.body ++ payload)))) [
        | inl e ↦ rw e refl
        | inr e ↦ rw e _
      ]

  take_frame-IsSettling :
      (r : Reading M T) (t : ℕ) (payload : List ℕ) → IsSettling (take_frame parts r t payload)
  unfolding take_frame IsSettling is_settled
  take_frame-IsSettling r t payload =
      let misplaced = not (is_seen r.headers) || is_seen r.trailers in
      elim (Bool-cases (t == frame_headers)) [
        | inl a ↦ elim (Bool-cases (is_seen r.trailers)) [
          | inl b ↦ rw (a, b) refl
          | inr b ↦ rw (a, b) (take_headers-IsSettling r payload)
        ]
        | inr a ↦ elim (Bool-cases (t == frame_data)) [
          | inl b ↦ elim (Bool-cases misplaced) [
            | inl c ↦ rw (a, b, c) refl
            | inr c ↦ rw (a, b, c) (take_body-IsSettling r payload)
          ]
          | inr b ↦ elim (Bool-cases (for_control_stream t)) [
            | inl c ↦ rw (a, b, c) refl
            | inr c ↦ elim (Bool-cases (reserved_from_http2 t)) [
              | inl d ↦ rw (a, b, c, d) refl
              | inr d ↦ rw (a, b, c, d) _
            ]
          ]
        ]
      ]

  end_with_settled : (r : Reading M T) (m : Option M) → is_settled (end_with parts r m) ≡ true
  unfolding end_with is_settled
  end_with_settled r none = refl
  end_with_settled r (some meta) = ground arith

  -- An answer to a frame, where what follows is settled.
  after_frame_settled :
      (again : Reading M T → List ℕ → RequestEnd M T) (rest : List ℕ)
      (a : Result (RequestEnd M T) (Reading M T))
      → IsSettling a
      → ((r : Reading M T) → is_settled (again r rest) ≡ true)
      → is_settled (after_frame parts again rest a) ≡ true
  unfolding after_frame IsSettling
  after_frame_settled again rest (err end) h k = h
  after_frame_settled again rest (ok r) h k = k r

  round_settled :
      (again : Reading M T → List ℕ → RequestEnd M T) (r : Reading M T) (bytes : List ℕ)
      (o : Option (ℕ × List ℕ × List ℕ))
      → next_frame bytes ≡ o
      → ((r : Reading M T) (rest : List ℕ)
          → length rest < length bytes
          → is_settled (again r rest) ≡ true)
      → is_settled (frame_round parts again r bytes o) ≡ true
  unfolding frame_round end_request
  round_settled again r bytes none e k = elim (Bool-cases (length bytes == 0)) [
    | inl a ↦ rw a (end_with_settled r r.headers)
    | inr a ↦ rw a (unfold is_settled in refl)
  ]
  round_settled again r bytes (some (t, payload, rest)) e k =
      after_frame_settled again rest (take_frame parts r t payload)
        (take_frame-IsSettling r t payload)
        (λ r'. k r' rest (next_frame_takes bytes t payload rest e))

  read_frames_settled :
      (fuel : ℕ) (r : Reading M T) (bytes : List ℕ)
      → length bytes < fuel
      → is_settled (read_frames parts fuel r bytes) ≡ true
  unfolding read_frames
  read_frames_settled zero r bytes h = absurd (omega arith)
  read_frames_settled (suc fuel) r bytes h =
      round_settled (read_frames parts fuel) r bytes (next_frame bytes) refl
        (λ r' rest lt. read_frames_settled fuel r' rest (omega arith))

  -- Reading a request stream never runs out of fuel: it ends with an error, a status or a request.
  pub read_request_settled : (bytes : List ℕ) → read_request parts bytes ≢ unread
  unfolding read_request
  read_request_settled bytes e =
      let start : Reading M T = record { headers = none; trailers = none; body = [] } in
      let settled = read_frames_settled (suc (length bytes)) start bytes (omega arith) in
      absurd (unfold is_settled in cc)
