-- ===== src/H3/Request/Order.antt =====
-- core/h3_conn.go: the order of the frames of a request that goes on to the handler.
use alos_http.Prelude.{
  ℕ, ◌≡◌, ◌⊎◌, refl, ◌==◌, not, ◌||◌, Bool, true, false, List, [], ◌∷◌, ◌++◌, length, Option, none,
  some, Result, ok, err, arith, Bool-cases, inl, inr,
}
use alos_http.H3.Frame.{next_frame, frame_headers, frame_data, reserved_from_http2}
use alos_http.H3.Request.{
  RequestParts, RequestEnd, truncated, unexpected, status, request, unread, Reading,
  for_control_stream, is_seen, with_headers, with_trailers, take_headers, take_body, take_frame,
}

-- A frame by its type and payload, and the frames that bytes are made of.
abbrev pub AFrame : Type 0
AFrame = ℕ × List ℕ

unfoldable pub FramesOf : List ℕ → List AFrame → Type 0
FramesOf bytes [] = bytes ≡ []
FramesOf bytes ((t, payload) ∷ fs) =
    (rest : List ℕ) × (next_frame bytes ≡ some (t, payload, rest)) × FramesOf rest fs

-- Frames of types that mean nothing to a request are passed over.
unfoldable pub is_ignored : ℕ → Bool
is_ignored t =
    not (t == frame_headers || t == frame_data || for_control_stream t || reserved_from_http2 t)

-- Behind the trailers, and behind the request headers: data, that make up the body, and at the end
-- perhaps trailers.
unfoldable pub Quiet : List AFrame → Type 0
Quiet [] = Unit
Quiet ((t, payload) ∷ fs) = (is_ignored t ≡ true) × Quiet fs

module _ {M T : Type 0} (parts : RequestParts M T) where
  unfoldable pub BodyOf : List AFrame → List ℕ → Option T → Type 0
  BodyOf [] body trailers = (body ≡ []) × (trailers ≡ none)
  BodyOf ((t, payload) ∷ fs) body trailers =
      ((t ≡ frame_data) × ((more : List ℕ) × (body ≡ payload ++ more) × BodyOf fs more trailers))
      ⊎ (((t ≡ frame_headers)
            × (body ≡ [])
            × ((fields : T) × (parts.decode_trailers payload ≡ ok fields)
                × (trailers ≡ some fields)
                × Quiet fs))
          ⊎ ((is_ignored t ≡ true) × BodyOf fs body trailers))

  -- A whole message: the request headers before all else.
  unfoldable pub MessageOf : List AFrame → M → List ℕ → Option T → Type 0
  MessageOf [] meta body trailers = true ≡ false
  MessageOf ((t, payload) ∷ fs) meta body trailers =
      ((t ≡ frame_headers) × (parts.decode_request payload ≡ ok meta) × BodyOf fs body trailers)
      ⊎ ((is_ignored t ≡ true) × MessageOf fs meta body trailers)

module _ {M T : Type 0} where
  unfoldable pub is_request : RequestEnd M T → Bool
  is_request truncated = false
  is_request unexpected = false
  is_request (status code) = false
  is_request (request meta body trailers) = true
  is_request unread = false

-- What a frame can do to the state: refuse it, pass over it, add data, or take a section.
pub data FrameStep {M T : Type 0} (parts : RequestParts M T) (r : Reading M T) (t : ℕ)
    (payload : List ℕ) (a : Result (RequestEnd M T) (Reading M T)) : Type 0 where
  refuses : (e : RequestEnd M T) → a ≡ err e → is_request e ≡ false → FrameStep parts r t payload a
  passes : is_ignored t ≡ true → a ≡ ok r → FrameStep parts r t payload a
  adds :
      t ≡ frame_data
      → is_seen r.headers ≡ true
      → is_seen r.trailers ≡ false
      → a ≡ ok (record r { body = r.body ++ payload })
      → FrameStep parts r t payload a
  heads :
      t ≡ frame_headers
      → is_seen r.headers ≡ false
      → (meta : M) → parts.decode_request payload ≡ ok meta
      → a ≡ ok (record r { headers = some meta })
      → FrameStep parts r t payload a
  trails :
      t ≡ frame_headers
      → is_seen r.headers ≡ true
      → is_seen r.trailers ≡ false
      → (fields : T) → parts.decode_trailers payload ≡ ok fields
      → a ≡ ok (record r { trailers = some fields })
      → FrameStep parts r t payload a

module _ {M T : Type 0} (parts : RequestParts M T) where
  with_headers_step :
      (r : Reading M T) (t : ℕ) (payload : List ℕ) (d : Result ℕ M)
      → t ≡ frame_headers
      → is_seen r.headers ≡ false
      → parts.decode_request payload ≡ d
      → FrameStep parts r t payload (with_headers parts r d)
  unfolding with_headers is_request
  with_headers_step r t payload (err code) e a b = refuses (status code) refl refl
  with_headers_step r t payload (ok meta) e a b = heads e a meta b refl

  with_trailers_step :
      (r : Reading M T) (t : ℕ) (payload : List ℕ) (d : Result ℕ T)
      → t ≡ frame_headers
      → is_seen r.headers ≡ true
      → is_seen r.trailers ≡ false
      → parts.decode_trailers payload ≡ d
      → FrameStep parts r t payload (with_trailers parts r d)
  unfolding with_trailers is_request
  with_trailers_step r t payload (err code) e a b c = refuses (status code) refl refl
  with_trailers_step r t payload (ok fields) e a b c = trails e a b fields c refl

  pub take_frame_step :
      (r : Reading M T) (t : ℕ) (payload : List ℕ)
      → FrameStep parts r t payload (take_frame parts r t payload)
  unfolding take_frame take_headers take_body is_request
  take_frame_step r t payload =
      let misplaced = not (is_seen r.headers) || is_seen r.trailers in
      elim (Bool-cases (t == frame_headers)) [
        | inl a ↦
            let at_headers : t ≡ frame_headers = ground (arith, a) in
            elim (Bool-cases (is_seen r.trailers)) [
              | inl b ↦ rw (a, b) (refuses unexpected refl refl)
              | inr b ↦ elim (Bool-cases (is_seen r.headers)) [
                | inl c ↦
                    rw (a, b, c)
                      (with_trailers_step r t payload (parts.decode_trailers payload) at_headers c b
                        refl)
                | inr c ↦
                    rw (a, b, c)
                      (with_headers_step r t payload (parts.decode_request payload) at_headers c
                        refl)
              ]
            ]
        | inr a ↦ elim (Bool-cases (t == frame_data)) [
          | inl b ↦ elim (Bool-cases misplaced) [
            | inl c ↦ rw (a, b, c) (refuses unexpected refl refl)
            | inr c ↦ elim (Bool-cases (parts.body_too_large (length (r.body ++ payload)))) [
              | inl d ↦ rw (a, b, c, d) (refuses (status 413) refl refl)
              | inr d ↦
                  rw (a, b, c, d)
                    (adds (ground (arith, b)) (ground (arith, c)) (ground (arith, c)) refl)
            ]
          ]
          | inr b ↦ elim (Bool-cases (for_control_stream t)) [
            | inl c ↦ rw (a, b, c) (refuses unexpected refl refl)
            | inr c ↦ elim (Bool-cases (reserved_from_http2 t)) [
              | inl d ↦ rw (a, b, c, d) (refuses unexpected refl refl)
              | inr d ↦
                  let ignored : is_ignored t ≡ true =
                    unfold is_ignored in ground (arith, a, b, c, d) in
                  rw (a, b, c, d) (passes ignored refl)
            ]
          ]
        ]
      ]
