-- ===== src/H3/Request/Accepted.antt =====
-- core/h3_conn.go: a request that goes on to the handler has its frames in order.
use alos_http.Prelude.{
  ℕ, zero, suc, ◌≡◌, refl, List, [], ◌∷◌, ◌++◌, length, Option, none, some, ok, inl, inr,
  append_assoc, append-nil, ◌∙◌, sym, ap, subst,
}
use alos_http.H3.Frame.{next_frame}
use alos_http.H3.Request.{RequestParts, request, Reading, read_frames, read_request}
use alos_http.H3.Request.Order.{AFrame, FramesOf, Quiet, BodyOf, MessageOf, take_frame_step}
use alos_http.H3.Request.Steps.{frame_round_request, trailers_step, body_step, start_step}

module _ {M T : Type 0} (parts : RequestParts M T) where
  behind_trailers :
      (fuel : ℕ) (m meta : M) (x : T) (b bytes body : List ℕ) (trailers : Option T)
      → read_frames parts fuel (record { headers = some m; trailers = some x; body = b }) bytes
        ≡ request meta body trailers
      → (fs : List AFrame) × FramesOf bytes fs
        × Quiet fs
        × (m ≡ meta)
        × (b ≡ body)
        × (some x ≡ trailers)
  unfolding read_frames FramesOf Quiet
  behind_trailers zero m meta x b bytes body trailers h = absurd (cc)
  behind_trailers (suc fuel) m meta x b bytes body trailers h =
      let r : Reading M T = record { headers = some m; trailers = some x; body = b } in
      let again = read_frames parts fuel in
      elim (frame_round_request parts again r bytes (next_frame bytes) meta body trailers refl h) [
        | inl (e, hm, hb, ht) ↦ ([], e, _, cc, hb, ht)
        | inr ((t, payload, rest), e, g) ↦
            let (i, g') =
              trailers_step parts again m meta x b rest payload body trailers t _
                (take_frame_step parts r t payload) g in
            let (fs, of, quiet, hm, hb, ht) =
              behind_trailers fuel m meta x b rest body trailers g' in
            ((t, payload) ∷ fs, (rest, e, of), (i, quiet), hm, hb, ht)
      ]

  behind_headers :
      (fuel : ℕ) (m meta : M) (b bytes body : List ℕ) (trailers : Option T)
      → read_frames parts fuel (record { headers = some m; trailers = none; body = b }) bytes
        ≡ request meta body trailers
      → (fs : List AFrame) × (more : List ℕ) × FramesOf bytes fs
        × BodyOf parts fs more trailers
        × (m ≡ meta)
        × (b ++ more ≡ body)
  unfolding read_frames FramesOf BodyOf
  behind_headers zero m meta b bytes body trailers h = absurd (cc)
  behind_headers (suc fuel) m meta b bytes body trailers h =
      let r : Reading M T = record { headers = some m; trailers = none; body = b } in
      let again = read_frames parts fuel in
      elim (frame_round_request parts again r bytes (next_frame bytes) meta body trailers refl h) [
        | inl (e, hm, hb, ht) ↦ ([], [], e, (refl, sym ht), cc, append-nil b ∙ hb)
        | inr ((t, payload, rest), e, g) ↦
            elim (body_step parts again m meta b rest payload body trailers t _
              (take_frame_step parts r t payload) g) [
                | inl (i, g') ↦
                    let (fs, more, of, is, hm, hb) =
                      behind_headers fuel m meta b rest body trailers g' in
                    ((t, payload) ∷ fs, more, (rest, e, of), inr (inr (i, is)), hm, hb)
                | inr (inl (i, g')) ↦
                    let (fs, more, of, is, hm, hb) =
                      behind_headers fuel m meta (b ++ payload) rest body trailers g' in
                    (
                      (t, payload) ∷ fs,
                      payload ++ more,
                      (rest, e, of),
                      inl (i, (more, refl, is)),
                      hm,
                      sym (append_assoc b payload more) ∙ hb,
                    )
                | inr (inr (i, (fields, d, g'))) ↦
                    let (fs, of, quiet, hm, hb, ht) =
                      behind_trailers fuel m meta fields b rest body trailers g' in
                    (
                      (t, payload) ∷ fs,
                      [],
                      (rest, e, of),
                      inr (inl (i, refl, (fields, d, sym ht, quiet))),
                      hm,
                      append-nil b ∙ hb,
                    )
              ]
      ]

  from_start :
      (fuel : ℕ) (meta : M) (bytes body : List ℕ) (trailers : Option T)
      → read_frames parts fuel (record { headers = none; trailers = none; body = [] }) bytes
        ≡ request meta body trailers
      → (fs : List AFrame) × FramesOf bytes fs × MessageOf parts fs meta body trailers
  unfolding read_frames FramesOf MessageOf
  from_start zero meta bytes body trailers h = absurd (cc)
  from_start (suc fuel) meta bytes body trailers h =
      let r : Reading M T = record { headers = none; trailers = none; body = [] } in
      let again = read_frames parts fuel in
      elim (frame_round_request parts again r bytes (next_frame bytes) meta body trailers refl h) [
        | inl (e, hm, hb, ht) ↦ absurd (cc)
        | inr ((t, payload, rest), e, g) ↦
            elim (start_step parts again meta rest payload body trailers t _
              (take_frame_step parts r t payload) g) [
                | inl (i, g') ↦
                    let (fs, of, is) = from_start fuel meta rest body trailers g' in
                    ((t, payload) ∷ fs, (rest, e, of), inr (i, is))
                | inr (i, (m, d, g')) ↦
                    let (fs, more, of, is, hm, hb) =
                      behind_headers fuel m meta [] rest body trailers g' in
                    (
                      (t, payload) ∷ fs,
                      (rest, e, of),
                      inl (i, d ∙ ap ok hm, subst (λ q. BodyOf parts fs q trailers) hb is),
                    )
              ]
      ]

  -- A request that goes on to the handler is made of frames in order: one with its headers before any
  -- data, data that make up its body, and at most one with its trailers behind them; between them lie
  -- only frames of types that mean nothing to a request.
  pub read_request_ordered :
      (bytes : List ℕ) (meta : M) (body : List ℕ) (trailers : Option T)
      → read_request parts bytes ≡ request meta body trailers
      → (fs : List AFrame) × FramesOf bytes fs × MessageOf parts fs meta body trailers
  unfolding read_request
  read_request_ordered bytes meta body trailers h =
      from_start (suc (length bytes)) meta bytes body trailers h
