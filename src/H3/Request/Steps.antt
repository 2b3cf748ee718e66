-- ===== src/H3/Request/Steps.antt =====
-- core/h3_conn.go: one round of the loop on the way to a request.
use alos_http.Prelude.{
  ℕ, ◌≡◌, ◌⊎◌, refl, ◌==◌, not, ◌||◌, true, false, List, [], ◌∷◌, ◌++◌, length, Option, none, some,
  Result, ok, arith, Bool-cases, inl, inr, ◌∙◌, sym, ap,
}
use alos_http.H3.Frame.{next_frame, frame_headers, frame_data}
use alos_http.H3.Request.{
  RequestParts, RequestEnd, truncated, status, request, Reading, is_seen, wrong_length, take_frame,
  end_with, end_request, after_frame, frame_round,
}
use alos_http.H3.Request.Order.{
  is_ignored, is_request, FrameStep, refuses, passes, adds, heads, trails,
}

module _ {M T : Type 0} (parts : RequestParts M T) where
  -- The end of the loop: the request that goes on is the one that was read.
  end_with_request :
      (r : Reading M T) (m : Option M) (meta : M) (body : List ℕ) (trailers : Option T)
      → end_with parts r m ≡ request meta body trailers
      → (m ≡ some meta) × (r.body ≡ body) × (r.trailers ≡ trailers)
  unfolding end_with
  end_with_request r none meta body trailers e = absurd (cc)
  end_with_request r (some m) meta body trailers e =
      let wrong =
        not (parts.has_path m) || wrong_length (parts.declared_length m) (length r.body) in
      elim (Bool-cases wrong) [
        | inl b ↦ absurd (let e' : status 400 ≡ request meta body trailers = rw b at e in cc)
        | inr b ↦
            let e' : request m r.body r.trailers ≡ request meta body trailers = rw b at e in
            (cc, cc, cc)
      ]

  empty_bytes : (bytes : List ℕ) → (length bytes == 0) ≡ true → bytes ≡ []
  empty_bytes [] h = refl
  empty_bytes (x ∷ bytes) h = absurd (ground (arith, h))

  -- A round that leads to a request: the bytes end there, or a frame does not refuse.
  pub frame_round_request :
      (again : Reading M T → List ℕ → RequestEnd M T) (r : Reading M T) (bytes : List ℕ)
      (o : Option (ℕ × List ℕ × List ℕ)) (meta : M) (body : List ℕ) (trailers : Option T)
      → next_frame bytes ≡ o
      → frame_round parts again r bytes o ≡ request meta body trailers
      → ((bytes ≡ []) × (r.headers ≡ some meta) × (r.body ≡ body) × (r.trailers ≡ trailers))
        ⊎ ((f : ℕ × List ℕ × List ℕ) × (next_frame bytes ≡ some f)
            × (after_frame parts again f.2 (take_frame parts r f.0 f.1)
                ≡ request meta body trailers))
  unfolding frame_round end_request
  frame_round_request again r bytes none meta body trailers e f =
      elim (Bool-cases (length bytes == 0)) [
        | inl b ↦
            let end = end_with_request r r.headers meta body trailers (rw b at f) in
            inl (empty_bytes bytes b, end.0, end.1, end.2)
        | inr b ↦ absurd (let f' : truncated ≡ request meta body trailers = rw b at f in cc)
      ]
  frame_round_request again r bytes (some f) meta body trailers e h = inr (f, e, h)

  not_refused :
      (e : RequestEnd M T) (meta : M) (body : List ℕ) (trailers : Option T)
      → is_request e ≡ false
      → e ≡ request meta body trailers
      → true ≡ false
  unfolding is_request
  not_refused e meta body trailers n h = sym (ap is_request h) ∙ n

  -- Behind the trailers a frame is passed over.
  pub trailers_step :
      (again : Reading M T → List ℕ → RequestEnd M T) (m meta : M) (x : T)
      (b rest payload body : List ℕ) (trailers : Option T) (t : ℕ)
      (a : Result (RequestEnd M T) (Reading M T))
      → let r : Reading M T = record { headers = some m; trailers = some x; body = b } in
        FrameStep parts r t payload a
        → after_frame parts again rest a ≡ request meta body trailers
        → (is_ignored t ≡ true) × (again r rest ≡ request meta body trailers)
  unfolding after_frame is_seen
  trailers_step again m meta x b rest payload body trailers t a (refuses e q n) h = absurd (
      let h' : e ≡ request meta body trailers = rw q at h in
      let c : true ≡ false = not_refused e meta body trailers n h' in cc)
  trailers_step again m meta x b rest payload body trailers t a (passes i q) h = (i, rw q at h)
  trailers_step again m meta x b rest payload body trailers t a (adds i k l q) h = absurd (cc)
  trailers_step again m meta x b rest payload body trailers t a (heads i k d l q) h = absurd (cc)
  trailers_step again m meta x b rest payload body trailers t a (trails i k l d e q) h = absurd (cc)

  -- Behind the request headers a frame is passed over, or adds data, or has the trailers.
  pub body_step :
      (again : Reading M T → List ℕ → RequestEnd M T) (m meta : M) (b rest payload body : List ℕ)
      (trailers : Option T) (t : ℕ) (a : Result (RequestEnd M T) (Reading M T))
      → let r : Reading M T = record { headers = some m; trailers = none; body = b } in
        FrameStep parts r t payload a
        → after_frame parts again rest a ≡ request meta body trailers
        → ((is_ignored t ≡ true) × (again r rest ≡ request meta body trailers))
          ⊎ (((t ≡ frame_data)
                × (again (record r { body = b ++ payload }) rest ≡ request meta body trailers))
              ⊎ ((t ≡ frame_headers)
                  × ((fields : T) × (parts.decode_trailers payload ≡ ok fields)
                      × (again (record r { trailers = some fields }) rest
                          ≡ request meta body trailers))))
  unfolding after_frame is_seen
  body_step again m meta b rest payload body trailers t a (refuses e q n) h = absurd (
      let h' : e ≡ request meta body trailers = rw q at h in
      let c : true ≡ false = not_refused e meta body trailers n h' in cc)
  body_step again m meta b rest payload body trailers t a (passes i q) h = inl (i, rw q at h)
  body_step again m meta b rest payload body trailers t a (adds i k l q) h =
      inr (inl (i, rw q at h))
  body_step again m meta b rest payload body trailers t a (heads i k d l q) h = absurd (cc)
  body_step again m meta b rest payload body trailers t a (trails i k l d e q) h =
      inr (inr (i, (d, e, rw q at h)))

  pub start_step :
      (again : Reading M T → List ℕ → RequestEnd M T) (meta : M) (rest payload body : List ℕ)
      (trailers : Option T) (t : ℕ) (a : Result (RequestEnd M T) (Reading M T))
      → let r : Reading M T = record { headers = none; trailers = none; body = [] } in
        FrameStep parts r t payload a
        → after_frame parts again rest a ≡ request meta body trailers
        → ((is_ignored t ≡ true) × (again r rest ≡ request meta body trailers))
          ⊎ ((t ≡ frame_headers)
              × ((m : M) × (parts.decode_request payload ≡ ok m)
                  × (again (record r { headers = some m }) rest ≡ request meta body trailers)))
  unfolding after_frame is_seen
  start_step again meta rest payload body trailers t a (refuses e q n) h = absurd (
      let h' : e ≡ request meta body trailers = rw q at h in
      let c : true ≡ false = not_refused e meta body trailers n h' in cc)
  start_step again meta rest payload body trailers t a (passes i q) h = inl (i, rw q at h)
  start_step again meta rest payload body trailers t a (adds i k l q) h = absurd (cc)
  start_step again meta rest payload body trailers t a (heads i k m d q) h =
      inr (i, (m, d, rw q at h))
  start_step again meta rest payload body trailers t a (trails i k l d e q) h = absurd (cc)
