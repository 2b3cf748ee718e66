-- ===== src/H3/Request/RoundTrip.antt =====
-- core/h3_conn.go: a request written as frames is read as it was written.
use alos_http.Prelude.{
  ℕ, zero, suc, ◌≤◌, ◌<◌, ◌≡◌, refl, true, false, List, [], ◌∷◌, ◌++◌, length, All, Option, none,
  some, ok, arith, append_assoc, append-nil, length-append, ◌∙◌, sym, ap, subst,
}
use alos_http.Quic.Varint.{varint_limit}
use alos_http.H3.Frame.{
  next_frame, frame_headers, frame_data, append_frame, append_headers_frame, append_data_frame,
}
use alos_http.H3.Frame.Reading.{next_frame-append_frame, next_frame_takes}
use alos_http.H3.Request.{
  RequestParts, request, Reading, is_seen, with_headers, with_trailers, wrong_length, take_headers,
  take_body, take_frame, end_with, end_request, after_frame, frame_round, read_frames, read_request,
}

-- The frames of a request: its headers, the pieces of its body, and its trailers.
unfoldable pub write_body : List (List ℕ) → List ℕ → List ℕ
write_body [] tail = tail
write_body (c ∷ cs) tail = append_data_frame [] c ++ write_body cs tail

unfoldable pub write_trailers : Option (List ℕ) → List ℕ
write_trailers none = []
write_trailers (some block) = append_headers_frame [] block

unfoldable pub write_request : List ℕ → List (List ℕ) → Option (List ℕ) → List ℕ
write_request block cs trailers =
    append_headers_frame [] block ++ write_body cs (write_trailers trailers)

unfoldable pub join_body : List (List ℕ) → List ℕ
join_body [] = []
join_body (c ∷ cs) = c ++ join_body cs

module _ {M T : Type 0} (parts : RequestParts M T) where
  -- What the trailers are decoded to.
  unfoldable pub Trails : Option (List ℕ) → Option T → Type 0
  Trails none trailers = trailers ≡ none
  Trails (some block) trailers =
      (length block < varint_limit)
      × ((fields : T) × (parts.decode_trailers block ≡ ok fields) × (trailers ≡ some fields))

  -- A body of so many bytes is taken with what the request headers say of it.
  pub record Agreed (meta : M) (size : ℕ) : Type 0 where
    pub path : parts.has_path meta ≡ true
    pub declared : wrong_length (parts.declared_length meta) size ≡ false
    pub small : (n : ℕ) → n ≤ size → parts.body_too_large n ≡ false

  read_one :
      (fuel : ℕ) (r r' : Reading M T) (t : ℕ) (payload rest : List ℕ)
      → t < varint_limit
      → length payload < varint_limit
      → take_frame parts r t payload ≡ ok r'
      → read_frames parts (suc fuel) r (append_frame [] t payload ++ rest)
        ≡ read_frames parts fuel r' rest
  unfolding read_frames frame_round after_frame
  read_one fuel r r' t payload rest lt short e =
      rw (next_frame-append_frame t payload rest lt short, e) refl

  length-append_frame :
      (t : ℕ) (payload rest : List ℕ)
      → t < varint_limit
      → length payload < varint_limit
      → length rest < length (append_frame [] t payload ++ rest)
  length-append_frame t payload rest lt short =
      next_frame_takes (append_frame [] t payload ++ rest) t payload rest
        (next_frame-append_frame t payload rest lt short)

  read_end :
      (fuel : ℕ) (m : M) (b : List ℕ) (trailers : Option T)
      → Agreed m (length b)
      → read_frames parts (suc fuel) (record { headers = some m; trailers = trailers; body = b }) []
        ≡ request m b trailers
  unfolding read_frames frame_round end_request end_with next_frame
  read_end fuel m b trailers a = rw (a.path, a.declared) refl

  take_piece :
      (m : M) (b c : List ℕ)
      → parts.body_too_large (length (b ++ c)) ≡ false
      → take_frame parts (record { headers = some m; trailers = none; body = b }) frame_data c
        ≡ ok (record { headers = some m; trailers = none; body = b ++ c })
  unfolding take_frame take_body is_seen
  take_piece m b c e = rw e refl

  take_trailers :
      (m : M) (b block : List ℕ) (fields : T)
      → parts.decode_trailers block ≡ ok fields
      → take_frame parts
          (record { headers = some m; trailers = none; body = b })
          frame_headers
          block
        ≡ ok (record { headers = some m; trailers = some fields; body = b })
  unfolding take_frame take_headers is_seen with_trailers
  take_trailers m b block fields e = rw e refl

  take_first :
      (m : M) (block : List ℕ)
      → parts.decode_request block ≡ ok m
      → take_frame parts (record { headers = none; trailers = none; body = [] }) frame_headers block
        ≡ ok (record { headers = some m; trailers = none; body = [] })
  unfolding take_frame take_headers is_seen with_headers
  take_first m block e = rw e refl

  -- The end of a message, with its trailers where it has them.
  read_tail :
      (fuel : ℕ) (m : M) (b : List ℕ) (tr : Option (List ℕ)) (trailers : Option T)
      → length (write_trailers tr) < fuel
      → Trails tr trailers
      → Agreed m (length b)
      → read_frames parts fuel
          (record { headers = some m; trailers = none; body = b })
          (write_trailers tr)
        ≡ request m b trailers
  unfolding write_trailers Trails append_headers_frame
  read_tail zero m b tr trailers h t a = absurd (omega arith)
  read_tail (suc fuel) m b none trailers h t a = rw t (read_end fuel m b none a)
  read_tail (suc zero) m b (some block) trailers h (short, t) a =
      let bytes = length-append_frame frame_headers block [] (omega arith) short in
      let same : append_frame [] frame_headers block ++ [] ≡ append_frame [] frame_headers block =
        append-nil (append_frame [] frame_headers block) in
      absurd (
        let lt : 0 < length (append_frame [] frame_headers block) = rw same at bytes in omega arith)
  read_tail (suc (suc fuel)) m b (some block) trailers h (short, (fields, d, e)) a =
      let r : Reading M T = record { headers = some m; trailers = none; body = b } in
      let frame = append_frame [] frame_headers block in
      ap (read_frames parts (suc (suc fuel)) r) (sym (append-nil frame))
      ∙ read_one (suc fuel) r (record { headers = some m; trailers = some fields; body = b })
          frame_headers block [] (omega arith) short (take_trailers m b block fields d)
      ∙ (rw e (read_end fuel m b (some fields) a))

  read_body :
      (fuel : ℕ) (m : M) (b : List ℕ) (cs : List (List ℕ)) (tr : Option (List ℕ))
      (trailers : Option T)
      → length (write_body cs (write_trailers tr)) < fuel
      → All (λ c. length c < varint_limit) cs
      → Trails tr trailers
      → Agreed m (length (b ++ join_body cs))
      → read_frames parts fuel
          (record { headers = some m; trailers = none; body = b })
          (write_body cs (write_trailers tr))
        ≡ request m (b ++ join_body cs) trailers
  unfolding write_body join_body append_data_frame
  read_body fuel m b [] tr trailers h short t a =
      let same : b ++ [] ≡ b = append-nil b in
      rw same (read_tail fuel m b tr trailers h t (rw same at a))
  read_body zero m b (c ∷ cs) tr trailers h short t a = absurd (omega arith)
  read_body (suc fuel) m b (c ∷ cs) tr trailers h short t a =
      let r : Reading M T = record { headers = some m; trailers = none; body = b } in
      let r' : Reading M T = record { headers = some m; trailers = none; body = b ++ c } in
      let rest = write_body cs (write_trailers tr) in
      let whole : (b ++ c) ++ join_body cs ≡ b ++ (c ++ join_body cs) =
        append_assoc b c (join_body cs) in
      let fits : length (b ++ c) ≤ length (b ++ (c ++ join_body cs)) =
        omega (arith, length-append (b ++ c) (join_body cs), ap length whole) in
      let shorter = length-append_frame frame_data c rest (omega arith) short.0 in
      read_one fuel r r' frame_data c rest (omega arith) short.0
        (take_piece m b c (a.small (length (b ++ c)) fits))
      ∙ read_body fuel m (b ++ c) cs tr trailers (omega (arith, shorter, h)) short.1 t
          (subst (λ q. Agreed m (length q)) (sym whole) a)
      ∙ ap (λ q. request m q trailers) whole

  -- A request written as a frame of headers, frames of data that cut its body anywhere, and perhaps a
  -- frame of trailers, is read as these headers, this body and these trailers, where the sections
  -- decode, the body is within its limit and of the length that the headers declare, and no frame
  -- reaches 2^62 bytes.
  pub read_request-write_request :
      (block : List ℕ) (m : M) (cs : List (List ℕ)) (tr : Option (List ℕ)) (trailers : Option T)
      → length block < varint_limit
      → parts.decode_request block ≡ ok m
      → All (λ c. length c < varint_limit) cs
      → Trails tr trailers
      → Agreed m (length (join_body cs))
      → read_request parts (write_request block cs tr) ≡ request m (join_body cs) trailers
  unfolding read_request write_request append_headers_frame
  read_request-write_request block m cs tr trailers lt d short t a =
      let r : Reading M T = record { headers = none; trailers = none; body = [] } in
      let rest = write_body cs (write_trailers tr) in
      let size = length (append_frame [] frame_headers block ++ rest) in
      let shorter = length-append_frame frame_headers block rest (omega arith) lt in
      read_one size r (record { headers = some m; trailers = none; body = [] }) frame_headers block
        rest (omega arith) lt (take_first m block d)
      ∙ read_body size m [] cs tr trailers shorter short t a
