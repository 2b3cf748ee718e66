-- ===== src/H3/Frame/Reading.antt =====
-- core/h3_frame.go: a frame is read as it was written, and a read frame takes bytes.
use alos_http.Prelude.{
  ℕ, ◌≤◌, ◌<◌, ◌≡◌, refl, ltb, ◌==◌, ◌||◌, false, List, [], ◌++◌, length, drop, some, arith,
  append_assoc, drop-append_left, take-append_left, length-append, length-drop, ◌∙◌, ap,
}
use native.Mathlib.Nat.{mod-eq_of_lt}
use alos_http.Quic.Varint.{append_varint, parse_varint, varint, varint_limit}
use alos_http.Quic.Varint.RoundTrip.{parse-varint, length-varint}
use alos_http.H3.Frame.{append_frame, next_frame, frame_behind}

-- A varint in front of other bytes.
parse_front :
    (v : ℕ) (rest : List ℕ)
    → v < varint_limit
    → parse_varint (varint v ++ rest) ≡ (v, length (varint v))
parse_front v rest h =
    parse-varint v rest (omega arith) ∙ ap (λ q. (q, length (varint v))) (mod-eq_of_lt h)

frame_behind_whole :
    (t : ℕ) (payload rest : List ℕ)
    → length payload < varint_limit
    → frame_behind t (varint (length payload) ++ (payload ++ rest)) ≡ some (t, payload, rest)
unfolding frame_behind
frame_behind_whole t payload rest h =
    let size = varint (length payload) in
    let some_bytes : (length size == 0) ≡ false = ground (arith, length-varint (length payload)) in
    let enough : ltb (length (payload ++ rest)) (length payload) ≡ false =
      ground (arith, length-append payload rest) in
    rw
      (
        parse_front (length payload) (payload ++ rest) h,
        drop-append_left size (payload ++ rest),
        some_bytes,
        enough,
        take-append_left payload rest,
        drop-append_left payload rest,
      )
      refl

pub next_frame-append_frame :
    (t : ℕ) (payload rest : List ℕ)
    → t < varint_limit
    → length payload < varint_limit
    → next_frame (append_frame [] t payload ++ rest) ≡ some (t, payload, rest)
unfolding next_frame append_frame append_varint
next_frame-append_frame t payload rest ht hp =
    let size = varint (length payload) in
    let tail = size ++ (payload ++ rest) in
    let shape : ((varint t ++ size) ++ payload) ++ rest ≡ varint t ++ tail =
      append_assoc (varint t ++ size) payload rest
      ∙ append_assoc (varint t) size (payload ++ rest) in
    let some_bytes : (length (varint t ++ tail) == 0 || length (varint t) == 0) ≡ false =
      ground (arith, length-varint t, length-append (varint t) tail) in
    rw shape (
      rw (parse_front t tail ht, some_bytes, drop-append_left (varint t) tail)
        (frame_behind_whole t payload rest hp))

frame_behind_rest :
    (t u : ℕ) (behind payload rest : List ℕ)
    → frame_behind t behind ≡ some (u, payload, rest)
    → length rest ≤ length behind
unfolding frame_behind
frame_behind_rest t u behind payload rest e =
    let (size, m) = parse_varint behind in
    ground (arith, e, length-drop m behind, length-drop size (drop m behind))

-- A frame that is read takes a byte at least.
pub next_frame_takes :
    (bytes : List ℕ) (t : ℕ) (payload rest : List ℕ)
    → next_frame bytes ≡ some (t, payload, rest)
    → length rest < length bytes
unfolding next_frame
next_frame_takes bytes t payload rest e =
    let (u, n) = parse_varint bytes in
    let behind = frame_behind_rest u t (drop n bytes) payload rest in
    ground (arith, e, length-drop n bytes, behind)
