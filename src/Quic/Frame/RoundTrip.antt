-- ===== src/Quic/Frame/RoundTrip.antt =====
-- core/quic_frame.go: what the writers append, the parser hands to the visitor.
use alos_http.Prelude.{
  ℕ, zero, suc, ◌≤◌, ◌<◌, ◌≡◌, refl, ◌∙◌, Bool, true, false, List, [], ◌∷◌, ◌++◌, length, Option,
  none, some, ok, arith, append_assoc, drop-append_left, take-append_left, length-append,
  append-nil, All, ◌||◌, lt→ltb, sym, and_3f, ℕ,
}
use alos_http.Quic.Varint.{varint, parse_varint, varint_limit}
use alos_http.Quic.Varint.RoundTrip.{parse-varint, length-varint}
use alos_http.Quic.Frame.{Event, is_probing_frame}
use alos_http.Quic.Frame.Parse.{
  read_varint, read_bytes, parse_stream, parse_ack, parse_conn_close, read_offset, read_payload,
  read_close_type, check_range_count, parse_ack_ranges, skip_ecn_counts,
}
use alos_http.Quic.Frame.Outgoing.{
  Outgoing, crypto, stream, ack, max_data, max_streams, app_close, handshake_done, conn_close, Fits,
  write, write_lem, type_of, type_of_small, event_of, fields,
}
use alos_http.Quic.Frame.Loop.{
  parse_body, parse_loop, parse_frames, parse_one, refused, goes_on, body_crypto,
  body_max_stream_data, body_reset_stream, body_stop_sending,
}

pub read_varint-varint :
    (v : ℕ) (rest : List ℕ) → v < varint_limit → read_varint (varint v ++ rest) ≡ ok (v, rest)
unfolding read_varint
read_varint-varint v rest h =
    ground (arith, parse-varint v rest, length-varint v, drop-append_left (varint v) rest)

pub read_bytes-append : (xs rest : List ℕ) → read_bytes (length xs) (xs ++ rest) ≡ ok (xs, rest)
unfolding read_bytes
read_bytes-append xs rest =
    ground (arith, drop-append_left xs rest, take-append_left xs rest, length-append xs rest)

-- The parser's switch, on the type and the fields that a writer wrote, with anything behind.
body-parse :
    (o : Outgoing) (rest : List ℕ)
    → Fits o
    → parse_body (type_of o) (fields o ++ rest) ≡ ok (event_of o, rest)
unfolding parse_body body_crypto body_max_stream_data body_reset_stream body_stop_sending
body-parse (crypto offset bytes) rest h =
    simp append_assoc (grind (arith, read_varint-varint, read_bytes-append))
body-parse handshake_done rest h = refl
body-parse (max_streams n true) rest h = grind (arith, read_varint-varint)
body-parse (max_streams n false) rest h = grind (arith, read_varint-varint)
body-parse (max_data n) rest h = ground (arith, read_varint-varint n rest)
body-parse (stream sid zero bytes fin) rest h =
    unfold parse_stream read_offset read_payload in
    simp append_assoc (grind (arith, read_varint-varint, read_bytes-append))
body-parse (stream sid (suc n) bytes true) rest h =
    unfold parse_stream read_offset read_payload in
    rw (lt→ltb 0 (suc n) (omega arith))
      (simp append_assoc (grind (arith, read_varint-varint, read_bytes-append)))
body-parse (stream sid (suc n) bytes false) rest h =
    unfold parse_stream read_offset read_payload in
    rw (lt→ltb 0 (suc n) (omega arith))
      (simp append_assoc (grind (arith, read_varint-varint, read_bytes-append)))
body-parse (ack largest delay first) rest h =
    unfold parse_ack parse_ack_ranges check_range_count skip_ecn_counts in
    simp append_assoc (grind (arith, read_varint-varint))
body-parse (conn_close code t reason) rest h =
    unfold parse_conn_close read_close_type in
    simp append_assoc (grind (arith, read_varint-varint, read_bytes-append))
body-parse (app_close code reason) rest h =
    unfold parse_conn_close read_close_type in
    simp append_assoc (grind (arith, read_varint-varint, read_bytes-append))
body-parse o rest h = simp append_assoc (grind (arith, read_varint-varint))

-- Every frame that the program writes makes the packet one that a probe does not.
abbrev pub any_sent : List Outgoing → Bool
any_sent [] = false
any_sent (o ∷ os) = true

abbrev pub cons_option {ℓ} : {A : Type ℓ} → Option A → List A → List A
cons_option none xs = xs
cons_option (some a) xs = a ∷ xs

abbrev pub events_of : List Outgoing → List Event
events_of [] = []
events_of (o ∷ os) = cons_option (event_of o) (events_of os)

-- A writer's call after another, from an empty buffer on.
abbrev pub write_all : List ℕ → List Outgoing → List ℕ
write_all dst [] = dst
write_all dst (o ∷ os) = write_all (write dst o) os

wire : List Outgoing → List ℕ
wire [] = []
wire (o ∷ os) = type_of o ∷ (fields o ++ wire os)

write_all-wire : (dst : List ℕ) (os : List Outgoing) → write_all dst os ≡ dst ++ wire os
unfolding wire
write_all-wire dst [] = sym (append-nil dst)
write_all-wire dst (o ∷ os) =
    write_all-wire (write dst o) os
    ∙ rw (write_lem dst o) (append_assoc dst (type_of o ∷ fields o) (wire os))

not_probing : (o : Outgoing) → is_probing_frame (type_of o) ≡ false
unfolding is_probing_frame
not_probing (crypto offset bytes) = refl
not_probing o = ground arith

pub read_varint_byte : (t : ℕ) (rest : List ℕ) → t < 64 → read_varint (t ∷ rest) ≡ ok (t, rest)
unfolding read_varint parse_varint
read_varint_byte t rest h = ground (arith, and_3f t)

one-parse :
    (allowed : Option (ℕ → Bool)) (np : Bool) (o : Outgoing) (rest : List ℕ)
    → Fits o
    → refused allowed (type_of o) ≡ false
    → parse_one allowed np (type_of o) (fields o ++ rest) ≡ goes_on (event_of o) true rest
unfolding parse_one
one-parse allowed np o rest h a = ground (
  arith,
  type_of_small o,
  read_varint_byte (type_of o) (fields o ++ rest),
  body-parse o rest h,
  not_probing o,
)

-- A frame that fits, of a type that the packet's space allows.
abbrev pub Sendable : Option (ℕ → Bool) → Outgoing → Type 0
Sendable allowed o = Fits o × (refused allowed (type_of o) ≡ false)

loop-wire :
    (allowed : Option (ℕ → Bool)) (np : Bool) (os : List Outgoing) (fuel : ℕ)
    → All (Sendable allowed) os
    → length (wire os) ≤ fuel
    → parse_loop allowed fuel np (wire os)
      ≡ record { events = events_of os; non_probing = np || any_sent os; error = none }
unfolding parse_loop wire
loop-wire allowed np [] fuel h f = ground arith
loop-wire allowed np (o ∷ os) zero h f = absurd (omega arith)
loop-wire allowed np (o ∷ os) (suc fuel) h f = ground (
  arith,
  one-parse allowed np o (wire os) h.0.0 h.0.1,
  length-append (fields o) (wire os),
  loop-wire allowed true os fuel h.1,
)

-- The frames that the writers append to an empty packet, in any number and order, are what the
-- parser hands to the visitor, in that order and without an error, if every number of theirs
-- fits a varint and the packet's space allows their types. The visitor's flag says whether a
-- frame was seen (the program writes no probing frame by these writers).
pub parse_frames-write_all :
    (allowed : Option (ℕ → Bool)) (np : Bool) (os : List Outgoing)
    → All (Sendable allowed) os
    → parse_frames allowed np (write_all [] os)
      ≡ record { events = events_of os; non_probing = np || any_sent os; error = none }
unfolding parse_frames
parse_frames-write_all allowed np os h =
    rw (write_all-wire [] os) (loop-wire allowed np os (length (wire os)) h (omega arith))
