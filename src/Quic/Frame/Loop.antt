-- ===== src/Quic/Frame/Loop.antt =====
-- core/quic_frame.go: `quicParseFrames`, the loop over the frames of a packet.
use alos_http.Prelude.{
  ℕ, zero, suc, leb, Bool, false, not, ◌&&◌, ◌||◌, List, [], ◌∷◌, length, if◌then◌else◌, ◌==◌,
  Option, none, some, ok, err,
}
use alos_http.Quic.Frame
use alos_http.Quic.Frame.{
  Event, FrameError, truncated, unknown_frame, not_allowed_in_space, stuck, is_probing_frame,
  on_padding, on_ping, on_ack, on_crypto, on_stream, on_max_data, on_max_stream_data,
  on_max_streams, on_reset_stream, on_stop_sending, on_retire_conn_id, on_path_challenge,
  on_path_response, on_conn_close, on_handshake_done, on_new_conn_id, on_new_token,
}
use alos_http.Quic.Frame.Parse.{
  Parser, ◌>>=◌, ◌>>◌, return, fail, read_varint, read_bytes, parse_ack, parse_stream,
  parse_conn_close, parse_new_conn_id,
}

abbrev pub emit : Event → Parser (Option Event)
emit e = return (some e)

abbrev pub skip_varint : Parser (Option Event)
skip_varint = do read_varint; return none

-- The fields of the frames that the switch reads in place.
unfoldable pub body_crypto : Parser (Option Event)
body_crypto = do
  offset ← read_varint
  n ← read_varint
  bytes ← read_bytes n
  emit (on_crypto offset bytes)

unfoldable pub body_new_token : Parser (Option Event)
body_new_token = do n ← read_varint; token ← read_bytes n; emit (on_new_token token)

unfoldable pub body_max_stream_data : Parser (Option Event)
body_max_stream_data = do sid ← read_varint; most ← read_varint; emit (on_max_stream_data sid most)

unfoldable pub body_reset_stream : Parser (Option Event)
body_reset_stream = do
  sid ← read_varint
  code ← read_varint
  size ← read_varint
  emit (on_reset_stream sid code size)

unfoldable pub body_stop_sending : Parser (Option Event)
body_stop_sending = do sid ← read_varint; code ← read_varint; emit (on_stop_sending sid code)

abbrev pub then_emit {ℓ} : {A : Type ℓ} → Parser A → (A → Event) → Parser (Option Event)
then_emit m f = m >>= λ a. emit (f a)

-- The switch on the frame's type. A frame that has no callback gives `none`.
unfoldable pub parse_body : ℕ → Parser (Option Event)
parse_body t =
    if t == Frame.frame_ping
    then emit on_ping
    else if t == Frame.frame_ack || t == Frame.frame_ack_ecn
    then then_emit (parse_ack (t == Frame.frame_ack_ecn)) on_ack
    else if t == Frame.frame_crypto
    then body_crypto
    else if leb Frame.frame_stream t && leb t Frame.frame_stream_end
    then then_emit (parse_stream t) on_stream
    else if t == Frame.frame_max_data
    then then_emit read_varint on_max_data
    else if t == Frame.frame_max_stream_data
    then body_max_stream_data
    else if t == Frame.frame_max_streams_bidi || t == Frame.frame_max_streams_uni
    then then_emit read_varint (λ n. on_max_streams n (t == Frame.frame_max_streams_bidi))
    else if t == Frame.frame_conn_close || t == Frame.frame_app_close
    then then_emit (parse_conn_close (t == Frame.frame_app_close)) on_conn_close
    else if t == Frame.frame_handshake_done
    then emit on_handshake_done
    else if t == Frame.frame_new_conn_id
    then then_emit parse_new_conn_id on_new_conn_id
    else if t == Frame.frame_new_token
    then body_new_token
    else if t == Frame.frame_reset_stream
    then body_reset_stream
    else if t == Frame.frame_stop_sending
    then body_stop_sending
    else if t == Frame.frame_data_blocked
    then skip_varint
    else if t == Frame.frame_stream_data_block
    then (do read_varint; skip_varint)
    else if t == Frame.frame_streams_block_bidi || t == Frame.frame_streams_block_uni
    then skip_varint
    else if t == Frame.frame_retire_conn_id
    then then_emit read_varint on_retire_conn_id
    else if t == Frame.frame_path_challenge
    then then_emit (read_bytes Frame.path_challenge_len) on_path_challenge
    else if t == Frame.frame_path_response
    then then_emit (read_bytes Frame.path_challenge_len) on_path_response
    else fail unknown_frame

-- What a call of the parser leaves behind: the callbacks made, in order, the visitor's flag
-- `nonProbing`, and the error that ended the loop.
pub record Outcome : Type 0 where
  pub events : List Event
  pub non_probing : Bool
  pub error : Option FrameError

-- `v.allowed != nil && !v.allowed(frameType)`.
abbrev pub refused : Option (ℕ → Bool) → ℕ → Bool
refused none t = false
refused (some allowed) t = not (allowed t)

abbrev pub cons_event : Option Event → Outcome → Outcome
cons_event none o = o
cons_event (some e) o = record o { events = e ∷ o.events }

abbrev pub stop : Bool → FrameError → Outcome
stop np e = record { events = []; non_probing = np; error = some e }

-- One frame: its event, the flag after it and the rest; or the error and the flag.
pub data Round : Type 0 where
  goes_on : Option Event → Bool → List ℕ → Round
  stops : Bool → FrameError → Round

unfoldable pub parse_typed : Bool → ℕ → List ℕ → Round
parse_typed np t src = elim (parse_body t src) [
  | ok (e, rest) ↦ goes_on e np rest
  | err e ↦ stops np e
]

unfoldable pub parse_one : Option (ℕ → Bool) → Bool → ℕ → List ℕ → Round
unfolding parse_typed
parse_one allowed np b src =
    if b == 0 then goes_on (some on_padding) np src else elim (read_varint (b ∷ src)) [
      | err e ↦ stops np e
      | ok (t, rest) ↦
          if refused allowed t
          then stops np not_allowed_in_space
          else parse_typed (np || not (is_probing_frame t)) t rest
    ]

unfoldable pub parse_loop : Option (ℕ → Bool) → ℕ → Bool → List ℕ → Outcome
parse_loop allowed fuel np [] = record { events = []; non_probing = np; error = none }
parse_loop allowed zero np (b ∷ src) = stop np stuck
parse_loop allowed (suc fuel) np (b ∷ src) = elim (parse_one allowed np b src) [
  | goes_on e np' rest ↦ cons_event e (parse_loop allowed fuel np' rest)
  | stops np' e ↦ stop np' e
]

-- Every round reads a byte at least, so that as many rounds as bytes are enough.
unfoldable pub parse_frames : Option (ℕ → Bool) → Bool → List ℕ → Outcome
parse_frames allowed np src = parse_loop allowed (length src) np src
