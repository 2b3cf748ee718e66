-- ===== src/Quic/Frame/Outgoing.antt =====
-- core/quic_frame.go: the frames that the program writes, with their ranges.
use alos_http.Prelude.{
  ℕ, ◌<◌, ◌≡◌, ltb, Bool, true, false, List, [], ◌∷◌, ◌++◌, length, Option, none, some, arith,
  if◌then◌else◌, append_assoc, append-nil, zero, suc, refl, ap, sym, lt→ltb, ◌∙◌,
}
use alos_http.Quic.Varint.{varint, append_varint, varint_limit}
use alos_http.Quic.Frame
use alos_http.Quic.Frame.{
  Event, on_crypto, on_stream, on_ack, on_max_data, on_max_stream_data, on_max_streams,
  on_reset_stream, on_stop_sending, on_conn_close, on_handshake_done,
}
use alos_http.Quic.Frame.Append.{
  append_crypto_frame, append_stream_frame, append_ack_frame, append_max_data_frame,
  append_max_stream_data_frame, append_stream_data_blocked_frame, append_max_streams_frame,
  append_reset_stream_frame, append_stop_sending_frame, append_app_close_frame,
  append_handshake_done_frame, append_conn_close_frame,
}

-- A call of a writer, with its arguments.
pub data Outgoing : Type 0 where
  crypto : ℕ → List ℕ → Outgoing
  stream : ℕ → ℕ → List ℕ → Bool → Outgoing
  ack : ℕ → ℕ → ℕ → Outgoing
  max_data : ℕ → Outgoing
  max_stream_data : ℕ → ℕ → Outgoing
  stream_data_blocked : ℕ → ℕ → Outgoing
  max_streams : ℕ → Bool → Outgoing
  reset_stream : ℕ → ℕ → ℕ → Outgoing
  stop_sending : ℕ → ℕ → Outgoing
  app_close : ℕ → List ℕ → Outgoing
  handshake_done : Outgoing
  conn_close : ℕ → ℕ → List ℕ → Outgoing

abbrev pub write : List ℕ → Outgoing → List ℕ
write dst (crypto offset bytes) = append_crypto_frame dst offset bytes
write dst (stream sid offset bytes fin) = append_stream_frame dst sid offset bytes fin
write dst (ack largest delay first) = append_ack_frame dst largest delay first
write dst (max_data n) = append_max_data_frame dst n
write dst (max_stream_data sid n) = append_max_stream_data_frame dst sid n
write dst (stream_data_blocked sid n) = append_stream_data_blocked_frame dst sid n
write dst (max_streams n bidi) = append_max_streams_frame dst n bidi
write dst (reset_stream sid code size) = append_reset_stream_frame dst sid code size
write dst (stop_sending sid code) = append_stop_sending_frame dst sid code
write dst (app_close code reason) = append_app_close_frame dst code reason
write dst handshake_done = append_handshake_done_frame dst
write dst (conn_close code frame_type reason) = append_conn_close_frame dst code frame_type reason

-- What the peer's visitor is to be told. A blocked frame has no callback.
abbrev pub event_of : Outgoing → Option Event
event_of (crypto offset bytes) = some (on_crypto offset bytes)
event_of (stream sid offset bytes fin) =
    some (on_stream (record { stream_id = sid; offset = offset; bytes = bytes; fin = fin }))
event_of (ack largest delay first) =
    some (
      on_ack
        (record { largest_ack = largest; ack_delay = delay; first_range = first; ranges = [] }))
event_of (max_data n) = some (on_max_data n)
event_of (max_stream_data sid n) = some (on_max_stream_data sid n)
event_of (stream_data_blocked sid n) = none
event_of (max_streams n bidi) = some (on_max_streams n bidi)
event_of (reset_stream sid code size) = some (on_reset_stream sid code size)
event_of (stop_sending sid code) = some (on_stop_sending sid code)
event_of (app_close code reason) = some (
    on_conn_close
      (record { error_code = code; frame_type = 0; reason_phrase = reason; is_app = true }))
event_of handshake_done = some on_handshake_done
event_of (conn_close code t reason) = some (
    on_conn_close
      (record { error_code = code; frame_type = t; reason_phrase = reason; is_app = false }))

-- Every number of a frame is one that a varint holds.
abbrev pub Small : ℕ → Type 0
Small n = n < varint_limit

abbrev pub Fits : Outgoing → Type 0
Fits (crypto offset bytes) = Small offset × Small (length bytes)
Fits (stream sid offset bytes fin) = Small sid × Small offset × Small (length bytes)
Fits (ack largest delay first) = Small largest × Small delay × Small first
Fits (max_data n) = Small n
Fits (max_stream_data sid n) = Small sid × Small n
Fits (stream_data_blocked sid n) = Small sid × Small n
Fits (max_streams n bidi) = Small n
Fits (reset_stream sid code size) = Small sid × Small code × Small size
Fits (stop_sending sid code) = Small sid × Small code
Fits (app_close code reason) = Small code × Small (length reason)
Fits handshake_done = Unit
Fits (conn_close code t reason) = Small code × Small t × Small (length reason)

abbrev pub type_of : Outgoing → ℕ
type_of (crypto offset bytes) = Frame.frame_crypto
type_of (stream sid offset bytes fin) =
    if ltb 0 offset then if fin then 15 else 14 else if fin then 11 else 10
type_of (ack largest delay first) = Frame.frame_ack
type_of (max_data n) = Frame.frame_max_data
type_of (max_stream_data sid n) = Frame.frame_max_stream_data
type_of (stream_data_blocked sid n) = Frame.frame_stream_data_block
type_of (max_streams n bidi) =
    if bidi then Frame.frame_max_streams_bidi else Frame.frame_max_streams_uni
type_of (reset_stream sid code size) = Frame.frame_reset_stream
type_of (stop_sending sid code) = Frame.frame_stop_sending
type_of (app_close code reason) = Frame.frame_app_close
type_of handshake_done = Frame.frame_handshake_done
type_of (conn_close code t reason) = Frame.frame_conn_close

-- The bytes behind the type, in the order of RFC 9000 section 19.
abbrev pub fields : Outgoing → List ℕ
fields (crypto offset bytes) = varint offset ++ (varint (length bytes) ++ bytes)
fields (stream sid offset bytes fin) =
    varint sid ++ ((if ltb 0 offset then varint offset else []) ++ (varint (length bytes) ++ bytes))
fields (ack largest delay first) = varint largest ++ (varint delay ++ (varint 0 ++ varint first))
fields (max_data n) = varint n
fields (max_stream_data sid n) = varint sid ++ varint n
fields (stream_data_blocked sid n) = varint sid ++ varint n
fields (max_streams n bidi) = varint n
fields (reset_stream sid code size) = varint sid ++ (varint code ++ varint size)
fields (stop_sending sid code) = varint sid ++ varint code
fields (app_close code reason) = varint code ++ (varint (length reason) ++ reason)
fields handshake_done = []
fields (conn_close code t reason) = varint code ++ (varint t ++ (varint (length reason) ++ reason))

append_varint_lem : (dst : List ℕ) (v : ℕ) → append_varint dst v ≡ dst ++ varint v
unfolding append_varint
append_varint_lem dst v = refl

varint_one_byte : (t : ℕ) → t < 64 → varint t ≡ t ∷ []
unfolding varint
varint_one_byte t h = ground arith

pub type_of_small : (o : Outgoing) → (0 < type_of o) × (type_of o < 64)
type_of_small (crypto offset bytes) = omega arith
type_of_small o = ground arith

write_stream :
    (dst : List ℕ) (sid offset : ℕ) (bytes : List ℕ) (fin : Bool)
    → let o = stream sid offset bytes fin in write dst o ≡ dst ++ (type_of o ∷ fields o)
unfolding append_stream_frame
write_stream dst sid zero bytes fin = simp (append_varint_lem, append_assoc)
write_stream dst sid (suc n) bytes fin =
    simp (lt→ltb 0 (suc n) (omega arith), append_varint_lem, append_assoc)

write_typed : (dst : List ℕ) (o : Outgoing) → write dst o ≡ dst ++ (varint (type_of o) ++ fields o)
unfolding append_crypto_frame append_ack_frame append_max_data_frame append_max_stream_data_frame
    append_stream_data_blocked_frame append_max_streams_frame append_reset_stream_frame
    append_stop_sending_frame append_app_close_frame append_handshake_done_frame
    append_conn_close_frame
write_typed dst (max_streams n true) = simp (append_varint_lem, append_assoc)
write_typed dst (max_streams n false) = simp (append_varint_lem, append_assoc)
write_typed dst (stream sid offset bytes fin) =
    let o = stream sid offset bytes fin in
    write_stream dst sid offset bytes fin
    ∙ ap (λ t. dst ++ (t ++ fields o)) (sym (varint_one_byte (type_of o) (type_of_small o).1))
write_typed dst handshake_done = simp (append_varint_lem, append-nil)
write_typed dst o = simp (append_varint_lem, append_assoc)

-- Each writer appends the type byte and then the fields.
pub write_lem : (dst : List ℕ) (o : Outgoing) → write dst o ≡ dst ++ (type_of o ∷ fields o)
write_lem dst o =
    write_typed dst o
    ∙ ap (λ t. dst ++ (t ++ fields o)) (varint_one_byte (type_of o) (type_of_small o).1)
