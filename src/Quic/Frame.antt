-- ===== src/Quic/Frame.antt =====
-- core/quic_frame.go: the frames as data, their type bytes and the errors.
pub mod Append
pub mod Parse
pub mod Loop
pub mod Outgoing
pub mod RoundTrip
pub mod Progress
pub mod Spaces
use alos_http.Prelude.{ℕ, Bool, true, false, List, ◌==◌, ◌||◌}

abbrev pub frame_padding : ℕ
frame_padding = 0x00

abbrev pub frame_ping : ℕ
frame_ping = 0x01

abbrev pub frame_ack : ℕ
frame_ack = 0x02

abbrev pub frame_ack_ecn : ℕ
frame_ack_ecn = 0x03

abbrev pub frame_reset_stream : ℕ
frame_reset_stream = 0x04

abbrev pub frame_stop_sending : ℕ
frame_stop_sending = 0x05

abbrev pub frame_crypto : ℕ
frame_crypto = 0x06

abbrev pub frame_new_token : ℕ
frame_new_token = 0x07

abbrev pub frame_stream : ℕ
frame_stream = 0x08

abbrev pub frame_stream_end : ℕ
frame_stream_end = 0x0f

abbrev pub frame_max_data : ℕ
frame_max_data = 0x10

abbrev pub frame_max_stream_data : ℕ
frame_max_stream_data = 0x11

abbrev pub frame_max_streams_bidi : ℕ
frame_max_streams_bidi = 0x12

abbrev pub frame_max_streams_uni : ℕ
frame_max_streams_uni = 0x13

abbrev pub frame_data_blocked : ℕ
frame_data_blocked = 0x14

abbrev pub frame_stream_data_block : ℕ
frame_stream_data_block = 0x15

abbrev pub frame_streams_block_bidi : ℕ
frame_streams_block_bidi = 0x16

abbrev pub frame_streams_block_uni : ℕ
frame_streams_block_uni = 0x17

abbrev pub frame_new_conn_id : ℕ
frame_new_conn_id = 0x18

abbrev pub frame_retire_conn_id : ℕ
frame_retire_conn_id = 0x19

abbrev pub frame_path_challenge : ℕ
frame_path_challenge = 0x1a

abbrev pub frame_path_response : ℕ
frame_path_response = 0x1b

abbrev pub frame_conn_close : ℕ
frame_conn_close = 0x1c

abbrev pub frame_app_close : ℕ
frame_app_close = 0x1d

abbrev pub frame_handshake_done : ℕ
frame_handshake_done = 0x1e

abbrev pub stream_flag_off : ℕ
stream_flag_off = 0x04

abbrev pub stream_flag_len : ℕ
stream_flag_len = 0x02

abbrev pub stream_flag_fin : ℕ
stream_flag_fin = 0x01

abbrev pub path_challenge_len : ℕ
path_challenge_len = 8

pub record StreamFrame : Type 0 where
  pub stream_id : ℕ
  pub offset : ℕ
  pub bytes : List ℕ
  pub fin : Bool

pub record AckRange : Type 0 where
  pub gap : ℕ
  pub count : ℕ

pub record AckFrame : Type 0 where
  pub largest_ack : ℕ
  pub ack_delay : ℕ
  pub first_range : ℕ
  pub ranges : List AckRange

pub record ConnCloseFrame : Type 0 where
  pub error_code : ℕ
  pub frame_type : ℕ
  pub reason_phrase : List ℕ
  pub is_app : Bool

pub record NewConnIdFrame : Type 0 where
  pub seq : ℕ
  pub retire_pt : ℕ
  pub conn_id : List ℕ
  pub reset_token : List ℕ

-- The calls that the parser makes on its visitor, with what it hands over.
pub data Event : Type 0 where
  on_padding : Event
  on_ping : Event
  on_ack : AckFrame → Event
  on_crypto : ℕ → List ℕ → Event
  on_stream : StreamFrame → Event
  on_max_data : ℕ → Event
  on_max_stream_data : ℕ → ℕ → Event
  on_max_streams : ℕ → Bool → Event
  on_reset_stream : ℕ → ℕ → ℕ → Event
  on_stop_sending : ℕ → ℕ → Event
  on_retire_conn_id : ℕ → Event
  on_path_challenge : List ℕ → Event
  on_path_response : List ℕ → Event
  on_conn_close : ConnCloseFrame → Event
  on_handshake_done : Event
  on_new_conn_id : NewConnIdFrame → Event
  on_new_token : List ℕ → Event

-- `ErrTruncated`, `errQUICFrameNotAllowedInSpace` and `errQUICUnknownFrame`. `stuck` is no Go
-- value: the model's loop ran out of fuel.
pub data FrameError : Type 0 where
  truncated not_allowed_in_space unknown_frame stuck : FrameError

-- `quicFrameAllowedInHandshakeSpaces`.
unfoldable pub allowed_in_handshake_spaces : ℕ → Bool
allowed_in_handshake_spaces t =
    t == frame_padding
    || t == frame_ping
    || t == frame_ack
    || t == frame_ack_ecn
    || t == frame_crypto
    || t == frame_conn_close

-- `quicIsProbingFrame` of core/quic_path.go.
unfoldable pub is_probing_frame : ℕ → Bool
is_probing_frame t =
    t == frame_path_challenge
    || t == frame_path_response
    || t == frame_new_conn_id
    || t == frame_padding
