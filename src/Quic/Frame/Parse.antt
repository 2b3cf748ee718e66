-- ===== src/Quic/Frame/Parse.antt =====
-- core/quic_frame.go: the parser. Its state is what it has not read yet, `p.data[p.off:]`.
use alos_http.Prelude.{
  ℕ, zero, suc, ltb, Bool, true, false, not, ◌&&◌, ◌||◌, List, [], ◌∷◌, length, if◌then◌else◌, take,
  drop, ◌==◌, Result, ok, err, bit_and,
}
use alos_http.Quic.Varint.{parse_varint}
use alos_http.Quic.Frame
use alos_http.Quic.Frame.{
  Event, FrameError, AckRange, AckFrame, StreamFrame, ConnCloseFrame, NewConnIdFrame, truncated,
  unknown_frame, not_allowed_in_space, stuck, is_probing_frame,
}

-- A step of the parser: a value and the rest of the input, or an error.
abbrev pub Parser {ℓ} : Type ℓ → Type ℓ
Parser A = List ℕ → Result FrameError (A × List ℕ)

infixl 5 ◌>>=◌ ◌>>◌
abbrev pub ◌>>=◌ {ℓ κ} : {A : Type ℓ} {B : Type κ} → Parser A → (A → Parser B) → Parser B
◌>>=◌ m f src = elim (m src) [ ok (a, rest) ↦ f a rest | err e ↦ err e ]

abbrev pub ◌>>◌ {ℓ κ} : {A : Type ℓ} {B : Type κ} → Parser A → Parser B → Parser B
m >> k = m >>= λ _. k

abbrev pub return {ℓ} : {A : Type ℓ} → A → Parser A
return a src = ok (a, src)

abbrev pub fail {ℓ} : {A : Type ℓ} → FrameError → Parser A
fail e src = err e

-- `readVarint` and `readBytes`; every caller answers their `false` with `ErrTruncated`.
unfoldable pub read_varint : Parser ℕ
read_varint src =
    let (v, n) = parse_varint src in if n == 0 then err truncated else ok (v, drop n src)

unfoldable pub read_bytes : ℕ → Parser (List ℕ)
read_bytes n src = if ltb (length src) n then err truncated else ok (take n src, drop n src)

-- The rest of the input, for a stream frame that carries no length.
unfoldable pub read_rest : Parser (List ℕ)
read_rest src = ok (src, [])

unfoldable pub parse_ack_ranges : ℕ → Parser (List AckRange)
parse_ack_ranges zero = return []
parse_ack_ranges (suc n) = do
  gap ← read_varint
  count ← read_varint
  ranges ← parse_ack_ranges n
  return (record { gap = gap; count = count } ∷ ranges)

-- The cap on the ranges: a count above 256, or above the bytes that are left, is refused.
unfoldable pub check_range_count : ℕ → Parser (Unit {0})
check_range_count n src =
    if ltb 0 n && (ltb 256 n || ltb (length src) n) then err truncated else ok (tt, src)

unfoldable pub skip_ecn_counts : Bool → Parser (Unit {0})
skip_ecn_counts false = return tt
skip_ecn_counts true = do read_varint; read_varint; read_varint; return tt

unfoldable pub parse_ack : Bool → Parser AckFrame
parse_ack ecn = do
  largest ← read_varint
  delay ← read_varint
  range_count ← read_varint
  first ← read_varint
  check_range_count range_count
  ranges ← parse_ack_ranges range_count
  skip_ecn_counts ecn
  return (record { largest_ack = largest; ack_delay = delay; first_range = first; ranges = ranges })

unfoldable pub read_offset : ℕ → Parser ℕ
read_offset flags = if bit_and flags Frame.stream_flag_off == 0 then return 0 else read_varint

unfoldable pub read_payload : ℕ → Parser (List ℕ)
read_payload flags =
    if bit_and flags Frame.stream_flag_len == 0 then read_rest else do n ← read_varint; read_bytes n

unfoldable pub parse_stream : ℕ → Parser StreamFrame
parse_stream flags = do
  sid ← read_varint
  offset ← read_offset flags
  bytes ← read_payload flags
  return (record {
    stream_id = sid;
    offset = offset;
    bytes = bytes;
    fin = not (bit_and flags Frame.stream_flag_fin == 0);
  })

unfoldable pub read_close_type : Bool → Parser ℕ
read_close_type true = return 0
read_close_type false = read_varint

unfoldable pub parse_conn_close : Bool → Parser ConnCloseFrame
parse_conn_close is_app = do
  code ← read_varint
  frame_type ← read_close_type is_app
  n ← read_varint
  reason ← read_bytes n
  return (record {
    error_code = code;
    frame_type = frame_type;
    reason_phrase = reason;
    is_app = is_app;
  })

-- `p.readBytes(1)` and `int(cidLenByte[0])`, with the cap on the length.
unfoldable pub read_cid_len : Parser ℕ
read_cid_len [] = err truncated
read_cid_len (n ∷ rest) = if ltb 20 n then err truncated else ok (n, rest)

unfoldable pub parse_new_conn_id : Parser NewConnIdFrame
parse_new_conn_id = do
  seq ← read_varint
  retire ← read_varint
  n ← read_cid_len
  cid ← read_bytes n
  token ← read_bytes 16
  return (record { seq = seq; retire_pt = retire; conn_id = cid; reset_token = token })
