-- ===== src/Quic/Stream.antt =====
-- core/quic_stream.go: the receiving side of a QUIC stream. Frames come in any order; what is next
-- goes to `recvBuf`, and what is ahead waits in `recvOOO`, the list of out-of-order segments, which
-- is one list here (core/quic_ooo_list.go keeps it in chunks, see Quic.Ooo). Offsets are below 2^62
-- and their sums do not wrap. The channel `recvReady`, which wakes a reader, is left out.
pub mod Segments
pub mod Receive
pub mod Reading
pub mod Genuine
pub mod Delivery
pub mod Completion
mod Tests
use alos_http.Prelude.{
  ℕ, zero, suc, ◌+◌, ◌-◌, ◌*◌, ◌/◌, ◌^◌, min, max, ltb, leb, ◌==◌, Bool, true, false, not, ◌&&◌,
  ◌||◌, List, [], ◌∷◌, ◌++◌, length, take, drop, if◌then◌else◌, Option, none, some, add64,
}

-- `quicOOOSegment`.
pub record Segment : Type 0 where
  pub off : ℕ
  pub payload : List ℕ

abbrev pub seg_end : Segment → ℕ
seg_end s = s.off + length s.payload

abbrev pub min_ooo_segment_cap : ℕ
min_ooo_segment_cap = 256

abbrev pub ooo_window_bytes_per_gap : ℕ
ooo_window_bytes_per_gap = 1200

abbrev pub ooo_segment_overhead : ℕ
ooo_segment_overhead = 64

-- The receiving fields of `QUICStream`, without `recvAccounted`.
pub record RecvStream : Type 0 where
  pub recv_buf : List ℕ
  pub recv_ooo : List Segment
  pub ooo_bytes : ℕ
  pub recv_max : ℕ
  pub recv_off : ℕ
  pub recv_fin : Bool
  pub recv_fin_seen : Bool
  pub recv_fin_off : ℕ
  pub recv_closed : Bool
  pub recv_overflow : Bool
  pub recv_reset : Bool
  pub max_recv : ℕ
  pub recv_window : ℕ
  pub recv_granted : ℕ

-- What the stream charges: `recvAccounted`, and of its connection `recvFlowUsed`, `recvFlowLimit`
-- and the body budget.
pub record Charge (B : Type 0) : Type 0 where
  pub accounted : ℕ
  pub flow_used : ℕ
  pub flow_limit : ℕ
  pub body : B

-- `getPooledStream`, with the two limits that it takes from the connection.
unfoldable pub new_recv_stream : ℕ → ℕ → RecvStream
new_recv_stream window cap = record {
  recv_buf = [];
  recv_ooo = [];
  ooo_bytes = 0;
  recv_max = 0;
  recv_off = 0;
  recv_fin = false;
  recv_fin_seen = false;
  recv_fin_off = 0;
  recv_closed = false;
  recv_overflow = false;
  recv_reset = false;
  max_recv = cap;
  recv_window = window;
  recv_granted = window;
}

-- `quicStreamRecvCap`: `none` is a body size without limit.
unfoldable pub stream_recv_cap : Option ℕ → ℕ → ℕ → ℕ
stream_recv_cap none max_header window = 2 ^ 62
stream_recv_cap (some max_body) max_header window =
    let cap = max_body + max_header + 16 * 1024 in if ltb cap window then window else cap

unfoldable pub outstanding : RecvStream → ℕ
outstanding s = length s.recv_buf + s.ooo_bytes

-- `violatesFinalSizeLocked`.
unfoldable pub violates_final_size : RecvStream → ℕ → Bool → Bool
violates_final_size s end fin =
    if s.recv_fin_seen
    then ltb s.recv_fin_off end || (fin && not (end == s.recv_fin_off))
    else fin && ltb end s.recv_max
