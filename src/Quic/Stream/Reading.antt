-- ===== src/Quic/Stream/Reading.antt =====
-- core/quic_stream.go: reads, credits and resets of the receiving side.
use alos_http.Prelude.{
  ℕ, ◌+◌, ◌-◌, ◌/◌, min, max, ltb, leb, ◌==◌, Bool, true, not, ◌&&◌, ◌||◌, List, [], ◌∷◌, length,
  take, drop, if◌then◌else◌, Option, none, some, Result, ok, err,
}
use alos_http.Server.Budget.{BodyBudget}
use alos_http.Quic.Stream.{RecvStream, Charge, Segment, seg_end}
use alos_http.Quic.Stream.Receive.{release_reserved, consume_recv_flow_credit}

module _ {B : Type 0} (budget : BodyBudget B) where
  -- `takeReceived`.
  unfoldable pub take_received : RecvStream → Charge B → (List ℕ × Bool) × RecvStream × Charge B
  take_received s c = (
    (s.recv_buf, s.recv_fin),
    record s { recv_buf = [] },
    release_reserved budget c (length s.recv_buf),
  )

-- One round of `Read` into a slice of `n` bytes: the bytes and whether `io.EOF` comes with them, or
-- `none` where the reader waits.
unfoldable pub read : RecvStream → ℕ → Option (List ℕ × Bool) × RecvStream
read s n =
    let rest = drop n s.recv_buf in
    if ltb 0 (length s.recv_buf)
    then (some (take n s.recv_buf, s.recv_fin && length rest == 0), record s { recv_buf = rest })
    else if s.recv_fin || s.recv_closed
    then (some ([], true), s)
    else (none, s)

-- One round of `ReadAll`.
unfoldable pub read_all : RecvStream → Option (List ℕ) × RecvStream
read_all s =
    if s.recv_fin || s.recv_closed then (some s.recv_buf, record s { recv_buf = [] }) else (none, s)

-- `Close`, the receiving side.
unfoldable pub close_recv : RecvStream → RecvStream
close_recv s = record s { recv_closed = true }

-- `streamCreditToGrant`.
unfoldable pub stream_credit_to_grant : RecvStream → ℕ × RecvStream
stream_credit_to_grant s =
    let grant = min (s.recv_off + s.recv_window) s.max_recv in
    if s.recv_fin_seen
      || leb s.max_recv s.recv_granted
      || leb (s.recv_off + s.recv_window / 2) s.recv_granted
    then (0, s)
    else (grant, record s { recv_granted = grant })

-- `receivedExtent`: the end of the last segment, and the number of different bytes received.
unfoldable pub highest_received : ℕ → List Segment → ℕ
highest_received off [] = off
highest_received off (g ∷ gs) = highest_received (seg_end g) gs

unfoldable pub received_extent : RecvStream → ℕ × ℕ
received_extent s = (highest_received s.recv_off s.recv_ooo, s.recv_off + s.ooo_bytes)

-- `unreceivedCredit`.
unfoldable pub unreceived_credit : RecvStream → ℕ
unreceived_credit s = s.recv_granted - (received_extent s).1

-- The errors of `applyPeerReset`.
pub data ResetError : Type 0 where
  final_size : ResetError
  flow_control : ResetError

-- `applyPeerReset` once the flow control is settled: the bytes that will never come, counted once.
unfoldable pub reset_once : RecvStream → ℕ → Result ResetError ℕ × RecvStream
reset_once s size =
    let s' = record s {
      recv_reset = true;
      recv_fin_seen = true;
      recv_fin_off = size;
      recv_closed = true;
    } in
    if s.recv_reset then (ok 0, s) else (ok (size - (received_extent s).1), s')

module _ {B : Type 0} where
  unfoldable pub apply_peer_reset :
      RecvStream → Charge B → ℕ → Result ResetError ℕ × RecvStream × Charge B
  apply_peer_reset s c size =
      let (within, c') = consume_recv_flow_credit c (size - s.recv_max) in
      let (answer, s') = reset_once s size in
      let (answer', s'') = reset_once (record s { recv_max = size }) size in
      if (s.recv_fin_seen && not (size == s.recv_fin_off))
        || ltb size (max (received_extent s).0 s.recv_max)
      then (err final_size, s, c)
      else if ltb s.recv_granted size
      then (err flow_control, s, c)
      else if not (ltb s.recv_max size)
      then (answer, s', c)
      else if within
      then (answer', s'', c')
      else (err flow_control, s, c')
