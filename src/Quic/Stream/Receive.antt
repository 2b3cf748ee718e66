-- ===== src/Quic/Stream/Receive.antt =====
-- core/quic_stream.go: handleStreamFrame with the reservations it makes. The body
-- budget of the connection is a parameter.
pub mod Coalesce
pub mod Takes
pub mod Taken
pub mod Valid
pub mod Handled
pub mod Others
use alos_http.Prelude.{
  ℕ, zero, suc, ◌+◌, ◌-◌, ◌/◌, min, max, ltb, leb, ◌==◌, Bool, true, false, not, ◌&&◌, ◌||◌, List,
  [], ◌∷◌, ◌++◌, length, take, drop, if◌then◌else◌, Option, none, some, add64, Result, ok, err,
}
use alos_http.Server.Budget.{BodyBudget}
use alos_http.Quic.Stream.{
  RecvStream, Charge, Segment, seg_end, outstanding, violates_final_size, ooo_segment_overhead,
  min_ooo_segment_cap, ooo_window_bytes_per_gap,
}
use alos_http.Quic.Stream.Segments.{first_ending_after, ooo_new_bytes, filled}

unfoldable pub ooo_segment_cap : RecvStream → ℕ
ooo_segment_cap s = max min_ooo_segment_cap (s.recv_window / ooo_window_bytes_per_gap)

-- The ends of `handleStreamFrame`: the final size, the end of the data, and the cap.
unfoldable pub note_final_size : RecvStream → ℕ → Bool → RecvStream
note_final_size s end fin = record s {
  recv_fin_seen = s.recv_fin_seen || fin;
  recv_fin_off = if fin then end else s.recv_fin_off;
}

unfoldable pub note_end_of_data : RecvStream → RecvStream
note_end_of_data s = record s {
  recv_fin = s.recv_fin || (s.recv_fin_seen && leb s.recv_fin_off s.recv_off);
}

unfoldable pub note_overflow : RecvStream → RecvStream
note_overflow s =
    let over = not s.recv_fin && leb s.max_recv s.recv_off in
    record s { recv_overflow = s.recv_overflow || over; recv_fin = s.recv_fin || over }

-- The pair that `handleStreamFrame` returns: no flag, one of the error flags, or the accepted bytes
-- with the flag `quicRecvEndOfData`.
pub data Received : Type 0 where
  ignored : Received
  violation : Received
  final_size_error : Received
  rejected : Received
  received : ℕ → Bool → Received

-- `consumeRecvFlowCredit` of the connection (core/quic_conn.go).
module _ {B : Type 0} where
  unfoldable pub consume_recv_flow_credit : Charge B → ℕ → Bool × Charge B
  consume_recv_flow_credit c n =
      let used = add64 c.flow_used n in (leb used c.flow_limit, record c { flow_used = used })

  -- `handleStreamFrame` once the frame's data are dealt with.
  unfoldable pub finish_frame :
      ℕ → Bool → Option ℕ × RecvStream × Charge B → Received × RecvStream × Charge B
  finish_frame end fin (none, s, c) = (rejected, record s { recv_closed = true }, c)
  finish_frame end fin (some n, s, c) =
      let s' = note_overflow (note_end_of_data (note_final_size s end fin)) in
      (received n s'.recv_fin, s', c)

module _ {B : Type 0} (budget : BodyBudget B) where
  -- A reservation that the budget answered.
  unfoldable pub charge_if : Bool × B → Charge B → ℕ → Bool × Charge B
  charge_if (false, body) c n = (false, record c { body = body })
  charge_if (true, body) c n = (true, record c { body = body; accounted = c.accounted + n })

  unfoldable pub reserve : RecvStream → Charge B → ℕ → Bool × Charge B
  reserve s c zero = (true, c)
  reserve s c (suc n) =
      if ltb s.max_recv (outstanding s + suc n)
      then (false, c)
      else charge_if (budget.try_reserve c.body (suc n)) c (suc n)

  unfoldable pub release_reserved : Charge B → ℕ → Charge B
  release_reserved c zero = c
  release_reserved c (suc n) = record c {
    body = budget.release c.body (suc n);
    accounted = c.accounted - suc n;
  }

  unfoldable pub reserve_segment_overhead : Charge B → Bool × Charge B
  reserve_segment_overhead c =
      charge_if (budget.try_reserve c.body ooo_segment_overhead) c ooo_segment_overhead

  -- The reservations of `insertOOO`, the second undoing the first where it fails.
  unfoldable pub reserve_ooo : RecvStream → Charge B → ℕ × Bool → Bool × Charge B
  reserve_ooo s c (n, opens) =
      if opens && leb (ooo_segment_cap s) (length s.recv_ooo)
      then (false, c)
      else let (first, c') = reserve s c n in
        if not first
        then (false, c')
        else if not opens
        then (true, c')
        else let (second, c'') = reserve_segment_overhead c' in
          if second then (true, c'') else (false, release_reserved c'' n)

  -- `insertOOO`: the new bytes, or `none` where the segment is refused.
  unfoldable pub insert_ooo : RecvStream → Charge B → ℕ → List ℕ → Option ℕ × RecvStream × Charge B
  insert_ooo s c off payload =
      let p = first_ending_after off none s.recv_ooo in
      let fresh = ooo_new_bytes off (off + length payload) p.prev off p.after (0, false) in
      let s' = record s { recv_ooo = filled off payload p; ooo_bytes = s.ooo_bytes + fresh.0 } in
      let (kept, c') = reserve_ooo s c fresh in
      if fresh.0 == 0
      then (some 0, s, c)
      else if kept
      then (some fresh.0, s', c')
      else (none, s, c')

  -- One consumed segment of `coalesceOOO`.
  unfoldable pub consume_segment : RecvStream → Charge B → Segment → RecvStream × Charge B
  consume_segment s c g =
      let c' = release_reserved c ooo_segment_overhead in
      let left = s.ooo_bytes - length g.payload in
      if leb (seg_end g) s.recv_off
      then (record s { ooo_bytes = left }, release_reserved c' (length g.payload))
      else (
        record s {
          ooo_bytes = left;
          recv_buf = s.recv_buf ++ drop (s.recv_off - g.off) g.payload;
          recv_off = seg_end g;
        },
        release_reserved c' (s.recv_off - g.off),
      )

  -- `coalesceOOO`, with the segments that are left; `dropFront` takes off the others.
  unfoldable pub coalesce_ooo : RecvStream → Charge B → List Segment → RecvStream × Charge B
  coalesce_ooo s c [] = (record s { recv_ooo = [] }, c)
  coalesce_ooo s c (g ∷ gs) =
      let r = consume_segment s c g in
      let rest = coalesce_ooo r.0 r.1 gs in
      if ltb s.recv_off g.off then (record s { recv_ooo = g ∷ gs }, c) else rest

  -- `appendContig` and the `coalesceOOO` behind it.
  unfoldable pub append_contig : RecvStream → Charge B → List ℕ → Option ℕ × RecvStream × Charge B
  append_contig s c payload =
      let s' = record s {
        recv_buf = s.recv_buf ++ payload;
        recv_off = s.recv_off + length payload;
      } in
      let (kept, c') = reserve s c (length payload) in
      let (joined, c'') = coalesce_ooo s' c' s'.recv_ooo in
      if kept then (some (length payload), joined, c'') else (none, s, c')

  -- The data of a frame: what lies below `recvOff` is cut off, the rest is next or ahead.
  unfoldable pub take_data : RecvStream → Charge B → ℕ → List ℕ → Option ℕ × RecvStream × Charge B
  take_data s c off payload =
      let trim = if ltb off s.recv_off then s.recv_off - off else 0 in
      let off' = if ltb off s.recv_off then s.recv_off else off in
      if length payload == 0 || leb (off + length payload) s.recv_off
      then (some 0, s, c)
      else if off' == s.recv_off
      then append_contig s c (drop trim payload)
      else insert_ooo s c off' (drop trim payload)

  unfoldable pub admit_frame :
      RecvStream → Charge B → ℕ → List ℕ → Bool → Received × RecvStream × Charge B
  admit_frame s c off payload fin =
      let end = off + length payload in
      let (within, c') = consume_recv_flow_credit c (end - s.recv_max) in
      if ltb s.recv_max end
      then if within
        then finish_frame end fin (take_data (record s { recv_max = end }) c' off payload)
        else (violation, s, c')
      else finish_frame end fin (take_data s c off payload)

  unfoldable pub handle_stream_frame :
      RecvStream → Charge B → ℕ → List ℕ → Bool → Received × RecvStream × Charge B
  handle_stream_frame s c off payload fin =
      let end = off + length payload in
      if s.recv_closed || s.recv_overflow
      then (ignored, s, c)
      else if ltb s.recv_granted end
      then (violation, s, c)
      else if violates_final_size s end fin
      then (final_size_error, s, c)
      else admit_frame s c off payload fin
