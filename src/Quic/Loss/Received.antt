-- ===== src/Quic/Loss/Received.antt =====
-- core/quic_loss.go: `onAckReceived` and what it calls.
use alos_http.Prelude.{
  ℕ, ◌+◌, ◌-◌, ◌*◌, ◌/◌, ◌%◌, ltb, leb, ◌==◌, Bool, true, false, not, ◌&&◌, ◌||◌, List, [], ◌∷◌,
  if◌then◌else◌, Option, none, some, u64_mod,
}
use alos_http.Quic.Frame.{AckFrame, AckRange}
use alos_http.Quic.Ack.{PnRange}
use alos_http.Quic.Loss.{
  LossState, SentPacket, Space, Tally, at, put, is_app_data, log_sent_at, timer_granularity,
  max_packet_size,
}

-- The body of `markAcked`'s loop for a packet in the range: the bytes in flight and the tally.
unfoldable pub tally_packet : SentPacket → ℕ × Tally → ℕ × Tally
tally_packet sp (bytes, t) =
    let bytes' = if sp.in_flight then bytes - sp.size else bytes in
    let acked = if sp.in_flight then t.acked_in_flight + sp.size else t.acked_in_flight in
    if sp.pn == t.largest
    then (
      bytes',
      record {
        largest = t.largest;
        largest_sent = sp.sent;
        acked_in_flight = acked;
        largest_tracked = true;
        any_acked = true;
      },
    )
    else (bytes', record t { acked_in_flight = acked; any_acked = true })

unfoldable pub mark_loop : ℕ → ℕ → List SentPacket → ℕ × Tally → List SentPacket × ℕ × Tally
mark_loop lo hi [] s = ([], s.0, s.1)
mark_loop lo hi (sp ∷ sps) s =
    let hit = leb lo sp.pn && leb sp.pn hi in
    let done = mark_loop lo hi sps (if hit then tally_packet sp s else s) in
    ((if hit then done.0 else sp ∷ done.0), done.1, done.2)

unfoldable pub mark_acked : LossState → Space → ℕ → ℕ → Tally → LossState × Tally
mark_acked ls space lo hi t =
    let done = mark_loop lo hi (at ls.sent space) (ls.bytes_in_flight, t) in
    (record ls { sent = put ls.sent space done.0; bytes_in_flight = done.1 }, done.2)

-- The ranges of packet numbers that an ACK frame stands for, as `onAckReceived` walks through
-- them: it breaks off where a range would reach below 0.
unfoldable pub ack_blocks_from : ℕ → List AckRange → List PnRange
ack_blocks_from lo [] = []
ack_blocks_from lo (r ∷ rs) =
    let hi = lo - r.gap - 2 in
    let rest = ack_blocks_from (hi - r.count) rs in
    if ltb lo (r.gap + 2)
    then []
    else if ltb hi r.count
    then []
    else record { lo = hi - r.count; hi = hi } ∷ rest

unfoldable pub ack_blocks : AckFrame → List PnRange
ack_blocks f =
    record { lo = f.largest_ack - f.first_range; hi = f.largest_ack }
    ∷ ack_blocks_from (f.largest_ack - f.first_range) f.ranges

unfoldable pub mark_blocks : LossState → Space → List PnRange → Tally → LossState × Tally
mark_blocks ls space [] t = (ls, t)
mark_blocks ls space (b ∷ bs) t =
    let marked = mark_acked ls space b.lo b.hi t in mark_blocks marked.0 space bs marked.1

unfoldable pub largest_acked_sent_time : LossState → Space → Tally → Bool → Option ℕ
largest_acked_sent_time ls space t newly_largest =
    if not t.any_acked
    then none
    else if t.largest_tracked
    then some t.largest_sent
    else if newly_largest && is_app_data space
    then log_sent_at ls.app_send_times t.largest
    else none

unfoldable pub update_rtt : LossState → ℕ → ℕ → LossState
update_rtt ls latest ack_delay =
    let least = if ls.min_rtt == 0 || ltb latest ls.min_rtt then latest else ls.min_rtt in
    let adjusted = if leb (least + ack_delay) latest then latest - ack_delay else latest in
    let s = ls.smoothed_rtt in
    let diff = if ltb s adjusted then adjusted - s else s - adjusted in
    if not ls.first_rtt_done
    then record ls {
      min_rtt = least;
      smoothed_rtt = latest;
      rtt_var = latest / 2;
      first_rtt_done = true;
    }
    else record ls {
      min_rtt = least;
      rtt_var = (3 * ls.rtt_var + diff) / 4;
      smoothed_rtt = (7 * s + adjusted) / 8;
    }

-- `turbo.Since(sent)`, at least the timer's granularity.
unfoldable pub sample_rtt : LossState → Option ℕ → ℕ → ℕ → LossState
sample_rtt ls none now ack_delay = ls
sample_rtt ls (some sent) now ack_delay =
    let latest = now - sent in
    update_rtt ls (if ltb latest timer_granularity then timer_granularity else latest) ack_delay

-- The congestion window's growth; a uint64 sum.
unfoldable pub grow_cwnd : LossState → ℕ → LossState
grow_cwnd ls acked =
    if not (ltb 0 acked)
    then ls
    else if ltb ls.cwnd ls.ssthresh
    then record ls { cwnd = (ls.cwnd + acked) % u64_mod }
    else record ls { cwnd = (ls.cwnd + max_packet_size * acked % u64_mod / ls.cwnd) % u64_mod }

abbrev pub above : ℕ → Option ℕ → Bool
above n none = true
above n (some m) = ltb m n

abbrev pub oldest_acked : List SentPacket → Option ℕ → Bool
oldest_acked [] acked = false
oldest_acked (sp ∷ sps) acked = not (above sp.pn acked)

pub data AckResult : Type 0 where
  ignored unsent_packet : AckResult
  acked : Bool → AckResult

unfoldable pub note_largest : LossState → Space → ℕ → LossState
note_largest ls space n =
    if above n (at ls.largest_acked space)
    then record ls { largest_acked = put ls.largest_acked space (some n) }
    else ls

abbrev pub new_tally : ℕ → Tally
new_tally n = record {
  largest = n;
  largest_sent = 0;
  acked_in_flight = 0;
  largest_tracked = false;
  any_acked = false;
}

-- `onAckReceived` behind its two checks.
unfoldable pub process_ack : LossState → Space → AckFrame → ℕ → ℕ → LossState × AckResult
process_ack ls space f ack_delay now =
    let newly = above f.largest_ack (at ls.largest_acked space) in
    let marked =
      mark_blocks (note_largest ls space f.largest_ack) space (ack_blocks f)
        (new_tally f.largest_ack) in
    let t = marked.1 in
    let sampled =
      sample_rtt marked.0 (largest_acked_sent_time marked.0 space t newly) now ack_delay in
    let grown = record (grow_cwnd sampled t.acked_in_flight) { pto_count = 0 } in
    (grown, acked (oldest_acked (at grown.sent space) (at grown.largest_acked space)))

unfoldable pub on_ack_received : LossState → Space → AckFrame → ℕ → ℕ → ℕ → LossState × AckResult
on_ack_received ls space f ack_delay next_pn now =
    if ltb f.largest_ack f.first_range
    then (ls, ignored)
    else if leb next_pn f.largest_ack
    then (ls, unsent_packet)
    else process_ack ls space f ack_delay now
