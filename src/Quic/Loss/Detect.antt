-- ===== src/Quic/Loss/Detect.antt =====
-- core/quic_loss.go: declaring packets lost, the probe timeout, and what resets the state.
use alos_http.Prelude.{
  ℕ, ◌+◌, ◌-◌, ◌*◌, ◌/◌, ◌^◌, max, ltb, leb, Bool, true, false, ◌&&◌, ◌||◌, List, [], ◌∷◌, ◌++◌,
  length, if◌then◌else◌, none, some,
}
use alos_http.Quic.Loss.{
  LossState, SentPacket, Space, app_data, at, put, initial_rtt, timer_granularity, packet_threshold,
  max_tracked_sent, max_packet_size, initial_window, max_u64,
}

-- The packets of a loop that stay, the bytes in flight after it, and what it hands back.
pub record Sweep : Type 0 where
  pub remaining : List SentPacket
  pub bytes : ℕ
  pub frames : List (List ℕ)
  pub had_loss : Bool

abbrev pub has_frames : List ℕ → Bool
has_frames [] = false
has_frames (x ∷ xs) = true

-- A packet that the loop takes out.
unfoldable pub take_out : SentPacket → Sweep → Sweep
take_out sp s = record {
  remaining = s.remaining;
  bytes = if sp.in_flight then s.bytes - sp.size else s.bytes;
  frames = if has_frames sp.frames then s.frames ++ (sp.frames ∷ []) else s.frames;
  had_loss = s.had_loss || sp.in_flight;
}

-- A loop over the sent packets of a space that takes out those of a test, in order.
unfoldable pub sweep : (SentPacket → Bool) → List SentPacket → Sweep → Sweep
sweep test [] s = s
sweep test (sp ∷ sps) s =
    sweep test sps
      (if test sp then take_out sp s else record s { remaining = s.remaining ++ (sp ∷ []) })

-- `discardSpace`: every packet of the space leaves the count.
unfoldable pub release_bytes : List SentPacket → ℕ → ℕ
release_bytes [] bytes = bytes
release_bytes (sp ∷ sps) bytes = release_bytes sps (if sp.in_flight then bytes - sp.size else bytes)

unfoldable pub discard_space : LossState → Space → LossState
discard_space ls space = record ls {
  bytes_in_flight = release_bytes (at ls.sent space) ls.bytes_in_flight;
  sent = put ls.sent space [];
}

-- A packet is lost by the packet threshold or by the time threshold. The duration is 9/8 of the
-- RTT, which the code computes in floating point (exactly, below 2^49 nanoseconds).
unfoldable pub loss_delay : LossState → ℕ
loss_delay ls =
    let delay = max ls.smoothed_rtt ls.min_rtt * 9 / 8 in
    if ltb delay timer_granularity then timer_granularity else delay

unfoldable pub is_lost : ℕ → ℕ → ℕ → SentPacket → Bool
is_lost largest now delay sp =
    let threshold =
      if ltb packet_threshold (largest + 1) then largest - packet_threshold + 1 else 0 in
    leb sp.pn largest && (ltb sp.pn threshold || ltb (sp.sent + delay) now)

unfoldable pub halve_window : LossState → LossState
halve_window ls =
    let half = ls.cwnd / 2 in
    let ssthresh = if ltb half (2 * max_packet_size) then 2 * max_packet_size else half in
    record ls { ssthresh = ssthresh; cwnd = ssthresh }

abbrev pub start_sweep : LossState → List (List ℕ) → Sweep
start_sweep ls frames = record {
  remaining = [];
  bytes = ls.bytes_in_flight;
  frames = frames;
  had_loss = false;
}

unfoldable pub finish_sweep : LossState → Space → Sweep → LossState
finish_sweep ls space s = record ls {
  sent = put ls.sent space s.remaining;
  bytes_in_flight = s.bytes;
}

-- `detectLost`.
unfoldable pub detect_lost : LossState → Space → ℕ → List (List ℕ) → LossState × List (List ℕ)
detect_lost ls space now lost_frames = elim (at ls.largest_acked space) [
  | none ↦ (ls, lost_frames)
  | some largest ↦
      let s =
        sweep (is_lost largest now (loss_delay ls)) (at ls.sent space)
          (start_sweep ls lost_frames) in
      let ls' = finish_sweep ls space s in (if s.had_loss then halve_window ls' else ls', s.frames)
]

unfoldable pub reset_for_new_path : LossState → LossState
reset_for_new_path ls = record ls {
  smoothed_rtt = initial_rtt;
  rtt_var = initial_rtt / 2;
  min_rtt = 0;
  first_rtt_done = false;
  cwnd = initial_window;
  ssthresh = max_u64;
  pto_count = 0;
}

-- `setPeerMaxAckDelay`.
unfoldable pub set_peer_max_ack_delay : LossState → ℕ → LossState
set_peer_max_ack_delay ls d = record ls { peer_max_ack_delay = d }

unfoldable pub pto_timeout : LossState → ℕ
pto_timeout ls =
    (ls.smoothed_rtt + max (4 * ls.rtt_var) timer_granularity + ls.peer_max_ack_delay)
    * 2 ^ ls.pto_count

unfoldable pub can_send : LossState → Bool
can_send ls = ltb ls.bytes_in_flight ls.cwnd && ltb (length (at ls.sent app_data)) max_tracked_sent

abbrev pub oldest_is_recent : List SentPacket → ℕ → ℕ → Bool
oldest_is_recent [] pto now = true
oldest_is_recent (sp ∷ sps) pto now = leb now (sp.sent + pto)

-- `ptoExpiredFrames`.
unfoldable pub pto_expired_frames : LossState → Space → ℕ → LossState × List (List ℕ)
pto_expired_frames ls space now =
    let pto = pto_timeout ls in
    let sent = at ls.sent space in
    let s = sweep (λ sp. sp.ack_elicit && ltb (sp.sent + pto) now) sent (start_sweep ls []) in
    let ls' = finish_sweep ls space s in
    let probes = if ltb 0 (length s.frames) then ls.pto_count + 1 else ls.pto_count in
    if oldest_is_recent sent pto now
    then (ls, [])
    else (record ls' { pto_count = probes }, s.frames)
