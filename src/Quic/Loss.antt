-- ===== src/Quic/Loss.antt =====
-- core/quic_loss.go: sent packets, acknowledgements, loss and congestion; here the state, the log of
-- send times and `onPacketSent`. Times and durations are
-- numbers of nanoseconds, and the clock is an argument. The buffers of `quicFramePool` are left out.
pub mod Received
pub mod Detect
pub mod Flight
pub mod Accounting
pub mod Named
pub mod Acked
pub mod Resend
use alos_http.Prelude.{
  ℕ, zero, suc, ◌+◌, ◌-◌, ◌*◌, ◌/◌, ◌%◌, ◌^◌, ◌≤◌, ◌<◌, min, max, ltb, leb, ◌==◌, Bool, true, false,
  not, ◌&&◌, ◌||◌, List, [], ◌∷◌, ◌++◌, length, if◌then◌else◌, Option, none, some, u64_mod,
}

abbrev pub initial_rtt : ℕ
initial_rtt = 100_000_000

abbrev pub max_ack_delay : ℕ
max_ack_delay = 25_000_000

abbrev pub timer_granularity : ℕ
timer_granularity = 1_000_000

abbrev pub packet_threshold : ℕ
packet_threshold = 3

abbrev pub max_tracked_sent : ℕ
max_tracked_sent = 16384

abbrev pub max_packet_size : ℕ
max_packet_size = 1200

abbrev pub initial_window : ℕ
initial_window = 10 * max_packet_size

-- `math.MaxUint64`.
abbrev pub max_u64 : ℕ
max_u64 = u64_mod - 1

abbrev pub send_time_log_entries : ℕ
send_time_log_entries = 128

-- The packet-number spaces, which index the arrays of three.
pub data Space : Type 0 where
  initial handshake app_data : Space

pub record PerSpace (A : Type 0) : Type 0 where
  pub in_initial : A
  pub in_handshake : A
  pub in_app_data : A

abbrev pub at : {A : Type 0} → PerSpace A → Space → A
at p initial = p.in_initial
at p handshake = p.in_handshake
at p app_data = p.in_app_data

abbrev pub put : {A : Type 0} → PerSpace A → Space → A → PerSpace A
put p initial a = record p { in_initial = a }
put p handshake a = record p { in_handshake = a }
put p app_data a = record p { in_app_data = a }

pub record SendTime : Type 0 where
  pub pn : ℕ
  pub sent_at : ℕ

pub record SendTimeLog : Type 0 where
  pub entries : ℕ → SendTime
  pub written : ℕ
  pub last_at : ℕ

pub record SentPacket : Type 0 where
  pub pn : ℕ
  pub sent : ℕ
  pub size : ℕ
  pub ack_elicit : Bool
  pub frames : List ℕ
  pub in_flight : Bool

-- `quicLossState`. `largestAcked` is -1 before the first acknowledgement: `none`.
pub record LossState : Type 0 where
  pub smoothed_rtt : ℕ
  pub rtt_var : ℕ
  pub min_rtt : ℕ
  pub first_rtt_done : Bool
  pub largest_acked : PerSpace (Option ℕ)
  pub sent : PerSpace (List SentPacket)
  pub bytes_in_flight : ℕ
  pub cwnd : ℕ
  pub ssthresh : ℕ
  pub pto_count : ℕ
  pub peer_max_ack_delay : ℕ
  pub app_send_times : SendTimeLog

pub record Tally : Type 0 where
  pub largest : ℕ
  pub largest_sent : ℕ
  pub acked_in_flight : ℕ
  pub largest_tracked : Bool
  pub any_acked : Bool

-- `quicSendTimeLog.record` and `sentAt`, which looks back over the entries that are still there.
unfoldable pub log_record : SendTimeLog → ℕ → ℕ → SendTimeLog
log_record l pn now = if now == l.last_at then l else record {
  entries = λ i.
      if i == l.written % send_time_log_entries
      then record { pn = pn; sent_at = now }
      else l.entries i;
  written = l.written + 1;
  last_at = now;
}

unfoldable pub look_back : SendTimeLog → ℕ → ℕ → ℕ → Option ℕ
look_back l pn zero i = none
look_back l pn (suc left) i =
    let e = l.entries ((i - 1) % send_time_log_entries) in
    let earlier = look_back l pn left (i - 1) in if leb e.pn pn then some e.sent_at else earlier

unfoldable pub log_sent_at : SendTimeLog → ℕ → Option ℕ
log_sent_at l pn = look_back l pn (min l.written send_time_log_entries) l.written

unfoldable pub new_loss_state : LossState
new_loss_state = record {
  smoothed_rtt = initial_rtt;
  rtt_var = initial_rtt / 2;
  min_rtt = 0;
  first_rtt_done = false;
  largest_acked = record { in_initial = none; in_handshake = none; in_app_data = none };
  sent = record { in_initial = []; in_handshake = []; in_app_data = [] };
  bytes_in_flight = 0;
  cwnd = initial_window;
  ssthresh = max_u64;
  pto_count = 0;
  peer_max_ack_delay = max_ack_delay;
  app_send_times = record {
    entries = λ _. record { pn = 0; sent_at = 0 };
    written = 0;
    last_at = 0;
  };
}

abbrev pub is_app_data : Space → Bool
is_app_data app_data = true
is_app_data _ = false

unfoldable pub on_packet_sent : LossState → Space → ℕ → ℕ → ℕ → Bool → List ℕ → LossState
on_packet_sent ls space now pn size ack_elicit frames =
    let log =
      if is_app_data space then log_record ls.app_send_times pn now else ls.app_send_times in
    let sp : SentPacket = record {
      pn = pn;
      sent = now;
      size = size;
      ack_elicit = ack_elicit;
      frames = frames;
      in_flight = ack_elicit;
    } in
    if not ack_elicit then record ls { app_send_times = log } else record ls {
      app_send_times = log;
      sent = put ls.sent space (at ls.sent space ++ (sp ∷ []));
      bytes_in_flight = ls.bytes_in_flight + size;
    }
