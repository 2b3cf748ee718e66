-- ===== src/Quic/Loss/Flight.antt =====
-- core/quic_loss.go: the packets in flight of the three spaces, and what `bytesInFlight` should be.
pub mod Acks
use alos_http.Prelude.{
  ℕ, ◌+◌, ◌≡◌, refl, ltb, leb, Bool, true, false, ◌&&◌, List, [], ◌∷◌, ◌++◌, if◌then◌else◌, Option,
  none, some, arith, Bool-cases, inl, inr, Option-cases, ◌∙◌,
}
use alos_http.Quic.Frame.{AckFrame}
use alos_http.Quic.Ack.{PnRange}
use alos_http.Quic.Loss.{
  LossState, SentPacket, Space, PerSpace, Tally, at, put, initial, handshake, app_data,
  new_loss_state, on_packet_sent,
}
use alos_http.Quic.Loss.Received.{
  mark_loop, mark_acked, mark_blocks, tally_packet, process_ack, note_largest, on_ack_received,
  grow_cwnd, sample_rtt, update_rtt,
}
use alos_http.Quic.Loss.Detect.{
  Sweep, sweep, take_out, release_bytes, discard_space, detect_lost, pto_expired_frames,
  halve_window, finish_sweep, start_sweep, is_lost, loss_delay, pto_timeout, reset_for_new_path,
}

-- The size of the packets in flight of a list, and of the three spaces.
unfoldable pub flight : List SentPacket → ℕ
flight [] = 0
flight (sp ∷ sps) = (if sp.in_flight then sp.size else 0) + flight sps

unfoldable pub total_flight : PerSpace (List SentPacket) → ℕ
total_flight p = flight p.in_initial + flight p.in_handshake + flight p.in_app_data

abbrev pub IsAccounted : LossState → Type 0
IsAccounted ls = ls.bytes_in_flight ≡ total_flight ls.sent

pub flight-append : (xs ys : List SentPacket) → flight (xs ++ ys) ≡ flight xs + flight ys
unfolding flight
flight-append [] ys = omega arith
flight-append (x ∷ xs) ys = omega (arith, flight-append xs ys)

abbrev pub weight : SentPacket → ℕ
weight sp = if sp.in_flight then sp.size else 0

-- The flight of the other spaces, and the total through it.
unfoldable pub beside : (p : PerSpace (List SentPacket)) → Space → ℕ
beside p initial = flight p.in_handshake + flight p.in_app_data
beside p handshake = flight p.in_initial + flight p.in_app_data
beside p app_data = flight p.in_initial + flight p.in_handshake

pub total-beside :
    (p : PerSpace (List SentPacket)) (space : Space)
    → total_flight p ≡ flight (at p space) + beside p space
unfolding total_flight beside
total-beside p initial = omega arith
total-beside p handshake = omega arith
total-beside p app_data = omega arith

pub total-put :
    (p : PerSpace (List SentPacket)) (space : Space) (sps : List SentPacket)
    → total_flight (put p space sps) ≡ flight sps + beside p space
unfolding total_flight beside
total-put p initial sps = omega arith
total-put p handshake sps = omega arith
total-put p app_data sps = omega arith
