-- ===== src/Quic/Loss/Accounting.antt =====
-- core/quic_loss.go: `bytesInFlight` is the size of the packets in flight.
use alos_http.Prelude.{
  ℕ, ◌+◌, ◌≡◌, refl, ltb, Bool, true, false, ◌&&◌, List, [], ◌∷◌, ◌++◌, if◌then◌else◌, arith,
  Bool-cases, inl, inr, Option-cases, ◌∙◌,
}
use alos_http.Quic.Frame.{AckFrame}
use alos_http.Quic.Loss.{LossState, SentPacket, Space, at, new_loss_state, on_packet_sent}
use alos_http.Quic.Loss.Received.{on_ack_received}
use alos_http.Quic.Loss.Detect.{
  Sweep, sweep, take_out, release_bytes, discard_space, detect_lost, pto_expired_frames,
  halve_window, finish_sweep, start_sweep, is_lost, loss_delay, pto_timeout, reset_for_new_path,
  set_peer_max_ack_delay,
}
use alos_http.Quic.Loss.Flight.{
  flight, total_flight, IsAccounted, flight-append, weight, beside, total-beside, total-put,
}
use alos_http.Quic.Loss.Flight.Acks.{on_packet_sent-IsAccounted, on_ack_received-IsAccounted}

take_out-flight :
    (sp : SentPacket) (s : Sweep) (rest other : ℕ)
    → s.bytes ≡ flight s.remaining + (weight sp + rest) + other
    → (take_out sp s).bytes ≡ flight (take_out sp s).remaining + rest + other
unfolding take_out
take_out-flight sp s rest other h = ground arith

sweep-flight :
    (test : SentPacket → Bool) (sps : List SentPacket) (s : Sweep) (other : ℕ)
    → s.bytes ≡ flight s.remaining + flight sps + other
    → (sweep test sps s).bytes ≡ flight (sweep test sps s).remaining + other
unfolding sweep flight
sweep-flight test [] s other h = omega arith
sweep-flight test (sp ∷ sps) s other h = elim (Bool-cases (test sp)) [
  | inl hit ↦
      rw (hit, sweep)
        (sweep-flight test sps (take_out sp s) other (take_out-flight sp s (flight sps) other h))
  | inr miss ↦
      rw (miss, sweep)
        (sweep-flight test sps (record s { remaining = s.remaining ++ (sp ∷ []) }) other
          (omega (arith, flight-append s.remaining (sp ∷ []))))
]

finish_sweep-IsAccounted :
    (ls : LossState) (space : Space) (test : SentPacket → Bool) (frames : List (List ℕ))
    → IsAccounted ls
    → IsAccounted (finish_sweep ls space (sweep test (at ls.sent space) (start_sweep ls frames)))
unfolding finish_sweep
finish_sweep-IsAccounted ls space test frames h =
    let s = sweep test (at ls.sent space) (start_sweep ls frames) in
    omega (
      arith,
      total-put ls.sent space s.remaining,
      sweep-flight test (at ls.sent space) (start_sweep ls frames) (beside ls.sent space)
          (unfold flight in omega (arith, total-beside ls.sent space)),
    )

halve_window-IsAccounted : (ls : LossState) → IsAccounted ls → IsAccounted (halve_window ls)
unfolding halve_window
halve_window-IsAccounted ls h = h

after_loss-IsAccounted :
    (lost : Bool) (ls : LossState)
    → IsAccounted ls
    → IsAccounted (if lost then halve_window ls else ls)
after_loss-IsAccounted true ls h = halve_window-IsAccounted ls h
after_loss-IsAccounted false ls h = h

detect_lost-IsAccounted :
    (ls : LossState) (space : Space) (now : ℕ) (frames : List (List ℕ))
    → IsAccounted ls
    → IsAccounted (detect_lost ls space now frames).0
unfolding detect_lost
detect_lost-IsAccounted ls space now frames h = elim (Option-cases (at ls.largest_acked space)) [
  | inl fresh ↦ rw (fresh, detect_lost) h
  | inr (largest, e) ↦
      let test = is_lost largest now (loss_delay ls) in
      let s = sweep test (at ls.sent space) (start_sweep ls frames) in
      rw (e, detect_lost)
        (after_loss-IsAccounted s.had_loss (finish_sweep ls space s)
          (finish_sweep-IsAccounted ls space test frames h))
]

pto_expired_frames-IsAccounted :
    (ls : LossState) (space : Space) (now : ℕ)
    → IsAccounted ls
    → IsAccounted (pto_expired_frames ls space now).0
unfolding pto_expired_frames
pto_expired_frames-IsAccounted ls space now h =
    let swept =
      finish_sweep-IsAccounted ls space (λ sp. sp.ack_elicit && ltb (sp.sent + pto_timeout ls) now)
        [] h in
    ground (arith, swept)

release_bytes-flight :
    (sps : List SentPacket) (bytes other : ℕ)
    → bytes ≡ flight sps + other
    → release_bytes sps bytes ≡ other
unfolding release_bytes flight
release_bytes-flight [] bytes other h = omega arith
release_bytes-flight (sp ∷ sps) bytes other h = release_bytes-flight sps _ other (ground arith)

discard_space-IsAccounted :
    (ls : LossState) (space : Space) → IsAccounted ls → IsAccounted (discard_space ls space)
unfolding discard_space
discard_space-IsAccounted ls space h =
    unfold flight in
    omega (
      arith,
      total-put ls.sent space [],
      release_bytes-flight (at ls.sent space) ls.bytes_in_flight (beside ls.sent space)
          (h ∙ total-beside ls.sent space),
    )

-- The calls that a connection makes on its loss state.
pub data LossCall : Type 0 where
  sends : Space → ℕ → ℕ → ℕ → Bool → List ℕ → LossCall
  acks : Space → AckFrame → ℕ → ℕ → ℕ → LossCall
  detects : Space → ℕ → LossCall
  expires : Space → ℕ → LossCall
  discards : Space → LossCall
  moves : LossCall
  delays : ℕ → LossCall

pub call : LossState → LossCall → LossState
call ls (sends space now pn size elicit frames) = on_packet_sent ls space now pn size elicit frames
call ls (acks space f delay next now) = (on_ack_received ls space f delay next now).0
call ls (detects space now) = (detect_lost ls space now []).0
call ls (expires space now) = (pto_expired_frames ls space now).0
call ls (discards space) = discard_space ls space
call ls moves = reset_for_new_path ls
call ls (delays d) = set_peer_max_ack_delay ls d

pub calls : LossState → List LossCall → LossState
calls ls [] = ls
calls ls (c ∷ cs) = calls (call ls c) cs

call-IsAccounted : (ls : LossState) (c : LossCall) → IsAccounted ls → IsAccounted (call ls c)
unfolding call
call-IsAccounted ls (sends space now pn size elicit frames) h =
    on_packet_sent-IsAccounted ls space now pn size elicit frames h
call-IsAccounted ls (acks space f delay next now) h =
    on_ack_received-IsAccounted ls space f delay next now h
call-IsAccounted ls (detects space now) h = detect_lost-IsAccounted ls space now [] h
call-IsAccounted ls (expires space now) h = pto_expired_frames-IsAccounted ls space now h
call-IsAccounted ls (discards space) h = discard_space-IsAccounted ls space h
call-IsAccounted ls moves h = unfold reset_for_new_path in h
call-IsAccounted ls (delays d) h = unfold set_peer_max_ack_delay in h

calls-IsAccounted :
    (ls : LossState) (cs : List LossCall) → IsAccounted ls → IsAccounted (calls ls cs)
unfolding calls
calls-IsAccounted ls [] h = h
calls-IsAccounted ls (c ∷ cs) h = calls-IsAccounted (call ls c) cs (call-IsAccounted ls c h)

-- After any history of a connection, the bytes in flight are the sizes of the tracked packets that
-- are in flight, over the three spaces: no byte is counted twice, and none is leaked by an
-- acknowledgement, a loss, a probe timeout, a discarded space or a new path.
pub bytes_in_flight_exact :
    (cs : List LossCall)
    → let ls = calls new_loss_state cs in ls.bytes_in_flight ≡ total_flight ls.sent
bytes_in_flight_exact cs =
    calls-IsAccounted new_loss_state cs (unfold new_loss_state total_flight flight in refl)
