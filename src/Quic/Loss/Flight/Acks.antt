-- ===== src/Quic/Loss/Flight/Acks.antt =====
-- core/quic_loss.go: sending and acknowledgements keep `bytesInFlight` right.
use alos_http.Prelude.{
  ℕ, ◌+◌, ◌≡◌, leb, Bool, true, false, ◌&&◌, List, [], ◌∷◌, ◌++◌, Option, none, some, arith,
  Bool-cases, inl, inr, ◌∙◌,
}
use alos_http.Quic.Frame.{AckFrame}
use alos_http.Quic.Ack.{PnRange}
use alos_http.Quic.Loss.{LossState, SentPacket, Space, Tally, at, on_packet_sent}
use alos_http.Quic.Loss.Received.{
  mark_loop, mark_acked, mark_blocks, tally_packet, process_ack, note_largest, on_ack_received,
  grow_cwnd, sample_rtt, update_rtt,
}
use alos_http.Quic.Loss.Flight.{
  flight, IsAccounted, flight-append, weight, beside, total-beside, total-put,
}

bytes-tally_packet :
    (sp : SentPacket) (s : ℕ × Tally) (n : ℕ) → s.0 ≡ weight sp + n → (tally_packet sp s).0 ≡ n
unfolding tally_packet
bytes-tally_packet sp (bytes, t) n h = ground arith

-- What the loop takes out of the list it takes out of the count.
mark_loop-flight :
    (lo hi : ℕ) (sps : List SentPacket) (s : ℕ × Tally) (other : ℕ)
    → s.0 ≡ flight sps + other
    → (mark_loop lo hi sps s).1 ≡ flight (mark_loop lo hi sps s).0 + other
unfolding mark_loop flight
mark_loop-flight lo hi [] s other h = h
mark_loop-flight lo hi (sp ∷ sps) s other h = elim (Bool-cases (leb lo sp.pn && leb sp.pn hi)) [
  | inl hit ↦ rw hit (
      mark_loop-flight lo hi sps (tally_packet sp s) other
        (bytes-tally_packet sp s (flight sps + other) (omega arith)))
  | inr miss ↦
      rw miss (omega (arith, mark_loop-flight lo hi sps s (weight sp + other) (omega arith)))
]

pub on_packet_sent-IsAccounted :
    (ls : LossState) (space : Space) (now pn size : ℕ) (elicit : Bool) (frames : List ℕ)
    → IsAccounted ls
    → IsAccounted (on_packet_sent ls space now pn size elicit frames)
unfolding on_packet_sent
on_packet_sent-IsAccounted ls space now pn size false frames h = h
on_packet_sent-IsAccounted ls space now pn size true frames h =
    let sp : SentPacket = record {
      pn = pn;
      sent = now;
      size = size;
      ack_elicit = true;
      frames = frames;
      in_flight = true;
    } in
    unfold flight in
    omega (
      arith,
      total-beside ls.sent space,
      total-put ls.sent space (at ls.sent space ++ (sp ∷ [])),
      flight-append (at ls.sent space) (sp ∷ []),
    )

mark_acked-IsAccounted :
    (ls : LossState) (space : Space) (lo hi : ℕ) (t : Tally)
    → IsAccounted ls
    → IsAccounted (mark_acked ls space lo hi t).0
unfolding mark_acked
mark_acked-IsAccounted ls space lo hi t h = omega (
  arith,
  total-put ls.sent space (mark_loop lo hi (at ls.sent space) (ls.bytes_in_flight, t)).0,
  mark_loop-flight lo hi (at ls.sent space) (ls.bytes_in_flight, t) (beside ls.sent space)
      (h ∙ total-beside ls.sent space),
)

mark_blocks-IsAccounted :
    (ls : LossState) (space : Space) (bs : List PnRange) (t : Tally)
    → IsAccounted ls
    → IsAccounted (mark_blocks ls space bs t).0
unfolding mark_blocks
mark_blocks-IsAccounted ls space [] t h = h
mark_blocks-IsAccounted ls space (b ∷ bs) t h =
    let marked = mark_acked ls space b.lo b.hi t in
    mark_blocks-IsAccounted marked.0 space bs marked.1
      (mark_acked-IsAccounted ls space b.lo b.hi t h)

update_rtt_flight :
    (ls : LossState) (latest delay : ℕ) → IsAccounted ls → IsAccounted (update_rtt ls latest delay)
unfolding update_rtt
update_rtt_flight ls latest delay h = ground arith

sample_rtt-IsAccounted :
    (ls : LossState) (sent : Option ℕ) (now delay : ℕ)
    → IsAccounted ls
    → IsAccounted (sample_rtt ls sent now delay)
unfolding sample_rtt
sample_rtt-IsAccounted ls none now delay h = h
sample_rtt-IsAccounted ls (some at) now delay h = update_rtt_flight ls _ delay h

grow_cwnd-IsAccounted : (ls : LossState) (n : ℕ) → IsAccounted ls → IsAccounted (grow_cwnd ls n)
unfolding grow_cwnd
grow_cwnd-IsAccounted ls n h = ground arith

note_largest-IsAccounted :
    (ls : LossState) (space : Space) (n : ℕ)
    → IsAccounted ls
    → IsAccounted (note_largest ls space n)
unfolding note_largest
note_largest-IsAccounted ls space n h = ground arith

process_ack-IsAccounted :
    (ls : LossState) (space : Space) (f : AckFrame) (delay now : ℕ)
    → IsAccounted ls
    → IsAccounted (process_ack ls space f delay now).0
unfolding process_ack
process_ack-IsAccounted ls space f delay now h = grow_cwnd-IsAccounted _ _ (
    sample_rtt-IsAccounted _ _ now delay
      (mark_blocks-IsAccounted _ space _ _ (note_largest-IsAccounted ls space f.largest_ack h)))

pub on_ack_received-IsAccounted :
    (ls : LossState) (space : Space) (f : AckFrame) (delay next now : ℕ)
    → IsAccounted ls
    → IsAccounted (on_ack_received ls space f delay next now).0
unfolding on_ack_received
on_ack_received-IsAccounted ls space f delay next now h =
    ground (arith, process_ack-IsAccounted ls space f delay now h)
