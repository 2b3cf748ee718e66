-- ===== src/Quic/Tests.antt =====
-- The QUIC files: runs, and the theorems at concrete inputs.
use alos_http.Prelude.{
  ◌*◌, ◌/◌, ◌%◌, ◌≤◌, ◌<◌, ◌≡◌, refl, ◌≢◌, true, false, not, ◌||◌, List, [], ◌∷◌, ◌++◌, length,
  drop, All, none, some, arith, ltb, ◌==◌, max, if◌then◌else◌,
}
use alos_http.Quic.Varint.{varint, append_varint, put_varint, parse_varint, varint_limit}
use alos_http.Quic.Varint.RoundTrip.{
  parse-varint, parse_varint_truncated, parse_varint_takes, put-varint,
}
use alos_http.Quic.Frame.{
  AckFrame, on_stream, on_ack, on_max_data, stuck, allowed_in_handshake_spaces,
}
use alos_http.Quic.Frame.Outgoing.{stream, max_data, stream_data_blocked}
use alos_http.Quic.Frame.Loop.{parse_frames}
use alos_http.Quic.Frame.RoundTrip.{parse_frames-write_all, write_all}
use alos_http.Quic.Frame.Progress.{parse_frames-ne-stuck}
use alos_http.Quic.Frame.Spaces.{parse_frames_handshake, IsHandshakeEvent}
use alos_http.Quic.Ack.{
  Tracker, record_recv_pn, append_ack_frame_ranges, find_place, insert_at, merge, merge_from,
  cap_ranges,
}
use alos_http.Quic.Ack.Invariant.{IsValid, record_recv_pn-IsValid}
use alos_http.Quic.Ack.Once.{
  seen, record_all, record_recv_pn_new, record_recv_pn-seen, record_recv_pn_once,
}
use alos_http.Quic.Ack.Encode.{parse_frames-append_ack_frame_ranges}
use alos_http.Quic.Loss.{LossState, SentPacket, app_data, at, put, new_loss_state, max_packet_size}
use alos_http.Quic.Loss.Received.{on_ack_received, ack_blocks}
use alos_http.Quic.Loss.Detect.{detect_lost}
use alos_http.Quic.Loss.Accounting.{LossCall, sends, detects, calls, bytes_in_flight_exact}
use alos_http.Quic.Loss.Flight.{total_flight}
use alos_http.Quic.Loss.Acked.{without, accepted_number, on_ack_received_sent}
use alos_http.Quic.Loss.Resend.{overdue, kept, lost_frames, any_lost, detect_lost_exact}

varint_300 : append_varint [] 300 ≡ 0x41 ∷ 0x2c ∷ []
unfolding append_varint varint
varint_300 = refl

parse_37 : parse_varint (0x7b ∷ 0xbd ∷ []) ≡ (15293, 2)
unfolding parse_varint
parse_37 = refl

parse-varint_example :
    parse_varint (varint 300 ++ (7 ∷ [])) ≡ (300 % varint_limit, length (varint 300))
parse-varint_example = parse-varint 300 (7 ∷ []) (omega arith)

parse_varint_truncated_example : parse_varint (0x41 ∷ []) ≡ (0, 0)
parse_varint_truncated_example =
    parse_varint_truncated 300 0x2c (0x41 ∷ []) [] (omega arith) (unfold varint in refl)

parse_varint_takes_example :
    (2 ≤ 2)
    × (2 ≤ 8)
    × (300 < varint_limit)
    × (parse_varint ((0x41 ∷ 0x2c ∷ []) ++ (1 ∷ [])) ≡ (300, 2))
unfolding parse_varint
parse_varint_takes_example =
    parse_varint_takes (0x41 ∷ 0x2c ∷ []) (1 ∷ []) 300 2 (omega arith) refl (omega arith)

put-varint_example :
    put_varint (0 ∷ 0 ∷ 9 ∷ []) 300
    ≡ some (varint 300 ++ drop (length (varint 300)) (0 ∷ 0 ∷ 9 ∷ []), length (varint 300))
put-varint_example = put-varint (0 ∷ 0 ∷ 9 ∷ []) 300 (omega arith) (unfold varint in omega arith)

parse_frames-write_all_example :
    parse_frames none false
      (write_all [] (stream 4 0 (1 ∷ 2 ∷ []) true ∷ stream_data_blocked 4 9 ∷ max_data 70000 ∷ []))
    ≡ record {
      events =
          on_stream (record { stream_id = 4; offset = 0; bytes = 1 ∷ 2 ∷ []; fin = true })
          ∷ on_max_data 70000
          ∷ [];
      non_probing = true;
      error = none;
    }
parse_frames-write_all_example =
    parse_frames-write_all none false
      (stream 4 0 (1 ∷ 2 ∷ []) true ∷ stream_data_blocked 4 9 ∷ max_data 70000 ∷ [])
      (
        ((omega arith, omega arith, omega arith), refl),
        (((omega arith, omega arith), refl), ((omega arith, refl), tt)),
      )

parse_frames-ne-stuck_example : (parse_frames none false (0x06 ∷ 0x00 ∷ [])).error ≢ some stuck
parse_frames-ne-stuck_example = parse_frames-ne-stuck none false (0x06 ∷ 0x00 ∷ [])

parse_frames_handshake_example :
    All IsHandshakeEvent
      (parse_frames
        (some allowed_in_handshake_spaces)
        false
        (0x01 ∷ 0x0a ∷ 0x04 ∷ 0x00 ∷ [])).events
parse_frames_handshake_example = parse_frames_handshake false (0x01 ∷ 0x0a ∷ 0x04 ∷ 0x00 ∷ [])

abbrev two_ranges : Tracker
two_ranges = record {
  floor = 0;
  ranges = record { lo = 8; hi = 9 } ∷ record { lo = 1; hi = 5 } ∷ [];
}

two_ranges-IsValid : IsValid two_ranges
two_ranges-IsValid = omega arith

-- Packet 7 joins the upper range, and then 6 joins the two.
record_7_6 :
    record_all two_ranges (7 ∷ 6 ∷ [])
    ≡ record { floor = 0; ranges = record { lo = 1; hi = 9 } ∷ [] }
unfolding record_all record_recv_pn find_place insert_at merge merge_from cap_ranges
record_7_6 = refl

record_recv_pn-IsValid_example : IsValid (record_recv_pn two_ranges 7).1
record_recv_pn-IsValid_example =
    record_recv_pn-IsValid two_ranges 7 two_ranges-IsValid (omega arith)

record_recv_pn_new_example : (record_recv_pn two_ranges 7).0 ≡ not (seen two_ranges 7)
record_recv_pn_new_example = record_recv_pn_new two_ranges 7 two_ranges-IsValid

record_recv_pn-seen_example :
    let t' = (record_recv_pn two_ranges 7).1 in
    seen t' 6 ≡ (seen two_ranges 6 || 6 == 7 || ltb 6 t'.floor)
record_recv_pn-seen_example = record_recv_pn-seen two_ranges 7 6 two_ranges-IsValid (omega arith)

record_recv_pn_once_example :
    (record_recv_pn (record_all (record_recv_pn two_ranges 7).1 (6 ∷ 20 ∷ [])) 7).0 ≡ false
record_recv_pn_once_example =
    record_recv_pn_once two_ranges 7 (6 ∷ 20 ∷ []) two_ranges-IsValid (omega arith) (omega arith)

parse_frames-append_ack_frame_ranges_example :
    (f : AckFrame) × (parse_frames none false (append_ack_frame_ranges [] 5 two_ranges.ranges)
      ≡ record { events = on_ack f ∷ []; non_probing = true; error = none })
    × (ack_blocks f ≡ two_ranges.ranges)
parse_frames-append_ack_frame_ranges_example =
    parse_frames-append_ack_frame_ranges none false 5 two_ranges two_ranges-IsValid (λ e. cc)
      (omega arith) refl

abbrev history : List LossCall
history =
    sends app_data 1000 0 1200 true (1 ∷ [])
    ∷ sends app_data 2000 1 300 true (2 ∷ [])
    ∷ detects app_data 9000
    ∷ []

bytes_in_flight_exact_example :
    let ls = calls new_loss_state history in ls.bytes_in_flight ≡ total_flight ls.sent
bytes_in_flight_exact_example = bytes_in_flight_exact history

abbrev sent_twice : LossState
sent_twice = record new_loss_state {
  sent = record new_loss_state.sent { in_app_data = first ∷ second ∷ [] };
  largest_acked = record new_loss_state.largest_acked { in_app_data = some 7 };
}
  where
    first : SentPacket
    first = record {
      pn = 2;
      sent = 10;
      size = 1200;
      ack_elicit = true;
      frames = 8 ∷ [];
      in_flight = true;
    }

    second : SentPacket
    second = record {
      pn = 8;
      sent = 20;
      size = 90;
      ack_elicit = true;
      frames = 9 ∷ [];
      in_flight = true;
    }

-- It acknowledges 8 and 7, and then 4 to 2.
abbrev ack_of_8 : AckFrame
ack_of_8 = record {
  largest_ack = 8;
  ack_delay = 0;
  first_range = 1;
  ranges = record { gap = 1; count = 2 } ∷ [];
}

on_ack_received_sent_example :
    (on_ack_received sent_twice app_data ack_of_8 0 9 500).0.sent
    ≡ put sent_twice.sent app_data
        (without (accepted_number ack_of_8 9) (at sent_twice.sent app_data))
on_ack_received_sent_example = on_ack_received_sent sent_twice app_data ack_of_8 0 9 500

detect_lost_exact_example :
    let lost = overdue sent_twice 7 500 in
    let sent = at sent_twice.sent app_data in
    let (ls', again) = detect_lost sent_twice app_data 500 [] in
    (ls'.sent ≡ put sent_twice.sent app_data (kept lost sent))
    × (again ≡ [] ++ lost_frames lost sent)
    × (ls'.cwnd ≡ (
        if any_lost lost sent
        then max (sent_twice.cwnd / 2) (2 * max_packet_size)
        else sent_twice.cwnd))
detect_lost_exact_example =
    detect_lost_exact sent_twice app_data 500 7 [] (unfold new_loss_state in refl)
