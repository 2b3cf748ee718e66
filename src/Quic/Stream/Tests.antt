-- ===== src/Quic/Stream/Tests.antt =====
-- The receiving side of a stream: runs, and the theorems at concrete inputs.
use alos_http.Prelude.{
  ℕ, ◌+◌, ◌≡◌, refl, true, false, List, [], ◌∷◌, ◌++◌, length, some, arith, pos, ◌+ℤ◌, ◌-ℤ◌,
}
use alos_http.Server.Budget.{
  Reserved, BodyLimits, server_budget, try_reserve_conn_body_bytes, release_conn_body_bytes,
  act_alone, budget_act, begin_reserve, begin_release, start_bytes, conn_body_share,
}
use alos_http.Quic.Stream.{Charge, new_recv_stream, violates_final_size, outstanding}
use alos_http.Quic.Stream.Segments.{
  first_ending_after, held, starts_segment, count_gap, ooo_new_bytes, place_piece, fill_gap, fill,
  filled,
}
use alos_http.Quic.Stream.Segments.Content.{Agrees}
use alos_http.Quic.Stream.Receive.{
  handle_stream_frame, admit_frame, consume_recv_flow_credit, finish_frame, take_data,
  append_contig, insert_ooo, reserve, reserve_ooo, reserve_segment_overhead, charge_if,
  release_reserved, consume_segment, coalesce_ooo, note_final_size, note_end_of_data, note_overflow,
  ooo_segment_cap,
}
use alos_http.Quic.Stream.Reading.{
  read_all, apply_peer_reset, received_extent, reset_once, highest_received,
}
use alos_http.Quic.Stream.Receive.Valid.{new_recv_stream-IsValid}
use alos_http.Quic.Stream.Receive.Handled.{ValidHandled, handle_stream_frame-ValidHandled}
use alos_http.Quic.Stream.Receive.Others.{apply_peer_reset_uncounted}
use alos_http.Quic.Stream.Delivery.{run_events_delivers}
use alos_http.Quic.Stream.Genuine.{frame, reading, run_events}
use alos_http.Quic.Stream.Completion.{
  StreamData, run_frames, frames_cover, frames_end, run_frames_completes,
}

abbrev budget_limits : BodyLimits
budget_limits = record { max_in_flight = some 1000; max_body_size = some 100 }

abbrev charges : Charge Reserved
charges = record {
  accounted = 0;
  flow_used = 0;
  flow_limit = 500;
  body = record { conn_reserved = pos 0; in_flight = pos 0 };
}

-- A peer that sends the letters from A on.
abbrev letters : ℕ → ℕ
letters x = 65 + x

-- D and E, the end of the stream, come before A, B and C; one byte comes twice.
abbrev two_frames : List StreamData
two_frames =
    record { off = 3; payload = 68 ∷ 69 ∷ []; fin = true }
    ∷ record { off = 0; payload = 65 ∷ 66 ∷ 67 ∷ 68 ∷ []; fin = false }
    ∷ []

run_two_frames :
    let t = run_frames (server_budget budget_limits) two_frames (new_recv_stream 50 100) charges in
    (t.0 ≡ true) × ((read_all t.1).0 ≡ some (65 ∷ 66 ∷ 67 ∷ 68 ∷ 69 ∷ []))
unfolding run_frames handle_stream_frame violates_final_size admit_frame consume_recv_flow_credit
    finish_frame take_data append_contig insert_ooo reserve reserve_ooo reserve_segment_overhead
    charge_if release_reserved consume_segment coalesce_ooo note_final_size note_end_of_data
    note_overflow ooo_segment_cap outstanding new_recv_stream read_all first_ending_after held
    starts_segment count_gap ooo_new_bytes place_piece fill_gap fill filled
    try_reserve_conn_body_bytes release_conn_body_bytes act_alone budget_act begin_reserve
    begin_release start_bytes conn_body_share ◌+ℤ◌ ◌-ℤ◌
run_two_frames = (refl, refl)

run_frames_completes_example :
    let r =
      (run_frames (server_budget budget_limits) two_frames (new_recv_stream 50 100) charges).1 in
    (bytes : List ℕ) × ((read_all r).0 ≡ some bytes) × (length bytes ≡ 5) × Agrees letters 0 bytes
run_frames_completes_example =
    run_frames_completes (server_budget budget_limits) letters 5 two_frames 50 100 charges
      (omega arith) (unfold Agrees in ((refl, (refl, _)), ((refl, (refl, (refl, (refl, _)))), _)))
      run_two_frames.0 (λ x lt. unfold frames_cover in ground (arith, lt))
      (unfold frames_end in refl)

run_events_delivers_example :
    let (out, s, c') =
      run_events
        (server_budget budget_limits)
        (frame 2 (67 ∷ 68 ∷ []) false ∷ frame 0 (65 ∷ 66 ∷ 67 ∷ []) false ∷ reading 3 ∷ [])
        (new_recv_stream 50 100)
        charges in
    Agrees letters 0 (out ++ s.recv_buf) × (length (out ++ s.recv_buf) ≡ s.recv_off)
run_events_delivers_example =
    run_events_delivers (server_budget budget_limits) letters
      (frame 2 (67 ∷ 68 ∷ []) false ∷ frame 0 (65 ∷ 66 ∷ 67 ∷ []) false ∷ reading 3 ∷ []) 50 100
      charges (omega arith)
      (unfold Agrees in ((refl, (refl, _)), ((refl, (refl, (refl, _))), (_, _))))

handle_stream_frame-ValidHandled_example :
    ValidHandled (new_recv_stream 50 100) 2 (67 ∷ 68 ∷ []) false (
      handle_stream_frame
        (server_budget budget_limits)
        (new_recv_stream 50 100)
        charges
        2
        (67 ∷ 68 ∷ [])
        false)
handle_stream_frame-ValidHandled_example =
    handle_stream_frame-ValidHandled (server_budget budget_limits) (new_recv_stream 50 100) charges
      2 (67 ∷ 68 ∷ []) false (new_recv_stream-IsValid 50 100 (omega arith))

apply_peer_reset_uncounted_example :
    let s = new_recv_stream 50 100 in 20 + (s.recv_off + s.ooo_bytes) ≡ 20
apply_peer_reset_uncounted_example =
    apply_peer_reset_uncounted (new_recv_stream 50 100) charges 20 20
      (new_recv_stream-IsValid 50 100 (omega arith)) (unfold new_recv_stream in refl)
      (unfold apply_peer_reset new_recv_stream received_extent reset_once highest_received
          consume_recv_flow_credit in
        refl)
