-- ===== src/Quic/Stream/Delivery.antt =====
-- core/quic_stream.go: a stream through any sequence of frames, reads, credits and resets.
use alos_http.Prelude.{
  ℕ, ◌≤◌, ◌≡◌, refl, List, [], ◌∷◌, ◌++◌, length, arith, All, append_assoc, append-nil,
}
use alos_http.Server.Budget.{BodyBudget}
use alos_http.Quic.Stream.{RecvStream, Charge, new_recv_stream}
use alos_http.Quic.Stream.Segments.Content.{Agrees}
use alos_http.Quic.Stream.Receive.{handle_stream_frame}
use alos_http.Quic.Stream.Reading.{
  take_received, close_recv, stream_credit_to_grant, apply_peer_reset,
}
use alos_http.Quic.Stream.Receive.Valid.{IsValid, closed-IsValid, new_recv_stream-IsValid}
use alos_http.Quic.Stream.Receive.Others.{
  rest-IsValid, read-IsValid, read_all-IsValid, stream_credit_to_grant-Steady,
  apply_peer_reset-Steady,
}
use alos_http.Quic.Stream.Receive.Handled.{handle_stream_frame-ValidHandled}
use alos_http.Quic.Stream.Genuine.{
  StreamEvent, frame, taking, reading, reading_all, granting, resetting, closing, on_event,
  run_events, FromPeer, Genuine, Genuine-same, Genuine-reads, Genuine-read, Genuine-read_all,
  Genuine-Handled,
}

module _ {B : Type 0} (budget : BodyBudget B) where
  -- A stream that is valid, and whose bytes are the peer's.
  abbrev pub IsGood : (ℕ → ℕ) → List ℕ → RecvStream → Type 0
  IsGood sent out s = IsValid s × Genuine sent out s

  on_event-IsGood :
      (sent : ℕ → ℕ) (out : List ℕ) (e : StreamEvent) (s : RecvStream) (c : Charge B)
      → FromPeer sent e
      → IsGood sent out s
      → let t = on_event budget e s c in IsGood sent (out ++ t.0) t.1
  unfolding on_event
  on_event-IsGood sent out (frame off payload fin) s c h (v, g) =
      let t = handle_stream_frame budget s c off payload fin in
      let (v', k) = handle_stream_frame-ValidHandled budget s c off payload fin v in
      rw (append-nil out) (v', Genuine-Handled sent out s off payload fin t g h k)
  on_event-IsGood sent out taking s c h (v, g) = (
    unfold take_received in rest-IsValid s [] (omega arith) v,
    unfold take_received in Genuine-reads sent out s.recv_buf [] s (append-nil s.recv_buf) g,
  )
  on_event-IsGood sent out (reading n) s c h (v, g) =
      (read-IsValid s n v, Genuine-read sent out n s g)
  on_event-IsGood sent out reading_all s c h (v, g) =
      (read_all-IsValid s v, Genuine-read_all sent out s g)
  on_event-IsGood sent out granting s c h (v, g) =
      let (v', same) = stream_credit_to_grant-Steady s v in
      (v', Genuine-same sent out s (stream_credit_to_grant s).1 same g)
  on_event-IsGood sent out (resetting size) s c h (v, g) =
      let (v', same) = apply_peer_reset-Steady s c size v in
      (v', Genuine-same sent out s (apply_peer_reset s c size).1 same g)
  on_event-IsGood sent out closing s c h (v, g) = (
    unfold close_recv in closed-IsValid s v,
    Genuine-same sent out s (close_recv s) (unfold close_recv in refl) g,
  )

  run_events-IsGood :
      (sent : ℕ → ℕ) (out : List ℕ) (es : List StreamEvent) (s : RecvStream) (c : Charge B)
      → All (FromPeer sent) es
      → IsGood sent out s
      → let t = run_events budget es s c in IsGood sent (out ++ t.0) t.1
  unfolding run_events
  run_events-IsGood sent out [] s c h g = rw (append-nil out) g
  run_events-IsGood sent out (e ∷ es) s c h g =
      let t = on_event budget e s c in
      let r = run_events budget es t.1 t.2 in
      let later =
        run_events-IsGood sent (out ++ t.0) es t.1 t.2 h.1 (on_event-IsGood sent out e s c h.0 g) in
      rw⁻¹ (append_assoc out t.0 r.0) later

  -- From a new stream on, through frames in any order, reads, credits and resets, the bytes read and
  -- those in the buffer are the first bytes that the peer sent, as many as the offset says.
  pub run_events_delivers :
      (sent : ℕ → ℕ) (es : List StreamEvent) (window cap : ℕ) (c : Charge B)
      → window ≤ cap
      → All (FromPeer sent) es
      → let (out, s, c') = run_events budget es (new_recv_stream window cap) c in
        Agrees sent 0 (out ++ s.recv_buf) × (length (out ++ s.recv_buf) ≡ s.recv_off)
  run_events_delivers sent es window cap c le h =
      let s = new_recv_stream window cap in
      let start : IsGood sent [] s = (
        new_recv_stream-IsValid window cap le,
        unfold new_recv_stream Agrees in record { prefix = _; exact = refl; carried = _ },
      ) in
      let good = run_events-IsGood sent [] es s c h start in (good.1.prefix, good.1.exact)
