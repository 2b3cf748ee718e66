-- ===== src/Quic/Stream/Genuine.antt =====
-- core/quic_stream.go: what a stream has delivered, and the events that it goes through.
use alos_http.Prelude.{
  ℕ, ◌+◌, ◌≡◌, refl, ltb, Bool, ◌||◌, List, [], ◌∷◌, ◌++◌, length, take, drop, Option, none, some,
  arith, Bool-cases, inl, inr, All, ◌∙◌, sym, ap, subst, take-append-drop, append_assoc, append-nil,
  length-append,
}
use alos_http.Server.Budget.{BodyBudget}
use alos_http.Quic.Stream.{RecvStream, Charge}
use alos_http.Quic.Stream.Segments.Content.{Agrees, Carries, Agrees-append}
use alos_http.Quic.Stream.Receive.{
  Received, received, ignored, violation, final_size_error, rejected, handle_stream_frame,
}
use alos_http.Quic.Stream.Reading.{
  take_received, read, read_all, close_recv, stream_credit_to_grant, apply_peer_reset,
}
use alos_http.Quic.Stream.Receive.Coalesce.{Delivers}
use alos_http.Quic.Stream.Receive.Others.{bytes_of}
use alos_http.Quic.Stream.Receive.Handled.{Handled}

-- What happens to a stream: a STREAM frame, `takeReceived`, a round of `Read` into so many bytes, a
-- round of `ReadAll`, `streamCreditToGrant`, RESET_STREAM with its final size, and `Close`.
pub data StreamEvent : Type 0 where
  frame : ℕ → List ℕ → Bool → StreamEvent
  taking : StreamEvent
  reading : ℕ → StreamEvent
  reading_all : StreamEvent
  granting : StreamEvent
  resetting : ℕ → StreamEvent
  closing : StreamEvent

abbrev pub bytes_of_read : Option (List ℕ × Bool) → List ℕ
bytes_of_read none = []
bytes_of_read (some r) = r.0

abbrev pub bytes_of_all : Option (List ℕ) → List ℕ
bytes_of_all none = []
bytes_of_all (some bytes) = bytes

module _ {B : Type 0} (budget : BodyBudget B) where
  -- The bytes that an event gives to the reader, and the stream and its charges after it.
  unfoldable pub on_event : StreamEvent → RecvStream → Charge B → List ℕ × RecvStream × Charge B
  on_event (frame off payload fin) s c =
      let (answer, s', c') = handle_stream_frame budget s c off payload fin in ([], s', c')
  on_event taking s c = let (taken, s', c') = take_received budget s c in (taken.0, s', c')
  on_event (reading n) s c = let (got, s') = read s n in (bytes_of_read got, s', c)
  on_event reading_all s c = let (got, s') = read_all s in (bytes_of_all got, s', c)
  on_event granting s c = let (grant, s') = stream_credit_to_grant s in ([], s', c)
  on_event (resetting size) s c = let (answer, s', c') = apply_peer_reset s c size in ([], s', c')
  on_event closing s c = ([], close_recv s, c)

  unfoldable pub run_events :
      List StreamEvent → RecvStream → Charge B → List ℕ × RecvStream × Charge B
  run_events [] s c = ([], s, c)
  run_events (e ∷ es) s c =
      let (out, s', c') = on_event e s c in
      let (more, s'', c'') = run_events es s' c' in (out ++ more, s'', c'')

-- The frames of an event are of the stream that the peer sent.
abbrev pub FromPeer : (ℕ → ℕ) → StreamEvent → Type 0
FromPeer sent (frame off payload fin) = Agrees sent off payload
FromPeer sent taking = Unit
FromPeer sent (reading n) = Unit
FromPeer sent reading_all = Unit
FromPeer sent granting = Unit
FromPeer sent (resetting size) = Unit
FromPeer sent closing = Unit

-- The bytes read and those in the buffer are the first of the peer's stream, and the segments carry
-- its bytes.
pub record Genuine (sent : ℕ → ℕ) (out : List ℕ) (s : RecvStream) : Type 0 where
  pub prefix : Agrees sent 0 (out ++ s.recv_buf)
  pub exact : length (out ++ s.recv_buf) ≡ s.recv_off
  pub carried : All (Carries sent) s.recv_ooo

Genuine-Delivers :
    (sent : ℕ → ℕ) (out : List ℕ) (s r : RecvStream)
    → Genuine sent out s
    → Delivers sent s r
    → All (Carries sent) r.recv_ooo
    → Genuine sent out r
unfolding Delivers
Genuine-Delivers sent out s r g (more, e, a, n) c =
    let whole : out ++ r.recv_buf ≡ (out ++ s.recv_buf) ++ more =
      ap (λ l. out ++ l) e ∙ sym (append_assoc out s.recv_buf more) in
    let from : Agrees sent (0 + length (out ++ s.recv_buf)) more =
      subst (λ q. Agrees sent q more) (sym g.exact ∙ omega arith) a in
    record {
      prefix =
          subst (Agrees sent 0) (sym whole)
            (Agrees-append sent 0 (out ++ s.recv_buf) more g.prefix from);
      exact = ap length whole ∙ omega (arith, length-append (out ++ s.recv_buf) more, g.exact, n);
      carried = c;
    }

-- Bytes that go from the front of the buffer to the reader.
pub Genuine-reads :
    (sent : ℕ → ℕ) (out front rest : List ℕ) (s : RecvStream)
    → front ++ rest ≡ s.recv_buf
    → Genuine sent out s
    → Genuine sent (out ++ front) (record s { recv_buf = rest })
Genuine-reads sent out front rest s e g =
    let whole : (out ++ front) ++ rest ≡ out ++ s.recv_buf =
      append_assoc out front rest ∙ ap (λ l. out ++ l) e in
    record {
      prefix = subst (Agrees sent 0) (sym whole) g.prefix;
      exact = ap length whole ∙ g.exact;
      carried = g.carried;
    }

pub Genuine-same :
    (sent : ℕ → ℕ) (out : List ℕ) (s r : RecvStream)
    → bytes_of r ≡ bytes_of s
    → Genuine sent out s
    → Genuine sent (out ++ []) r
Genuine-same sent out s r e g =
    let buf : r.recv_buf ≡ s.recv_buf = ap (λ t. t.0) e in
    let ooo : r.recv_ooo ≡ s.recv_ooo = ap (λ t. t.1) e in
    let off : r.recv_off ≡ s.recv_off = ap (λ t. t.2) e in
    rw (append-nil out) (record {
      prefix = rw buf g.prefix;
      exact = rw (buf, off) g.exact;
      carried = rw ooo g.carried;
    })

pub Genuine-read :
    (sent : ℕ → ℕ) (out : List ℕ) (n : ℕ) (s : RecvStream)
    → Genuine sent out s
    → Genuine sent (out ++ bytes_of_read (read s n).0) (read s n).1
unfolding read
Genuine-read sent out n s g =
    let front =
      Genuine-reads sent out (take n s.recv_buf) (drop n s.recv_buf) s
        (take-append-drop n s.recv_buf) g in
    elim (Bool-cases (ltb 0 (length s.recv_buf))) [
      | inl e ↦ rw e front
      | inr e ↦ elim (Bool-cases (s.recv_fin || s.recv_closed)) [
        | inl f ↦ rw (e, f) (Genuine-same sent out s s refl g)
        | inr f ↦ rw (e, f) (Genuine-same sent out s s refl g)
      ]
    ]

pub Genuine-read_all :
    (sent : ℕ → ℕ) (out : List ℕ) (s : RecvStream)
    → Genuine sent out s
    → Genuine sent (out ++ bytes_of_all (read_all s).0) (read_all s).1
unfolding read_all
Genuine-read_all sent out s g = elim (Bool-cases (s.recv_fin || s.recv_closed)) [
  | inl e ↦ rw e (Genuine-reads sent out s.recv_buf [] s (append-nil s.recv_buf) g)
  | inr e ↦ rw e (Genuine-same sent out s s refl g)
]

module _ {B : Type 0} where
  pub Genuine-Handled :
      (sent : ℕ → ℕ) (out : List ℕ) (s : RecvStream) (off : ℕ) (payload : List ℕ) (fin : Bool)
      (t : Received × RecvStream × Charge B)
      → Genuine sent out s
      → Agrees sent off payload
      → Handled s off payload fin t
      → Genuine sent out t.1
  unfolding Handled
  Genuine-Handled sent out s off payload fin (received n e, r, c) g h t =
      let (d, all) = t.0.delivers sent h g.carried in Genuine-Delivers sent out s r g d all
  Genuine-Handled sent out s off payload fin (ignored, r, c) g h t =
      subst (Genuine sent out) (sym t) g
  Genuine-Handled sent out s off payload fin (violation, r, c) g h t =
      subst (Genuine sent out) (sym t) g
  Genuine-Handled sent out s off payload fin (final_size_error, r, c) g h t =
      subst (Genuine sent out) (sym t) g
  Genuine-Handled sent out s off payload fin (rejected, r, c) g h (buf, ooo, at) = record {
    prefix = rw buf g.prefix;
    exact = rw (buf, at) g.exact;
    carried = rw ooo g.carried;
  }
