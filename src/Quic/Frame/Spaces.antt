-- ===== src/Quic/Frame/Spaces.antt =====
-- core/quic_frame.go: what the parser delivers in the Initial and Handshake spaces, where the
-- visitor's `allowed` is `quicFrameAllowedInHandshakeSpaces`.
use alos_http.Prelude.{
  ℕ, zero, suc, ◌≡◌, Bool, true, false, List, [], ◌∷◌, length, Option, none, some, Result, ok, err,
  arith, All, drop,
}
use alos_http.Quic.Varint.{parse_varint}
use alos_http.Quic.Frame.{
  Event, FrameError, allowed_in_handshake_spaces, on_padding, on_ping, on_ack, on_crypto,
  on_conn_close,
}
use alos_http.Quic.Frame.Parse.{parse_conn_close, read_varint}
use alos_http.Quic.Frame.Loop.{
  parse_body, parse_loop, parse_frames, parse_one, parse_typed, Round, Outcome, stop, cons_event,
  goes_on, stops, body_crypto,
}

-- The callbacks that RFC 9000, table 3, lists for these packets.
abbrev pub IsHandshakeEvent : Event → Type 0
IsHandshakeEvent on_padding = Unit
IsHandshakeEvent on_ping = Unit
IsHandshakeEvent (on_ack f) = Unit
IsHandshakeEvent (on_crypto offset bytes) = Unit
IsHandshakeEvent (on_conn_close f) = f.is_app ≡ false
IsHandshakeEvent _ = ⊥

abbrev Permitted : Option Event → Type 0
Permitted none = Unit
Permitted (some e) = IsHandshakeEvent e

abbrev Permits : Result FrameError (Option Event × List ℕ) → Type 0
Permits (ok (e, rest)) = Permitted e
Permits (err e) = Unit

body-Permits :
    (t : ℕ) (src : List ℕ) → allowed_in_handshake_spaces t ≡ true → Permits (parse_body t src)
unfolding parse_body allowed_in_handshake_spaces body_crypto parse_conn_close
body-Permits t src h = ground arith

abbrev PermitsRound : Round → Type 0
PermitsRound (goes_on e np rest) = Permitted e
PermitsRound (stops np e) = Unit

one_permits :
    (np : Bool) (b : ℕ) (src : List ℕ)
    → PermitsRound (parse_one (some allowed_in_handshake_spaces) np b src)
unfolding parse_one parse_typed read_varint
one_permits np b src =
    ground
      (arith, body-Permits (parse_varint (b ∷ src)).0 (drop (parse_varint (b ∷ src)).1 (b ∷ src)))

loop_permits :
    (fuel : ℕ) (np : Bool) (src : List ℕ)
    → All IsHandshakeEvent (parse_loop (some allowed_in_handshake_spaces) fuel np src).events
unfolding parse_loop
loop_permits fuel np [] = tt
loop_permits zero np (b ∷ src) = tt
loop_permits (suc fuel) np (b ∷ src) =
    after (parse_one (some allowed_in_handshake_spaces) np b src) (one_permits np b src)
      (loop_permits fuel)
  where
    after :
        (r : Round)
        → PermitsRound r
        → ((np : Bool) (rest : List ℕ)
            → All IsHandshakeEvent
                (parse_loop (some allowed_in_handshake_spaces) fuel np rest).events)
        → All IsHandshakeEvent
            (elim r as (λ _. Outcome) [
              | goes_on e np' rest ↦
                  cons_event e (parse_loop (some allowed_in_handshake_spaces) fuel np' rest)
              | stops np' e ↦ stop np' e
            ]).events
    after (goes_on none np' rest) h ih = ih np' rest
    after (goes_on (some e) np' rest) h ih = (h, ih np' rest)
    after (stops np' e) h ih = tt

-- Whatever a packet of the Initial or the Handshake space holds, the parser makes only those
-- callbacks that the space permits: no stream data, no flow control, no connection ID, and no
-- close by the application.
pub parse_frames_handshake :
    (np : Bool) (src : List ℕ)
    → All IsHandshakeEvent (parse_frames (some allowed_in_handshake_spaces) np src).events
unfolding parse_frames
parse_frames_handshake np src = loop_permits (length src) np src
