-- ===== src/Quic/Stream/Receive/Handled.antt =====
-- core/quic_stream.go: handleStreamFrame keeps a stream valid, and what it does to the bytes
-- received.
use alos_http.Prelude.{
  ℕ, ◌+◌, ◌-◌, ◌≤◌, ◌≡◌, refl, ltb, leb, Bool, true, ◌||◌, List, length, if◌then◌else◌, Option,
  none, some, arith, Bool-cases, inl, inr, All, sym, ap, subst, add64,
}
use alos_http.Server.Budget.{BodyBudget}
use alos_http.Quic.Stream.{RecvStream, Charge, violates_final_size}
use alos_http.Quic.Stream.Segments.Coverage.{between}
use alos_http.Quic.Stream.Segments.Content.{Agrees, Carries}
use alos_http.Quic.Stream.Receive.{
  Received, ignored, violation, final_size_error, rejected, received, note_final_size,
  note_end_of_data, note_overflow, finish_frame, admit_frame, handle_stream_frame, take_data,
  consume_recv_flow_credit,
}
use alos_http.Quic.Stream.Receive.Coalesce.{has_received, Delivers}
use alos_http.Quic.Stream.Receive.Takes.{Takes}
use alos_http.Quic.Stream.Receive.Taken.{Taken, take_data-Taken}
use alos_http.Quic.Stream.Receive.Valid.{
  IsValid, FinalSize, finished, finished-IsValid, raised-IsValid, violates_final_size-FinalSize,
  raised-FinalSize, closed-IsValid,
}

-- What a frame that is taken in does to the bytes of a stream.
pub record Accepts (s : RecvStream) (off : ℕ) (payload : List ℕ) (fin : Bool) (r : RecvStream)
    : Type 0 where
  pub grows : s.recv_off ≤ r.recv_off
  pub seen : r.recv_fin_seen ≡ (s.recv_fin_seen || fin)
  pub size : r.recv_fin_off ≡ (if fin then off + length payload else s.recv_fin_off)
  pub agreed : fin ≡ true → s.recv_fin_seen ≡ true → off + length payload ≡ s.recv_fin_off
  pub ends : r.recv_fin_seen ≡ true → r.recv_fin_off ≤ r.recv_off → r.recv_fin ≡ true
  pub receives :
      (x : ℕ)
      → has_received x r.recv_off r.recv_ooo
        ≡ (has_received x s.recv_off s.recv_ooo || between off x (off + length payload))
  pub delivers :
      (sent : ℕ → ℕ)
      → Agrees sent off payload
      → All (Carries sent) s.recv_ooo
      → Delivers sent s r × All (Carries sent) r.recv_ooo

finished-Accepts :
    (s r : RecvStream) (m off : ℕ) (payload : List ℕ) (fin : Bool)
    → Takes (record s { recv_max = m }) off payload r
    → FinalSize (record s { recv_max = m }) (off + length payload) fin
    → Accepts s off payload fin (finished r (off + length payload) fin)
unfolding note_overflow note_end_of_data note_final_size Delivers
finished-Accepts s r m off payload fin t f =
    let seen_same : r.recv_fin_seen ≡ s.recv_fin_seen = ap (λ q. q.recv_fin_seen) t.keeps in
    let size_same : r.recv_fin_off ≡ s.recv_fin_off = ap (λ q. q.recv_fin_off) t.keeps in
    record {
      grows = t.grows;
      seen = rw seen_same refl;
      size = rw size_same refl;
      agreed = λ e e'. (f e).1 e';
      ends = λ e le. ground (arith, e, le);
      receives = t.received;
      delivers = t.delivers;
    }

-- A frame is taken in, or no byte of the stream changes.
module _ {B : Type 0} where
  unfoldable pub Handled :
      RecvStream → ℕ → List ℕ → Bool → Received × RecvStream × Charge B → Type 0
  Handled s off payload fin (received n end_of_data, r, c) =
      Accepts s off payload fin r × (end_of_data ≡ r.recv_fin)
  Handled s off payload fin (ignored, r, c) = r ≡ s
  Handled s off payload fin (violation, r, c) = r ≡ s
  Handled s off payload fin (final_size_error, r, c) = r ≡ s
  Handled s off payload fin (rejected, r, c) =
      (r.recv_buf ≡ s.recv_buf) × (r.recv_ooo ≡ s.recv_ooo) × (r.recv_off ≡ s.recv_off)

  -- A valid stream after a frame, as the frame was handled.
  abbrev pub ValidHandled :
      RecvStream → ℕ → List ℕ → Bool → Received × RecvStream × Charge B → Type 0
  ValidHandled s off payload fin t = IsValid t.1 × Handled s off payload fin t

  finish_frame-ValidHandled :
      (s : RecvStream) (m off : ℕ) (payload : List ℕ) (fin : Bool)
      (t : Option ℕ × RecvStream × Charge B)
      → IsValid (record s { recv_max = m })
      → FinalSize (record s { recv_max = m }) (off + length payload) fin
      → Taken (record s { recv_max = m }) off payload t
      → ValidHandled s off payload fin (finish_frame (off + length payload) fin t)
  unfolding finish_frame Handled Taken
  finish_frame-ValidHandled s m off payload fin (none, r, c) v f t =
      let s' : RecvStream = record s { recv_max = m } in
      (
        subst (λ q. IsValid (record q { recv_closed = true })) (sym t) (closed-IsValid s' v),
        (ap (λ q. q.recv_buf) t, ap (λ q. q.recv_ooo) t, ap (λ q. q.recv_off) t),
      )
  finish_frame-ValidHandled s m off payload fin (some n, r, c) v f t =
      let s' : RecvStream = record s { recv_max = m } in
      (
        finished-IsValid s' r (off + length payload) fin t.keeps v t.grows t.sound f,
        (finished-Accepts s r m off payload fin t f, refl),
      )

module _ {B : Type 0} (budget : BodyBudget B) where
  -- A valid stream stays valid whatever frame comes. A frame that is taken in adds its bytes to those
  -- received and no others, reports the end of the data as the stream has it, and delivers only bytes
  -- that the peer sent; any other answer leaves the bytes received as they were.
  pub handle_stream_frame-ValidHandled :
      (s : RecvStream) (c : Charge B) (off : ℕ) (payload : List ℕ) (fin : Bool)
      → IsValid s
      → ValidHandled s off payload fin (handle_stream_frame budget s c off payload fin)
  unfolding handle_stream_frame admit_frame Handled consume_recv_flow_credit
  handle_stream_frame-ValidHandled s c off payload fin v =
      let end = off + length payload in
      let within = leb (add64 c.flow_used (end - s.recv_max)) c.flow_limit in
      elim (Bool-cases (s.recv_closed || s.recv_overflow)) [
        | inl a ↦ rw a (v, refl)
        | inr a ↦ elim (Bool-cases (ltb s.recv_granted end)) [
          | inl b ↦ rw (a, b) (v, refl)
          | inr b ↦ elim (Bool-cases (violates_final_size s end fin)) [
            | inl d ↦ rw (a, b, d) (v, refl)
            | inr d ↦ elim (Bool-cases (ltb s.recv_max end)) [
              | inl e ↦ elim (Bool-cases within) [
                | inl f ↦
                    let more : s.recv_max ≤ end = ground (arith, e) in
                    let fits : end ≤ s.recv_granted = ground (arith, b) in
                    let v' = raised-IsValid s end fin v more fits d in
                    let c' = record c { flow_used = add64 c.flow_used (end - s.recv_max) } in
                    let s' : RecvStream = record s { recv_max = end } in
                    rw (a, b, d, e, f)
                      (finish_frame-ValidHandled s end off payload fin
                        (take_data budget s' c' off payload) v' (raised-FinalSize s end fin d)
                        (take_data-Taken budget s' c' off payload v'.sound (omega arith)))
                | inr f ↦ rw (a, b, d, e, f) (v, refl)
              ]
              | inr e ↦
                  let fits : end ≤ s.recv_max = ground (arith, e) in
                  rw (a, b, d, e)
                    (finish_frame-ValidHandled s s.recv_max off payload fin
                      (take_data budget s c off payload) v
                      (violates_final_size-FinalSize s end fin v d)
                      (take_data-Taken budget s c off payload v.sound fits))
            ]
          ]
        ]
      ]
