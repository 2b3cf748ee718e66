-- ===== src/Quic/Stream/Receive/Coalesce.antt =====
-- core/quic_stream.go: what coalesceOOO does to a stream.
use alos_http.Prelude.{
  ℕ, ◌+◌, ◌-◌, ◌≤◌, ◌<◌, ◌≡◌, refl, ltb, leb, Bool, false, ◌||◌, List, [], ◌∷◌, ◌++◌, length, drop,
  arith, Bool-cases, inl, inr, length-append, length-drop, All, ◌∙◌, sym, ap, append-nil,
  append_assoc, subst,
}
use alos_http.Server.Budget.{BodyBudget}
use alos_http.Quic.Stream.{RecvStream, Charge, Segment, seg_end, outstanding}
use alos_http.Quic.Stream.Segments.Order.{Ordered, total, Ordered-le}
use alos_http.Quic.Stream.Segments.Coverage.{has_byte}
use alos_http.Quic.Stream.Segments.Content.{Agrees, Carries, Agrees-append, Agrees-drop_to}
use alos_http.Quic.Stream.Receive.{consume_segment, coalesce_ooo}

-- The first segment starts beyond an offset.
unfoldable pub Ahead : ℕ → List Segment → Type 0
Ahead off [] = Unit
Ahead off (g ∷ gs) = off < g.off

-- What storing data leaves as it is: all but the buffer, the segments, their count and the offset.
abbrev pub kept : RecvStream → RecvStream
kept s = record s { recv_buf = []; recv_ooo = []; ooo_bytes = 0; recv_off = 0 }

-- Whether a stream has received the byte at an offset.
unfoldable pub has_received : ℕ → ℕ → List Segment → Bool
has_received x off gs = ltb x off || has_byte x gs

module _ {B : Type 0} (budget : BodyBudget B) where
  abbrev pub joined : RecvStream → Charge B → List Segment → RecvStream
  joined s c gs = (coalesce_ooo budget s c gs).0

  consume_segment-kept :
      (s : RecvStream) (c : Charge B) (g : Segment) → kept (consume_segment budget s c g).0 ≡ kept s
  unfolding consume_segment
  consume_segment-kept s c g = elim (Bool-cases (leb (seg_end g) s.recv_off)) [
    | inl e ↦ rw e refl
    | inr e ↦ rw e refl
  ]

  pub coalesce_ooo-kept :
      (s : RecvStream) (c : Charge B) (gs : List Segment) → kept (joined s c gs) ≡ kept s
  unfolding coalesce_ooo
  coalesce_ooo-kept s c [] = refl
  coalesce_ooo-kept s c (g ∷ gs) =
      let r = consume_segment budget s c g in
      elim (Bool-cases (ltb s.recv_off g.off)) [
        | inl e ↦ rw (e, joined) refl
        | inr e ↦ rw (e, joined) (coalesce_ooo-kept r.0 r.1 gs ∙ consume_segment-kept s c g)
      ]

  pub coalesce_ooo-Ordered :
      (s : RecvStream) (c : Charge B) (lo hi : ℕ) (gs : List Segment)
      → s.recv_off ≤ hi
      → Ordered lo hi gs
      → let r = joined s c gs in
        (s.recv_off ≤ r.recv_off) × Ordered r.recv_off hi r.recv_ooo × Ahead r.recv_off r.recv_ooo
  unfolding coalesce_ooo consume_segment Ahead Ordered
  coalesce_ooo-Ordered s c lo hi [] h o = (omega arith, h, _)
  coalesce_ooo-Ordered s c lo hi (g ∷ gs) h o =
      let r = consume_segment budget s c g in
      let top = Ordered-le (seg_end g) hi gs o.2 in
      let later = coalesce_ooo-Ordered r.0 r.1 (seg_end g) hi gs in ground (arith, later, top)

  pub coalesce_ooo-counted :
      (s : RecvStream) (c : Charge B) (gs : List Segment)
      → s.ooo_bytes ≡ total gs
      → let r = joined s c gs in (r.ooo_bytes ≡ total r.recv_ooo) × (outstanding r ≤ outstanding s)
  unfolding coalesce_ooo consume_segment total outstanding
  coalesce_ooo-counted s c [] h = (h, omega arith)
  coalesce_ooo-counted s c (g ∷ gs) h =
      let r = consume_segment budget s c g in
      let later = coalesce_ooo-counted r.0 r.1 gs in
      let some_left = drop (s.recv_off - g.off) g.payload in
      ground (
        arith,
        later,
        length-append s.recv_buf some_left,
        length-drop (s.recv_off - g.off) g.payload,
      )

  pub coalesce_ooo-has_received :
      (x : ℕ) (s : RecvStream) (c : Charge B) (lo hi : ℕ) (gs : List Segment)
      → Ordered lo hi gs
      → let r = joined s c gs in has_received x r.recv_off r.recv_ooo ≡ has_received x s.recv_off gs
  unfolding coalesce_ooo consume_segment has_received has_byte Ordered
  coalesce_ooo-has_received x s c lo hi [] o = refl
  coalesce_ooo-has_received x s c lo hi (g ∷ gs) o =
      let r = consume_segment budget s c g in
      let later = coalesce_ooo-has_received x r.0 r.1 (seg_end g) hi gs o.2 in ground (arith, later)

-- A stream grows by bytes that the peer sent from its offset on.
unfoldable pub Delivers : (ℕ → ℕ) → RecvStream → RecvStream → Type 0
Delivers sent s r =
    (more : List ℕ) × (r.recv_buf ≡ s.recv_buf ++ more)
    × Agrees sent s.recv_off more
    × (s.recv_off + length more ≡ r.recv_off)

pub Delivers-trans :
    (sent : ℕ → ℕ) (s t r : RecvStream) → Delivers sent s t → Delivers sent t r → Delivers sent s r
unfolding Delivers
Delivers-trans sent s t r (xs, e, a, n) (ys, f, b, m) = (
  xs ++ ys,
  f ∙ ap (λ l. l ++ ys) e ∙ append_assoc s.recv_buf xs ys,
  Agrees-append sent s.recv_off xs ys a (subst (λ q. Agrees sent q ys) (sym n) b),
  omega (arith, length-append xs ys),
)

module _ {B : Type 0} (budget : BodyBudget B) where
  consume_segment-Delivers :
      (sent : ℕ → ℕ) (s : RecvStream) (c : Charge B) (g : Segment)
      → ltb s.recv_off g.off ≡ false
      → Carries sent g
      → Delivers sent s (consume_segment budget s c g).0
  unfolding consume_segment Delivers
  consume_segment-Delivers sent s c g near h =
      let n = s.recv_off - g.off in
      let le : g.off ≤ s.recv_off = ground (arith, near) in
      elim (Bool-cases (leb (seg_end g) s.recv_off)) [
        | inl e ↦ rw e ([], sym (append-nil s.recv_buf), unfold Agrees in _, omega arith)
        | inr e ↦
            let size : s.recv_off + length (drop n g.payload) ≡ seg_end g =
              ground (arith, e, length-drop n g.payload) in
            rw e (drop n g.payload, refl, Agrees-drop_to sent g.off s.recv_off g.payload h le, size)
      ]

  pub coalesce_ooo-Delivers :
      (sent : ℕ → ℕ) (s : RecvStream) (c : Charge B) (gs : List Segment)
      → All (Carries sent) gs
      → let r = joined budget s c gs in Delivers sent s r × All (Carries sent) r.recv_ooo
  unfolding coalesce_ooo
  coalesce_ooo-Delivers sent s c [] h =
      ((unfold Delivers in ([], sym (append-nil s.recv_buf), unfold Agrees in _, omega arith)), _)
  coalesce_ooo-Delivers sent s c (g ∷ gs) h =
      let r = consume_segment budget s c g in
      let later = coalesce_ooo-Delivers sent r.0 r.1 gs h.1 in
      elim (Bool-cases (ltb s.recv_off g.off)) [
        | inl e ↦
            rw (e, joined)
              (
                (unfold Delivers in
                    ([], sym (append-nil s.recv_buf), unfold Agrees in _, omega arith)),
                h,
              )
        | inr e ↦
            rw (e, joined)
              (
                Delivers-trans sent s r.0 (joined budget r.0 r.1 gs)
                    (consume_segment-Delivers sent s c g e h.0) later.0,
                later.1,
              )
      ]
