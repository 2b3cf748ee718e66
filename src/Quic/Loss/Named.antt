-- ===== src/Quic/Loss/Named.antt =====
-- core/quic_loss.go: the packet numbers that an ACK frame acknowledges, counted down from its
-- largest one, and that the ranges of `onAckReceived` are these.
use alos_http.Prelude.{
  ℕ, ◌+◌, ◌-◌, ◌≤◌, ◌≡◌, ltb, leb, Bool, true, false, ◌&&◌, List, [], ◌∷◌, if◌then◌else◌, arith,
  Bool-cases, inl, inr, subst,
}
use alos_http.Quic.Frame.{AckFrame, AckRange}
use alos_http.Quic.Ack.Once.{covered}
use alos_http.Quic.Loss.Received.{ack_blocks, ack_blocks_from}

-- Whether the number that lies `d` below the largest one of a range is acknowledged, where `count`
-- more than one are, then one more than the gap are not, and so on with the ranges behind.
pub acked_at : ℕ → ℕ → List AckRange → Bool
acked_at d count [] = leb d count
acked_at d count (r ∷ rs) =
    let rest = acked_at (d - (count + r.gap + 2)) r.count rs in
    if leb d count then true else if leb d (count + r.gap + 1) then false else rest

-- The ranges up to the first that would reach below 0, from a number on.
pub fitting : ℕ → List AckRange → List AckRange
fitting low [] = []
fitting low (r ∷ rs) =
    let rest = fitting (low - (r.gap + 2 + r.count)) rs in
    if leb (r.gap + 2 + r.count) low then r ∷ rest else []

pub acknowledges : AckFrame → ℕ → Bool
acknowledges f pn =
    leb pn f.largest_ack
    && acked_at (f.largest_ack - pn) f.first_range
        (fitting (f.largest_ack - f.first_range) f.ranges)

covered-blocks :
    (lo count pn : ℕ) (rs : List AckRange)
    → covered pn (record { lo = lo; hi = lo + count } ∷ ack_blocks_from lo rs)
      ≡ (leb pn (lo + count) && acked_at (lo + count - pn) count (fitting lo rs))
unfolding covered ack_blocks_from acked_at fitting
covered-blocks lo count pn [] = ground arith
covered-blocks lo count pn (r ∷ rs) = elim (Bool-cases (leb (r.gap + 2 + r.count) lo)) [
  | inl fits ↦
      let hi = lo - r.gap - 2 in
      let low = hi - r.count in
      let top : low + r.count ≡ hi = ground (arith, fits) in
      let below : covered pn (record { lo = low; hi = hi } ∷ ack_blocks_from low rs)
          ≡ (leb pn hi && acked_at (hi - pn) r.count (fitting low rs)) =
        subst
          (λ h.
            covered pn (record { lo = low; hi = h } ∷ ack_blocks_from low rs)
            ≡ (leb pn h && acked_at (h - pn) r.count (fitting low rs)))
          top (covered-blocks low r.count pn rs) in
      let wide : ltb lo (r.gap + 2) ≡ false = ground (arith, fits) in
      let deep : ltb hi r.count ≡ false = ground (arith, fits) in
      let next : lo - (r.gap + 2 + r.count) ≡ low = omega arith in
      let down : lo + count - pn - (count + r.gap + 2) ≡ hi - pn = omega arith in
      rw (wide, deep, fits, next, down) (ground (arith, below))
  | inr over ↦ ground (arith, over)
]

pub covered-ack_blocks :
    (f : AckFrame) (pn : ℕ)
    → f.first_range ≤ f.largest_ack
    → covered pn (ack_blocks f) ≡ acknowledges f pn
unfolding ack_blocks acknowledges
covered-ack_blocks f pn h =
    let low = f.largest_ack - f.first_range in
    let top : low + f.first_range ≡ f.largest_ack = omega arith in
    subst
      (λ n.
        covered pn (record { lo = low; hi = n } ∷ ack_blocks_from low f.ranges)
        ≡ (leb pn n && acked_at (n - pn) f.first_range (fitting low f.ranges)))
      top (covered-blocks low f.first_range pn f.ranges)
