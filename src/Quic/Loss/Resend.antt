-- ===== src/Quic/Loss/Resend.antt =====
-- core/quic_loss.go: what a loss and a probe timeout hand back to be sent again.
use alos_http.Prelude.{
  ℕ, ◌+◌, ◌-◌, ◌≡◌, refl, ltb, leb, ap, ◌∙◌, Bool, false, ◌&&◌, ◌||◌, List, [], ◌∷◌, ◌++◌,
  if◌then◌else◌, some, arith, sym, append_assoc, append-nil, max, ◌/◌, ◌*◌,
}
use alos_http.Quic.Loss.{LossState, SentPacket, Space, at, put, max_packet_size}
use alos_http.Quic.Loss.Detect.{
  Sweep, sweep, take_out, has_frames, is_lost, loss_delay, detect_lost, start_sweep, finish_sweep,
  halve_window,
}

-- The packets that a test keeps, and the frames of those that it does not.
pub kept : (SentPacket → Bool) → List SentPacket → List SentPacket
kept test [] = []
kept test (sp ∷ sps) = let rest = kept test sps in if test sp then rest else sp ∷ rest

pub lost_frames : (SentPacket → Bool) → List SentPacket → List (List ℕ)
lost_frames test [] = []
lost_frames test (sp ∷ sps) =
    let rest = lost_frames test sps in
    if test sp && has_frames sp.frames then sp.frames ∷ rest else rest

pub any_lost : (SentPacket → Bool) → List SentPacket → Bool
any_lost test [] = false
any_lost test (sp ∷ sps) = test sp && sp.in_flight || any_lost test sps

sweep_lem :
    (test : SentPacket → Bool) (sps : List SentPacket) (s : Sweep)
    → ((sweep test sps s).remaining ≡ s.remaining ++ kept test sps)
      × ((sweep test sps s).frames ≡ s.frames ++ lost_frames test sps)
      × ((sweep test sps s).had_loss ≡ (s.had_loss || any_lost test sps))
unfolding sweep kept lost_frames any_lost take_out
sweep_lem test [] s = (sym (append-nil s.remaining), sym (append-nil s.frames), ground arith)
sweep_lem test (sp ∷ sps) s = ground (
  arith,
  sweep_lem test sps (take_out sp s),
  sweep_lem test sps (record s { remaining = s.remaining ++ (sp ∷ []) }),
  append_assoc s.remaining (sp ∷ []) (kept test sps),
  append_assoc s.frames (sp.frames ∷ []) (lost_frames test sps),
)

-- Whether a packet is to be lost: one sent three numbers or more before the largest acknowledged
-- one, or one up to that number whose age is more than 9/8 of the round trip and more than the
-- granularity of the timer.
pub overdue : LossState → ℕ → ℕ → SentPacket → Bool
overdue ls largest now sp =
    let age = now - sp.sent in
    let old = ltb (9 * max ls.smoothed_rtt ls.min_rtt) (8 * age) && ltb 1000000 age in
    leb (sp.pn + 3) largest || leb sp.pn largest && old

is_lost-overdue :
    (ls : LossState) (largest now : ℕ) (sp : SentPacket)
    → is_lost largest now (loss_delay ls) sp ≡ overdue ls largest now sp
unfolding is_lost loss_delay overdue
is_lost-overdue ls largest now sp = ground arith

-- Tests that agree keep and lose the same packets.
same_test :
    (p q : SentPacket → Bool) (sps : List SentPacket)
    → ((sp : SentPacket) → p sp ≡ q sp)
    → (kept p sps ≡ kept q sps)
      × (lost_frames p sps ≡ lost_frames q sps)
      × (any_lost p sps ≡ any_lost q sps)
unfolding kept lost_frames any_lost
same_test p q [] h = (refl, refl, refl)
same_test p q (sp ∷ sps) h =
    let (k, l, a) = same_test p q sps h in rw (h sp, k, l, a) (refl, refl, refl)

sweep_lost :
    (ls : LossState) (space : Space) (now largest : ℕ) (frames : List (List ℕ))
    → let s =
        sweep (is_lost largest now (loss_delay ls)) (at ls.sent space) (start_sweep ls frames) in
      let lost = overdue ls largest now in
      let sent = at ls.sent space in
      (s.remaining ≡ kept lost sent)
      × (s.frames ≡ frames ++ lost_frames lost sent)
      × (s.had_loss ≡ any_lost lost sent)
sweep_lost ls space now largest frames =
    let test = is_lost largest now (loss_delay ls) in
    let sent = at ls.sent space in
    let (r, f, h) = sweep_lem test sent (start_sweep ls frames) in
    let (k, l, a) = same_test test (overdue ls largest now) sent (is_lost-overdue ls largest now) in
    (r ∙ k, f ∙ ap (λ fs. frames ++ fs) l, h ∙ a)

-- Loss detection keeps, in their order, the packets that are not overdue: those that are neither
-- three numbers or more behind the largest acknowledged one nor, up to that one, older than 9/8 of
-- the round trip and than the timer's granularity. It hands back the frames of every other one
-- behind those that it was given. The congestion window is halved, but not below two packets,
-- exactly if a packet in flight was lost. (A packet of the space was acknowledged before.)
pub detect_lost_exact :
    (ls : LossState) (space : Space) (now largest : ℕ) (frames : List (List ℕ))
    → at ls.largest_acked space ≡ some largest
    → let lost = overdue ls largest now in
      let sent = at ls.sent space in
      let (ls', again) = detect_lost ls space now frames in
      (ls'.sent ≡ put ls.sent space (kept lost sent))
      × (again ≡ frames ++ lost_frames lost sent)
      × (ls'.cwnd
          ≡ (if any_lost lost sent then max (ls.cwnd / 2) (2 * max_packet_size) else ls.cwnd))
unfolding detect_lost
detect_lost_exact ls space now largest frames e =
    rw (e, detect_lost)
      (unfold halve_window finish_sweep in ground (arith, sweep_lost ls space now largest frames))
