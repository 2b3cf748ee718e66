-- ===== src/Quic/Loss/Acked.antt =====
-- core/quic_loss.go: which packets an acknowledgement takes out.
use alos_http.Prelude.{
  ℕ, ◌≡◌, refl, ltb, leb, Bool, false, ◌&&◌, Bool-cases, inl, inr, List, [], ◌∷◌, if◌then◌else◌,
  Option, none, some, arith, ap, ◌∙◌, sym,
}
use alos_http.Quic.Frame.{AckFrame}
use alos_http.Quic.Ack.{PnRange}
use alos_http.Quic.Ack.Once.{covered}
use alos_http.Quic.Loss.{
  LossState, SentPacket, Space, PerSpace, Tally, at, put, initial, handshake, app_data,
}
use alos_http.Quic.Loss.Named.{acknowledges, covered-ack_blocks}
use alos_http.Quic.Loss.Received.{
  mark_loop, tally_packet, mark_acked, mark_blocks, process_ack, note_largest, on_ack_received,
  grow_cwnd, sample_rtt, update_rtt, ack_blocks, new_tally,
}

-- The packets of a list, in order, whose numbers lie in none of the ranges.
pub unacked : List PnRange → List SentPacket → List SentPacket
unacked bs [] = []
unacked bs (sp ∷ sps) = let rest = unacked bs sps in if covered sp.pn bs then rest else sp ∷ rest

mark_loop-unacked :
    (b : PnRange) (sps : List SentPacket) (s : ℕ × Tally)
    → (mark_loop b.lo b.hi sps s).0 ≡ unacked (b ∷ []) sps
unfolding mark_loop unacked covered
mark_loop-unacked b [] s = refl
mark_loop-unacked b (sp ∷ sps) s =
    ground (arith, mark_loop-unacked b sps s, mark_loop-unacked b sps (tally_packet sp s))

unacked-unacked :
    (b : PnRange) (bs : List PnRange) (sps : List SentPacket)
    → unacked bs (unacked (b ∷ []) sps) ≡ unacked (b ∷ bs) sps
unfolding unacked covered
unacked-unacked b bs [] = refl
unacked-unacked b bs (sp ∷ sps) = ground (arith, unacked-unacked b bs sps)

unacked-nil : (sps : List SentPacket) → unacked [] sps ≡ sps
unfolding unacked covered
unacked-nil [] = refl
unacked-nil (sp ∷ sps) = ap (◌∷◌ sp) (unacked-nil sps)

put-put :
    (p : PerSpace (List SentPacket)) (space : Space) (xs ys : List SentPacket)
    → put (put p space xs) space ys ≡ put p space ys
put-put p initial xs ys = refl
put-put p handshake xs ys = refl
put-put p app_data xs ys = refl

at-put :
    (p : PerSpace (List SentPacket)) (space : Space) (xs : List SentPacket)
    → at (put p space xs) space ≡ xs
at-put p initial xs = refl
at-put p handshake xs = refl
at-put p app_data xs = refl

put-at : (p : PerSpace (List SentPacket)) (space : Space) → put p space (at p space) ≡ p
put-at p initial = refl
put-at p handshake = refl
put-at p app_data = refl

mark_blocks-unacked :
    (ls : LossState) (space : Space) (bs : List PnRange) (t : Tally)
    → (mark_blocks ls space bs t).0.sent ≡ put ls.sent space (unacked bs (at ls.sent space))
unfolding mark_blocks mark_acked
mark_blocks-unacked ls space [] t =
    sym (ap (put ls.sent space) (unacked-nil (at ls.sent space)) ∙ put-at ls.sent space)
mark_blocks-unacked ls space (b ∷ bs) t =
    let marked = mark_acked ls space b.lo b.hi t in
    mark_blocks-unacked marked.0 space bs marked.1
    ∙ simp (
      put-put,
      at-put,
      mark_loop-unacked b (at ls.sent space) (ls.bytes_in_flight, t),
      unacked-unacked,
    )

sample_rtt-sent :
    (ls : LossState) (s : Option ℕ) (now delay : ℕ) → (sample_rtt ls s now delay).sent ≡ ls.sent
unfolding sample_rtt update_rtt
sample_rtt-sent ls none now delay = refl
sample_rtt-sent ls (some t) now delay = ground arith

grow_cwnd-sent : (ls : LossState) (n : ℕ) → (grow_cwnd ls n).sent ≡ ls.sent
unfolding grow_cwnd
grow_cwnd-sent ls n = ground arith

note_largest-sent :
    (ls : LossState) (space : Space) (n : ℕ) → (note_largest ls space n).sent ≡ ls.sent
unfolding note_largest
note_largest-sent ls space n = ground arith

process_ack-sent :
    (ls : LossState) (space : Space) (f : AckFrame) (delay now : ℕ)
    → (process_ack ls space f delay now).0.sent
      ≡ put ls.sent space (unacked (ack_blocks f) (at ls.sent space))
unfolding process_ack
process_ack-sent ls space f delay now =
    grow_cwnd-sent _ _
    ∙ sample_rtt-sent _ _ now delay
    ∙ mark_blocks-unacked (note_largest ls space f.largest_ack) space (ack_blocks f)
        (new_tally f.largest_ack)
    ∙ rw (note_largest-sent ls space f.largest_ack)

-- Whether a frame acknowledges a number, where it is neither out of bounds nor of an unsent packet.
pub accepted_number : AckFrame → ℕ → ℕ → Bool
accepted_number f next pn =
    leb f.first_range f.largest_ack && ltb f.largest_ack next && acknowledges f pn

-- The packets of a list, in order, whose numbers fail a test.
pub without : (ℕ → Bool) → List SentPacket → List SentPacket
without test [] = []
without test (sp ∷ sps) = let rest = without test sps in if test sp.pn then rest else sp ∷ rest

unacked-without :
    (bs : List PnRange) (test : ℕ → Bool) (sps : List SentPacket)
    → ((pn : ℕ) → covered pn bs ≡ test pn)
    → unacked bs sps ≡ without test sps
unfolding unacked without
unacked-without bs test [] h = refl
unacked-without bs test (sp ∷ sps) h = rw (h sp.pn, unacked-without bs test sps h) refl

without_none :
    (test : ℕ → Bool) (sps : List SentPacket)
    → ((pn : ℕ) → test pn ≡ false)
    → without test sps ≡ sps
unfolding without
without_none test [] h = refl
without_none test (sp ∷ sps) h = rw (h sp.pn) (ap (◌∷◌ sp) (without_none test sps h))

refused_sent :
    (ls : LossState) (space : Space) (f : AckFrame) (next : ℕ)
    → ((pn : ℕ) → accepted_number f next pn ≡ false)
    → ls.sent ≡ put ls.sent space (without (accepted_number f next) (at ls.sent space))
refused_sent ls space f next h = sym (
    ap (put ls.sent space) (without_none (accepted_number f next) (at ls.sent space) h)
    ∙ put-at ls.sent space)

-- An acknowledgement takes out of its space exactly the packets that its frame acknowledges,
-- counted down from the largest one by the counts and the gaps of its ranges, up to the first range
-- that would reach below 0. The others stay in their order, and so do the other spaces. A frame
-- whose first range reaches below 0 takes out nothing, and neither does one of a packet that was
-- never sent.
pub on_ack_received_sent :
    (ls : LossState) (space : Space) (f : AckFrame) (delay next now : ℕ)
    → (on_ack_received ls space f delay next now).0.sent
      ≡ put ls.sent space (without (accepted_number f next) (at ls.sent space))
unfolding on_ack_received accepted_number
on_ack_received_sent ls space f delay next now =
    elim (Bool-cases (ltb f.largest_ack f.first_range)) [
      | inl below ↦
          rw below
            (refused_sent ls space f next (λ pn. unfold accepted_number in ground (arith, below)))
      | inr fits ↦ elim (Bool-cases (leb next f.largest_ack)) [
        | inl unsent ↦
            rw (fits, unsent)
              (refused_sent ls space f next
                (λ pn. unfold accepted_number in ground (arith, unsent)))
        | inr sent ↦
            let named : (pn : ℕ) → covered pn (ack_blocks f) ≡ accepted_number f next pn =
              λ pn. ground (arith, covered-ack_blocks f pn (ground (arith, fits)), fits, sent) in
            rw (fits, sent)
              (process_ack-sent ls space f delay now
                ∙ ap (put ls.sent space) (
                    unacked-without (ack_blocks f) (accepted_number f next) (at ls.sent space)
                      named))
      ]
    ]
