-- ===== src/Quic/Stream/Receive/Taken.antt =====
-- core/quic_stream.go: the answers of takeData's cases: what a refusal leaves and what is taken in.
use alos_http.Prelude.{
  ℕ, zero, suc, ◌+◌, ◌-◌, ◌≤◌, ◌<◌, ◌≡◌, refl, ltb, leb, ◌==◌, Bool, true, false, ◌||◌, List,
  length, drop, Option, none, some, arith, Bool-cases, inl, inr, length-drop, ◌∙◌, sym, ap, subst,
}
use alos_http.Server.Budget.{BodyBudget}
use alos_http.Quic.Stream.{RecvStream, Charge, outstanding}
use alos_http.Quic.Stream.Segments.{held, first_ending_after, filled, ooo_new_bytes}
use alos_http.Quic.Stream.Segments.Stored.{stored, stored-same, fresh_from}
use alos_http.Quic.Stream.Receive.{reserve, reserve_ooo, insert_ooo, append_contig, take_data}
use alos_http.Quic.Stream.Receive.Takes.{
  IsSound, Takes, joined-Takes, stored-Takes, old-Takes, trimmed-Takes,
}

module _ {B : Type 0} (budget : BodyBudget B) where
  reserve_bound :
      (s : RecvStream) (c : Charge B) (n : ℕ)
      → outstanding s ≤ s.max_recv
      → (reserve budget s c n).0 ≡ true
      → outstanding s + n ≤ s.max_recv
  unfolding reserve
  reserve_bound s c zero h e = omega arith
  reserve_bound s c (suc n) h e = ground arith

  reserve_ooo-reserve :
      (s : RecvStream) (c : Charge B) (fresh : ℕ × Bool)
      → (reserve_ooo budget s c fresh).0 ≡ true
      → (reserve budget s c fresh.0).0 ≡ true
  unfolding reserve_ooo
  reserve_ooo-reserve s c (n, opens) e = ground arith

-- An answer to a frame's data: a refusal leaves the stream as it was.
module _ {B : Type 0} where
  unfoldable pub Taken : RecvStream → ℕ → List ℕ → Option ℕ × RecvStream × Charge B → Type 0
  Taken s off payload (none, r, c) = r ≡ s
  Taken s off payload (some n, r, c) = Takes s off payload r

  Taken-trimmed :
      (s : RecvStream) (off : ℕ) (payload : List ℕ) (t : Option ℕ × RecvStream × Charge B)
      → off ≤ s.recv_off
      → s.recv_off ≤ off + length payload
      → Taken s s.recv_off (drop (s.recv_off - off) payload) t
      → Taken s off payload t
  unfolding Taken
  Taken-trimmed s off payload (none, r, c) le gt t = t
  Taken-trimmed s off payload (some n, r, c) le gt t = trimmed-Takes s off payload r le gt t

module _ {B : Type 0} (budget : BodyBudget B) where
  append_contig-Taken :
      (s : RecvStream) (c : Charge B) (payload : List ℕ)
      → IsSound s
      → s.recv_off + length payload ≤ s.recv_max
      → Taken s s.recv_off payload (append_contig budget s c payload)
  unfolding append_contig Taken
  append_contig-Taken s c payload v le = elim (Bool-cases (reserve budget s c (length payload)).0) [
    | inl e ↦ rw e (
        joined-Takes budget s (reserve budget s c (length payload)).1 payload v le
          (reserve_bound budget s c (length payload) v.bounded e))
    | inr e ↦ rw e refl
  ]

  insert_ooo-Taken :
      (s : RecvStream) (c : Charge B) (off : ℕ) (payload : List ℕ)
      → IsSound s
      → s.recv_off < off
      → 0 < length payload
      → off + length payload ≤ s.recv_max
      → Taken s off payload (insert_ooo budget s c off payload)
  unfolding insert_ooo Taken
  insert_ooo-Taken s c off payload v lt some_bytes le =
      let p = first_ending_after off none s.recv_ooo in
      let fresh = ooo_new_bytes off (off + length payload) p.prev off p.after (0, false) in
      let s' : RecvStream = record s {
        recv_ooo = filled off payload p;
        ooo_bytes = s.ooo_bytes + fresh.0;
      } in
      let takes : outstanding s + fresh.0 ≤ s.max_recv → Takes s off payload s' =
        unfold stored fresh_from in stored-Takes s off payload v lt some_bytes le in
      let same : (fresh.0 ≡ 0) → filled off payload p ≡ s.recv_ooo =
        unfold stored fresh_from held in stored-same off payload none s.recv_ooo in
      elim (Bool-cases (fresh.0 == 0)) [
        | inl e ↦
            let zero_new : fresh.0 ≡ 0 = ground (arith, e) in
            let unchanged : s' ≡ s =
              ap (λ gs. record s { recv_ooo = gs; ooo_bytes = s.ooo_bytes + fresh.0 })
                (same zero_new)
              ∙ ap (λ n. record s { ooo_bytes = n }) (omega (arith, zero_new)) in
            let room : outstanding s + fresh.0 ≤ s.max_recv = omega (arith, v.bounded, zero_new) in
            rw e (subst (λ r. Takes s off payload r) unchanged (takes room))
        | inr e ↦ elim (Bool-cases (reserve_ooo budget s c fresh).0) [
          | inl k ↦
              rw (e, k)
                (takes (
                  reserve_bound budget s c fresh.0 v.bounded
                    (reserve_ooo-reserve budget s c fresh k)))
          | inr k ↦ rw (e, k) refl
        ]
      ]

  pub take_data-Taken :
      (s : RecvStream) (c : Charge B) (off : ℕ) (payload : List ℕ)
      → IsSound s
      → off + length payload ≤ s.recv_max
      → Taken s off payload (take_data budget s c off payload)
  unfolding take_data
  take_data-Taken s c off payload v le =
      elim (Bool-cases (length payload == 0 || leb (off + length payload) s.recv_off)) [
        | inl old ↦ rw old (unfold Taken in old-Takes s off payload v old)
        | inr new ↦ elim (Bool-cases (ltb off s.recv_off)) [
          | inl below ↦
              let rest = drop (s.recv_off - off) payload in
              let le' : s.recv_off + length rest ≤ s.recv_max =
                ground (arith, le, new, below, length-drop (s.recv_off - off) payload) in
              let here : (s.recv_off == s.recv_off) ≡ true = ground arith in
              rw (new, below, here)
                (Taken-trimmed s off payload (append_contig budget s c rest) (ground (arith, below))
                  (ground (arith, new)) (append_contig-Taken s c rest v le'))
          | inr above ↦ elim (Bool-cases (off == s.recv_off)) [
            | inl here ↦
                let at_off : off ≡ s.recv_off = ground (arith, here) in
                rw (new, above, here)
                  (subst (λ o. Taken s o payload (append_contig budget s c payload)) (sym at_off)
                    (append_contig-Taken s c payload v (omega (arith, le, at_off))))
            | inr ahead ↦
                rw (new, above, ahead)
                  (insert_ooo-Taken s c off payload v (ground (arith, above, ahead))
                    (ground (arith, new)) le)
          ]
        ]
      ]
