-- ===== src/Chunked/Body/Whole.antt =====
-- core/http_redirect.go: the rounds on an input and on a longer one, by the kind of the first step.
use alos_http.Prelude.{
  ℕ, zero, suc, ◌-◌, ◌<◌, ◌≡◌, refl, false, List, [], ◌++◌, length, drop, if◌then◌else◌, arith,
  Bool-cases, inl, inr, ap, subst, ◌∙◌, sym,
}
use alos_http.Chunked.Next.{Decoder, took, malformed, next}
use alos_http.Chunked.Feed.{is_done}
use alos_http.Chunked.Body.{
  Limits, request_body_too_large, Stage, wants_more, content_too_large, decode_rounds,
}
use alos_http.Chunked.Body.Rounds.{decode_rounds_open}
use alos_http.Chunked.Body.Steps.{IsOpen, IsPartial, next-append, next-IsOpen, next-Idle}
use alos_http.Chunked.Next.Append.{IsFinal}
use alos_http.Chunked.Body.Segments.{
  rounds, resume, behind, round_bad, round_took, round_idle, partial_step, step_cases,
}
use alos_http.Chunked.Body.Reads.{rounds_took, partial_join, nothing_behind}

-- What holds of the decoder and the body when more input is wanted.
abbrev pub GoodStage : Limits → Stage → Type 0
GoodStage limit (wants_more d body input) =
    IsOpen d × (request_body_too_large limit (length body) ≡ false)
GoodStage limit _ = Unit

pub decode_rounds-GoodStage :
    (fuel : ℕ) (limit : Limits) (d : Decoder) (body input : List ℕ)
    → IsOpen d
    → request_body_too_large limit (length body) ≡ false
    → GoodStage limit (decode_rounds fuel limit d body input)
unfolding decode_rounds
decode_rounds-GoodStage zero limit d body input o small = tt
decode_rounds-GoodStage (suc fuel) limit d body input o small =
    elim (Bool-cases (is_done d.state)) [
      | inl e ↦ rw (e, decode_rounds) tt
      | inr e ↦
          rw (e, decode_rounds)
            (elim (step_cases (next d input)) [
              | inl (d', r) ↦ rw (round_bad (decode_rounds fuel limit) limit d d' body input r) tt
              | inr (inl (bytes, d', r)) ↦
                  let (none_taken, same) = next-Idle d input bytes o (ap (λ t. t.0) r) in
                  let idle : next d input ≡ (took 0 [], d) =
                    ap (λ t. (t, (next d input).1)) none_taken ∙ ap (λ t. (took 0 [], t)) same in
                  rw (round_idle (decode_rounds fuel limit) limit d body input idle small)
                    (o, small)
              | inr (inr (n, bytes, d', r)) ↦
                  rw (round_took (decode_rounds fuel limit) limit d d' body input bytes n r)
                    (elim (Bool-cases (request_body_too_large limit (length (body ++ bytes)))) [
                      | inl large ↦ rw large tt
                      | inr fits ↦ rw fits (
                          decode_rounds-GoodStage fuel limit d' (body ++ bytes) (drop (suc n) input)
                            (subst IsOpen (ap (λ t. t.1) r) (next-IsOpen d input o)) fits)
                    ])
            ])
    ]

-- The three kinds of a step on `a`, with `b` behind it.
pub append_bad :
    (fuel : ℕ) (limit : Limits) (d d' : Decoder) (body a b : List ℕ)
    → is_done d.state ≡ false
    → next d a ≡ (malformed, d')
    → rounds limit d body (a ++ b) ≡ resume limit (decode_rounds (suc fuel) limit d body a) b
append_bad fuel limit d d' body a b nd r =
    let here =
      decode_rounds_open fuel limit d body a nd
      ∙ round_bad (decode_rounds fuel limit) limit d d' body a r in
    elim (next-append d a b (subst IsFinal (sym (ap (λ t. t.0) r)) tt)) [
      | inl same ↦
          decode_rounds_open (length (a ++ b)) limit d body (a ++ b) nd
          ∙ round_bad (decode_rounds (length (a ++ b)) limit) limit d d' body (a ++ b) (same ∙ r)
          ∙ sym (ap (λ s. resume limit s b) here)
      | inr p ↦
          let clash : malformed ≡ took (length a) a = ap (λ t. t.0) (sym r ∙ partial_step d a p) in
          cc
    ]

pub append_idle :
    (fuel : ℕ) (limit : Limits) (d : Decoder) (body a b : List ℕ)
    → is_done d.state ≡ false
    → request_body_too_large limit (length body) ≡ false
    → next d a ≡ (took 0 [], d)
    → rounds limit d body (a ++ b) ≡ resume limit (decode_rounds (suc fuel) limit d body a) b
append_idle fuel limit d body a b nd small idle = sym (
    ap (λ s. resume limit s b)
      (decode_rounds_open fuel limit d body a nd
        ∙ round_idle (decode_rounds fuel limit) limit d body a idle small))

behind_idle :
    (d : Decoder) (a : List ℕ) → IsPartial d a → next (behind d a) [] ≡ (took 0 [], behind d a)
behind_idle d a (s, short) =
    let unspent : d.left - length a - 0 ≡ d.left - length a = omega arith in
    partial_step (behind d a) [] (s, omega arith)
    ∙ ap (λ l. (took 0 [], record d { left = l })) unspent

pub append_partial :
    (fuel : ℕ) (limit : Limits) (d : Decoder) (body a b : List ℕ)
    → length a < fuel
    → IsPartial d a
    → 0 < length a
    → rounds limit d body (a ++ b) ≡ resume limit (decode_rounds fuel limit d body a) b
append_partial fuel limit d body a b f p pos =
    let nd : is_done d.state ≡ false = rw p.0 refl in
    let first =
      rounds_took fuel limit d (behind d a) body a a (length a) f nd pos (omega arith)
        (partial_step d a p)
      ∙ ap
          (λ l.
            if request_body_too_large limit (length (body ++ a))
            then content_too_large
            else rounds limit (behind d a) (body ++ a) l)
          (nothing_behind a) in
    partial_join limit d body a b p pos
    ∙ elim (Bool-cases (request_body_too_large limit (length (body ++ a)))) [
      | inl large ↦
          let stops : decode_rounds fuel limit d body a ≡ content_too_large = rw large at first in
          rw large (sym (ap (λ s. resume limit s b) stops))
      | inr fits ↦
          let waits =
            decode_rounds_open 0 limit (behind d a) (body ++ a) [] nd
            ∙ round_idle (decode_rounds 0 limit) limit (behind d a) (body ++ a) []
                (behind_idle d a p) fits in
          let stops : decode_rounds fuel limit d body a ≡ rounds limit (behind d a) (body ++ a) [] =
            rw fits at first in
          rw fits (sym (ap (λ s. resume limit s b) (stops ∙ waits)))
    ]
