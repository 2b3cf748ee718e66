-- ===== src/Chunked/Body/Rounds.antt =====
-- core/http_redirect.go: the rounds do not depend on their fuel, if it is enough.
use alos_http.Prelude.{
  ℕ, zero, suc, ◌≤◌, ◌<◌, ◌≡◌, ◌≢◌, refl, true, false, List, [], ◌∷◌, ◌++◌, length, drop, ◌==◌,
  arith, Bool-cases, inl, inr, length-drop, ◌∙◌, sym,
}
use alos_http.Chunked.Next.{Decoder, Answer, took, malformed, next, new_decoder}
use alos_http.Chunked.Next.Prefix.{next-takes}
use alos_http.Chunked.Feed.{is_done}
use alos_http.Chunked.Body.{
  Limits, request_body_too_large, Stage, wants_more, complete_body, bad_request, content_too_large,
  out_of_fuel, decode_round, decode_rounds, BodyResult, read_error, stuck_body, after_rounds,
  read_rest_of_body, read_http_route_chunked_body,
}

pub decode_rounds_done :
    (fuel : ℕ) (limit : Limits) (d : Decoder) (body input : List ℕ)
    → is_done d.state ≡ true
    → decode_rounds (suc fuel) limit d body input ≡ complete_body body
unfolding decode_rounds
decode_rounds_done fuel limit d body input h = rw (h, decode_rounds) refl

pub decode_rounds_open :
    (fuel : ℕ) (limit : Limits) (d : Decoder) (body input : List ℕ)
    → is_done d.state ≡ false
    → decode_rounds (suc fuel) limit d body input
      ≡ decode_round (decode_rounds fuel limit) limit body input (next d input)
unfolding decode_rounds
decode_rounds_open fuel limit d body input h = rw (h, decode_rounds) refl

-- Two continuations that agree on shorter inputs give the same round.
decode_round-agree :
    (f g : Decoder → List ℕ → List ℕ → Stage) (limit : Limits) (body input : List ℕ)
    (r : Answer × Decoder)
    → ((d : Decoder) (body' input' : List ℕ)
        → length input' < length input
        → f d body' input' ≡ g d body' input')
    → ((n : ℕ) (bytes : List ℕ) → r.0 ≡ took n bytes → n ≤ length input)
    → decode_round f limit body input r ≡ decode_round g limit body input r
unfolding decode_round
decode_round-agree f g limit body input (malformed, d) same fits = refl
decode_round-agree f g limit body input (took zero bytes, d) same fits = refl
decode_round-agree f g limit body input (took (suc n) bytes, d) same fits =
    let le = fits (suc n) bytes refl in
    rw (same d (body ++ bytes) (drop (suc n) input) (omega (arith, length-drop (suc n) input))) refl

pub decode_rounds-fuel :
    (k m : ℕ) (limit : Limits) (d : Decoder) (body input : List ℕ)
    → length input < k
    → length input < m
    → decode_rounds k limit d body input ≡ decode_rounds m limit d body input
decode_rounds-fuel zero m limit d body input h l = absurd (omega arith)
decode_rounds-fuel (suc k) zero limit d body input h l = absurd (omega arith)
decode_rounds-fuel (suc k) (suc m) limit d body input h l = elim (Bool-cases (is_done d.state)) [
  | inl e ↦
      decode_rounds_done k limit d body input e ∙ sym (decode_rounds_done m limit d body input e)
  | inr e ↦
      decode_rounds_open k limit d body input e
      ∙ decode_round-agree (decode_rounds k limit) (decode_rounds m limit) limit body input
          (next d input)
          (λ d' body' input' s.
            decode_rounds-fuel k m limit d' body' input' (omega arith) (omega arith))
          (λ n bytes t. next-takes d input n bytes t)
      ∙ sym (decode_rounds_open m limit d body input e)
]

decode_round-ne-out_of_fuel :
    (again : Decoder → List ℕ → List ℕ → Stage) (limit : Limits) (body input : List ℕ)
    (r : Answer × Decoder)
    → ((d : Decoder) (body' input' : List ℕ)
        → length input' < length input
        → again d body' input' ≢ out_of_fuel)
    → ((n : ℕ) (bytes : List ℕ) → r.0 ≡ took n bytes → n ≤ length input)
    → decode_round again limit body input r ≢ out_of_fuel
unfolding decode_round
decode_round-ne-out_of_fuel again limit body input (malformed, d) ih fits = cc
decode_round-ne-out_of_fuel again limit body input (took n bytes, d) ih fits =
    elim (Bool-cases (request_body_too_large limit (length (body ++ bytes)))) [
      | inl large ↦ rw (large, decode_round) cc
      | inr small ↦ elim (Bool-cases (n == 0)) [
        | inl e ↦ rw (small, e, decode_round) cc
        | inr e ↦
            let le = fits n bytes refl in
            let pos : 0 < n = ground arith in
            rw (small, e, decode_round)
              (ih d (body ++ bytes) (drop n input) (omega (arith, length-drop n input)))
      ]
    ]

pub decode_rounds-ne-out_of_fuel :
    (fuel : ℕ) (limit : Limits) (d : Decoder) (body input : List ℕ)
    → length input < fuel
    → decode_rounds fuel limit d body input ≢ out_of_fuel
decode_rounds-ne-out_of_fuel zero limit d body input h = absurd (omega arith)
decode_rounds-ne-out_of_fuel (suc fuel) limit d body input h = elim (Bool-cases (is_done d.state)) [
  | inl e ↦ rw (decode_rounds_done fuel limit d body input e) cc
  | inr e ↦ rw (decode_rounds_open fuel limit d body input e) (
      decode_round-ne-out_of_fuel (decode_rounds fuel limit) limit body input (next d input)
        (λ d' body' input' l. decode_rounds-ne-out_of_fuel fuel limit d' body' input' (omega arith))
        (λ n bytes t. next-takes d input n bytes t))
]

after_rounds-ne-stuck_body :
    (read : Decoder → List ℕ → List ℕ → BodyResult) (s : Stage)
    → s ≢ out_of_fuel
    → ((d : Decoder) (body input : List ℕ) → read d body input ≢ stuck_body)
    → after_rounds read s ≢ stuck_body
unfolding after_rounds
after_rounds-ne-stuck_body read (wants_more d body input) ne later = later d body input
after_rounds-ne-stuck_body read (complete_body body) ne later = cc
after_rounds-ne-stuck_body read bad_request ne later = cc
after_rounds-ne-stuck_body read content_too_large ne later = cc
after_rounds-ne-stuck_body read out_of_fuel ne later = absurd (ne refl)

read_rest_of_body-ne-stuck_body :
    (limit : Limits) (reads : List (List ℕ)) (d : Decoder) (body input : List ℕ)
    → read_rest_of_body limit reads d body input ≢ stuck_body
unfolding read_rest_of_body
read_rest_of_body-ne-stuck_body limit [] d body input =
    after_rounds-ne-stuck_body (λ d' body' input'. read_error)
      (decode_rounds (suc (length input)) limit d body input)
      (decode_rounds-ne-out_of_fuel (suc (length input)) limit d body input (omega arith))
      (λ d' body' input'. cc)
read_rest_of_body-ne-stuck_body limit (r ∷ reads) d body input =
    after_rounds-ne-stuck_body
      (λ d' body' input'. read_rest_of_body limit reads d' body' (input' ++ r))
      (decode_rounds (suc (length input)) limit d body input)
      (decode_rounds-ne-out_of_fuel (suc (length input)) limit d body input (omega arith))
      (λ d' body' input'. read_rest_of_body-ne-stuck_body limit reads d' body' (input' ++ r))

-- `read_http_route_chunked_body` never runs out of fuel: its rounds end on every input.
pub read_http_route_chunked_body_total :
    (limit : Limits) (input : List ℕ) (reads : List (List ℕ))
    → read_http_route_chunked_body limit input reads ≢ stuck_body
unfolding read_http_route_chunked_body
read_http_route_chunked_body_total limit input reads =
    read_rest_of_body-ne-stuck_body limit reads (new_decoder false) [] input
