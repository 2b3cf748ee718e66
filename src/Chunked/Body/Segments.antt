-- ===== src/Chunked/Body/Segments.antt =====
-- core/http_redirect.go: one round of the loop, and a step over data that the input does not end.
use alos_http.Prelude.{
  ℕ, zero, suc, ◌+◌, ◌-◌, ◌≤◌, ◌≡◌, ◌⊎◌, refl, min, true, false, List, [], ◌++◌, length, take, drop,
  if◌then◌else◌, ◌==◌, arith, inl, inr, length-append, take-append, take_all, append-nil, ap, ◌∙◌,
}
use alos_http.Chunked.Next.{Decoder, Answer, took, malformed, next, next_in, next_data}
use alos_http.Chunked.Body.{
  Limits, request_body_too_large, Stage, wants_more, bad_request, content_too_large, decode_round,
  decode_rounds,
}
use alos_http.Chunked.Body.Steps.{IsPartial}

-- The rounds on an input, with just enough fuel.
abbrev pub rounds : Limits → Decoder → List ℕ → List ℕ → Stage
rounds limit d body input = decode_rounds (suc (length input)) limit d body input

-- More input behind a stage.
abbrev pub resume : Limits → Stage → List ℕ → Stage
resume limit (wants_more d body input) more = rounds limit d body (input ++ more)
resume limit s more = s

pub too_large_grows :
    (limit : Limits) (m n : ℕ)
    → request_body_too_large limit m ≡ true
    → m ≤ n
    → request_body_too_large limit n ≡ true
unfolding request_body_too_large
too_large_grows (max_body, read_cap) m n h l = ground arith

pub round_bad :
    (again : Decoder → List ℕ → List ℕ → Stage) (limit : Limits) (d d' : Decoder)
    (body input : List ℕ)
    → next d input ≡ (malformed, d')
    → decode_round again limit body input (next d input) ≡ bad_request
unfolding decode_round
round_bad again limit d d' body input e = rw e refl

pub round_took :
    (again : Decoder → List ℕ → List ℕ → Stage) (limit : Limits) (d d' : Decoder)
    (body input bytes : List ℕ) (n : ℕ)
    → next d input ≡ (took (suc n) bytes, d')
    → decode_round again limit body input (next d input) ≡ (
        if request_body_too_large limit (length (body ++ bytes))
        then content_too_large
        else again d' (body ++ bytes) (drop (suc n) input))
unfolding decode_round
round_took again limit d d' body input bytes n e =
    let some_bytes : (suc n == 0) ≡ false = ground arith in
    rw e (rw (some_bytes, decode_round) refl)

pub round_idle :
    (again : Decoder → List ℕ → List ℕ → Stage) (limit : Limits) (d : Decoder) (body input : List ℕ)
    → next d input ≡ (took 0 [], d)
    → request_body_too_large limit (length body) ≡ false
    → decode_round again limit body input (next d input) ≡ wants_more d body input
unfolding decode_round
round_idle again limit d body input e small =
    rw (e, append-nil body) (rw (small, decode_round) refl)

-- A step of a chunk's data that the input does not end.
pub partial_step :
    (d : Decoder) (a : List ℕ)
    → IsPartial d a
    → next d a ≡ (took (length a) a, record d { left = d.left - length a })
unfolding next next_in next_data
partial_step d a (s, short) =
    let all : min (length a) d.left ≡ length a = omega arith in
    let more : (d.left - length a == 0) ≡ false = ground arith in
    rw s (rw (all, more, take_all (length a) a (omega arith)) refl)

pub step_cases :
    (r : Answer × Decoder)
    → ((d : Decoder) × (r ≡ (malformed, d)))
      ⊎ (((bytes : List ℕ) × (d : Decoder) × (r ≡ (took 0 bytes, d)))
          ⊎ ((n : ℕ) × (bytes : List ℕ) × (d : Decoder) × (r ≡ (took (suc n) bytes, d))))
step_cases (malformed, d) = inl (d, refl)
step_cases (took zero bytes, d) = inr (inl (bytes, d, refl))
step_cases (took (suc n) bytes, d) = inr (inr (n, bytes, d, refl))

-- What is left of a chunk's data behind the input.
abbrev pub behind : Decoder → List ℕ → Decoder
behind d a = record d { left = d.left - length a }

-- A step over data that go on is a step over the first part and one over the second.
pub data_split :
    (d : Decoder) (a b : List ℕ)
    → IsPartial d a
    → let m = min (length b) (d.left - length a) in
      (next (behind d a) b ≡ (took m (take m b), (next (behind d a) b).1))
      × (next d (a ++ b) ≡ (took (length a + m) (a ++ take m b), (next (behind d a) b).1))
unfolding next next_in next_data
data_split d a b (s, short) =
    let m = min (length b) (d.left - length a) in
    let both : min (length (a ++ b)) d.left ≡ length a + m = omega (arith, length-append a b) in
    let rest : d.left - (length a + m) ≡ d.left - length a - m = omega arith in
    let after : length a + m - length a ≡ m = omega arith in
    let front : take (length a + m) (a ++ b) ≡ a ++ take m b =
      take-append (length a + m) a b
      ∙ ap (λ l. l ++ take (length a + m - length a) b) (take_all (length a + m) a (omega arith))
      ∙ ap (λ k. a ++ take k b) after in
    rw s (refl, rw (both, rest, front) refl)
