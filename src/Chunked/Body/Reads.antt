-- ===== src/Chunked/Body/Reads.antt =====
-- core/http_redirect.go: a round over the end of the input, beside one round up to it and one behind.
use alos_http.Prelude.{
  ℕ, zero, suc, ◌+◌, ◌-◌, ◌≤◌, ◌<◌, ◌≡◌, refl, min, false, List, [], ◌∷◌, ◌++◌, length, take, drop,
  if◌then◌else◌, arith, Bool-cases, inl, inr, length-drop, length-append, append-nil, append_assoc,
  ap, ◌∙◌, sym,
}
use alos_http.Chunked.Next.{Decoder, took, next}
use alos_http.Chunked.Feed.{is_done}
use alos_http.Chunked.Body.{Limits, request_body_too_large, Stage, content_too_large, decode_rounds}
use alos_http.Chunked.Body.Rounds.{decode_rounds_open, decode_rounds-fuel}
use alos_http.Chunked.Body.Steps.{IsPartial}
use alos_http.Chunked.Body.Segments.{
  rounds, behind, too_large_grows, round_took, partial_step, data_split,
}

drop_all : (a b : List ℕ) (m : ℕ) → drop (length a + m) (a ++ b) ≡ drop m b
drop_all [] b m = let none_before : 0 + m ≡ m = omega arith in ap (λ k. drop k b) none_before
drop_all (x ∷ a) b m =
    let count : suc (length a) + m ≡ suc (length a + m) = omega arith in
    ap (λ k. drop k (x ∷ (a ++ b))) count ∙ drop_all a b m

pub nothing_behind : (a : List ℕ) → drop (length a) a ≡ []
nothing_behind [] = refl
nothing_behind (x ∷ a) = nothing_behind a

-- A round that takes `n` bytes, with the rest of the rounds on just enough fuel.
pub rounds_took :
    (fuel : ℕ) (limit : Limits) (d d' : Decoder) (body input bytes : List ℕ) (n : ℕ)
    → length input < fuel
    → is_done d.state ≡ false
    → 0 < n
    → n ≤ length input
    → next d input ≡ (took n bytes, d')
    → decode_rounds fuel limit d body input ≡ (
        if request_body_too_large limit (length (body ++ bytes))
        then content_too_large
        else rounds limit d' (body ++ bytes) (drop n input))
rounds_took zero limit d d' body input bytes n f nd pos le e = absurd (omega arith)
rounds_took (suc fuel) limit d d' body input bytes zero f nd pos le e = absurd (omega arith)
rounds_took (suc fuel) limit d d' body input bytes (suc n) f nd pos le e =
    let rest = drop (suc n) input in
    let enough : length rest < fuel = omega (arith, length-drop (suc n) input) in
    decode_rounds_open fuel limit d body input nd
    ∙ round_took (decode_rounds fuel limit) limit d d' body input bytes n e
    ∙ ap
        (λ s.
          if request_body_too_large limit (length (body ++ bytes)) then content_too_large else s)
        (decode_rounds-fuel fuel (suc (length rest)) limit d' (body ++ bytes) rest enough
          (omega arith))

-- The check of the first part is made again on both.
checked :
    (limit : Limits) (body more : List ℕ) (s t : Stage)
    → s ≡ (if request_body_too_large limit (length (body ++ more)) then content_too_large else t)
    → (if request_body_too_large limit (length body) then content_too_large else s)
      ≡ (if request_body_too_large limit (length (body ++ more)) then content_too_large else t)
checked limit body more s t e = elim (Bool-cases (request_body_too_large limit (length body))) [
  | inl large ↦
      let longer =
        too_large_grows limit (length body) (length (body ++ more)) large
          (omega (arith, length-append body more)) in
      rw (large, longer) refl
  | inr small ↦ rw small e
]

-- Data over the end of the input: a round over all of it, and the rounds behind the first part.
pub partial_join :
    (limit : Limits) (d : Decoder) (body a b : List ℕ)
    → IsPartial d a
    → 0 < length a
    → rounds limit d body (a ++ b) ≡ (
        if request_body_too_large limit (length (body ++ a))
        then content_too_large
        else rounds limit (behind d a) (body ++ a) b)
partial_join limit d body a [] p pos =
    let nd : is_done d.state ≡ false = rw p.0 refl in
    let le : length a ≤ length a = omega arith in
    ap (rounds limit d body) (append-nil a)
    ∙ rounds_took (suc (length a)) limit d (behind d a) body a a (length a) (omega arith) nd pos le
        (partial_step d a p)
    ∙ ap
        (λ l.
          if request_body_too_large limit (length (body ++ a))
          then content_too_large
          else rounds limit (behind d a) (body ++ a) l)
        (nothing_behind a)
partial_join limit d body a (x ∷ xs) p pos =
    let b = x ∷ xs in
    let m = min (length b) (d.left - length a) in
    let d2 = (next (behind d a) b).1 in
    let nd : is_done d.state ≡ false = rw p.0 refl in
    let (second, whole) = data_split d a b p in
    let some_more : 0 < m = omega (arith, p.1) in
    let inside : length a + m ≤ length (a ++ b) = omega (arith, length-append a b) in
    let at_once =
      rounds_took (suc (length (a ++ b))) limit d d2 body (a ++ b) (a ++ take m b) (length a + m)
        (omega arith) nd (omega arith) inside whole in
    let in_two =
      rounds_took (suc (length b)) limit (behind d a) d2 (body ++ a) b (take m b) m (omega arith) nd
        some_more (omega arith) second in
    let same =
      ap
        (λ l.
          if request_body_too_large limit (length l)
          then content_too_large
          else rounds limit d2 l (drop (length a + m) (a ++ b)))
        (sym (append_assoc body a (take m b)))
      ∙ ap
          (λ l.
            if request_body_too_large limit (length ((body ++ a) ++ take m b))
            then content_too_large
            else rounds limit d2 ((body ++ a) ++ take m b) l)
          (drop_all a b m) in
    at_once ∙ same ∙ sym (checked limit (body ++ a) (take m b) _ _ in_two)
