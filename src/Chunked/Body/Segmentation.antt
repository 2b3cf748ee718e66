-- ===== src/Chunked/Body/Segmentation.antt =====
-- core/http_redirect.go: how a body is cut into reads makes no difference.
use alos_http.Prelude.{
  ℕ, zero, suc, ◌<◌, ◌≡◌, refl, false, List, [], ◌∷◌, ◌++◌, length, drop, arith, Bool-cases, inl,
  inr, length-drop, length-append, drop-append_le, append-nil, append_assoc, ap, subst, ◌∙◌, sym,
}
use alos_http.Chunked.Next.{Decoder, took, next, new_decoder}
use alos_http.Chunked.Next.Prefix.{next-takes}
use alos_http.Chunked.Feed.{is_done}
use alos_http.Chunked.Body.{
  Limits, request_body_too_large, Stage, wants_more, complete_body, bad_request, content_too_large,
  out_of_fuel, decode_rounds, BodyResult, read_error, after_rounds, read_rest_of_body,
  read_http_route_chunked_body,
}
use alos_http.Chunked.Body.Rounds.{decode_rounds_done, decode_rounds_open}
use alos_http.Chunked.Body.Steps.{IsOpen, next-append, next-IsOpen, next-Idle}
use alos_http.Chunked.Next.Append.{IsFinal}
use alos_http.Chunked.Body.Segments.{rounds, resume, round_took, step_cases}
use alos_http.Chunked.Body.Reads.{rounds_took}
use alos_http.Chunked.Body.Whole.{
  GoodStage, decode_rounds-GoodStage, append_bad, append_idle, append_partial,
}

-- The rounds on a longer input are the rounds on its first part, resumed.
rounds-append :
    (fuel : ℕ) (limit : Limits) (d : Decoder) (body a b : List ℕ)
    → length a < fuel
    → IsOpen d
    → request_body_too_large limit (length body) ≡ false
    → rounds limit d body (a ++ b) ≡ resume limit (decode_rounds fuel limit d body a) b
rounds-append zero limit d body a b h o small = absurd (omega arith)
rounds-append (suc fuel) limit d body a b h o small = elim (Bool-cases (is_done d.state)) [
  | inl e ↦
      decode_rounds_done (length (a ++ b)) limit d body (a ++ b) e
      ∙ sym (ap (λ s. resume limit s b) (decode_rounds_done fuel limit d body a e))
  | inr nd ↦ elim (step_cases (next d a)) [
    | inl (d', r) ↦ append_bad fuel limit d d' body a b nd r
    | inr (inl (bytes, d', r)) ↦
        let (none_taken, same) = next-Idle d a bytes o (ap (λ t. t.0) r) in
        let idle : next d a ≡ (took 0 [], d) =
          ap (λ t. (t, (next d a).1)) none_taken ∙ ap (λ t. (took 0 [], t)) same in
        append_idle fuel limit d body a b nd small idle
    | inr (inr (n, bytes, d', r)) ↦
        let le = next-takes d a (suc n) bytes (ap (λ t. t.0) r) in
        elim (next-append d a b (subst IsFinal (sym (ap (λ t. t.0) r)) (omega arith))) [
          | inr p ↦ append_partial (suc fuel) limit d body a b h p (omega arith)
          | inl same ↦
              let here =
                decode_rounds_open fuel limit d body a nd
                ∙ round_took (decode_rounds fuel limit) limit d d' body a bytes n r in
              let longer =
                rounds_took (suc (length (a ++ b))) limit d d' body (a ++ b) bytes (suc n)
                  (omega arith) nd (omega arith) (omega (arith, le, length-append a b))
                  (same ∙ r) in
              longer ∙ elim (Bool-cases (request_body_too_large limit (length (body ++ bytes)))) [
                | inl large ↦
                    let stops : decode_rounds (suc fuel) limit d body a ≡ content_too_large =
                      rw large at here in
                    rw large (sym (ap (λ s. resume limit s b) stops))
                | inr fits ↦
                    let goes : decode_rounds (suc fuel) limit d body a
                        ≡ decode_rounds fuel limit d' (body ++ bytes) (drop (suc n) a) =
                      rw fits at here in
                    let later =
                      rounds-append fuel limit d' (body ++ bytes) (drop (suc n) a) b
                        (omega (arith, le, length-drop (suc n) a))
                        (subst IsOpen (ap (λ t. t.1) r) (next-IsOpen d a o)) fits in
                    rw fits (
                      ap (rounds limit d' (body ++ bytes)) (drop-append_le (suc n) a b le)
                      ∙ later
                      ∙ sym (ap (λ s. resume limit s b) goes))
              ]
        ]
  ]
]

unfoldable pub all_reads : List (List ℕ) → List ℕ
all_reads [] = []
all_reads (r ∷ reads) = r ++ all_reads reads

abbrev at_end : Stage → BodyResult
at_end = after_rounds (λ d body input. read_error)

-- Reads behind a stage, one by one and at once.
reads_at_once :
    (limit : Limits) (r : List ℕ) (reads : List (List ℕ)) (s : Stage)
    → GoodStage limit s
    → ((d : Decoder) (body input : List ℕ)
        → IsOpen d
        → request_body_too_large limit (length body) ≡ false
        → read_rest_of_body limit reads d body input
          ≡ at_end (rounds limit d body (input ++ all_reads reads)))
    → after_rounds (λ d' body' input'. read_rest_of_body limit reads d' body' (input' ++ r)) s
      ≡ at_end (resume limit s (r ++ all_reads reads))
unfolding after_rounds
reads_at_once limit r reads (wants_more d body input) (o, small) later =
    later d body (input ++ r) o small
    ∙ ap (λ l. at_end (rounds limit d body l)) (append_assoc input r (all_reads reads))
reads_at_once limit r reads (complete_body body) g later = refl
reads_at_once limit r reads bad_request g later = refl
reads_at_once limit r reads content_too_large g later = refl
reads_at_once limit r reads out_of_fuel g later = refl

read_rest_at_once :
    (limit : Limits) (reads : List (List ℕ)) (d : Decoder) (body input : List ℕ)
    → IsOpen d
    → request_body_too_large limit (length body) ≡ false
    → read_rest_of_body limit reads d body input
      ≡ at_end (rounds limit d body (input ++ all_reads reads))
unfolding read_rest_of_body all_reads
read_rest_at_once limit [] d body input o small =
    ap (λ l. at_end (rounds limit d body l)) (sym (append-nil input))
read_rest_at_once limit (r ∷ reads) d body input o small =
    let enough : length input < suc (length input) = omega arith in
    reads_at_once limit r reads (rounds limit d body input)
      (decode_rounds-GoodStage (suc (length input)) limit d body input o small)
      (λ d' body' input' o' small'. read_rest_at_once limit reads d' body' input' o' small')
    ∙ ap at_end (
        sym (
          rounds-append (suc (length input)) limit d body input (r ++ all_reads reads) enough o
            small))

-- The result of `read_http_route_chunked_body`, the body or the status, depends only on the bytes
-- that are there at first and come in by the reads, and not on how they are cut into reads.
pub read_http_route_chunked_body_cut :
    (limit : Limits) (input : List ℕ) (reads : List (List ℕ))
    → read_http_route_chunked_body limit input reads
      ≡ read_http_route_chunked_body limit (input ++ all_reads reads) []
unfolding read_http_route_chunked_body request_body_too_large all_reads
read_http_route_chunked_body_cut limit input reads =
    let o : IsOpen (new_decoder false) = λ e. cc in
    let small : request_body_too_large limit 0 ≡ false = ground arith in
    read_rest_at_once limit reads (new_decoder false) [] input o small
    ∙ sym (
        read_rest_at_once limit [] (new_decoder false) [] (input ++ all_reads reads) o small
        ∙ ap (λ l. at_end (rounds limit (new_decoder false) [] l))
            (append-nil (input ++ all_reads reads)))
