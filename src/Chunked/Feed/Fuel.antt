-- ===== src/Chunked/Feed/Fuel.antt =====
-- core/epoll_h1_linux_amd64.go and core/conn_shared.go: the rounds of the two loops, and that the
-- fuel is enough.
use alos_http.Prelude.{
  ℕ, zero, suc, ◌+◌, ◌≤◌, ◌<◌, ◌≡◌, ◌≢◌, refl, true, false, List, ◌++◌, length, drop, arith,
  Bool-cases, inl, inr, length-drop, ap, ◌∙◌, if◌then◌else◌,
}
use alos_http.Chunked.Next.{Decoder, Answer, took, malformed, next}
use alos_http.Chunked.Next.Prefix.{next-takes}
use alos_http.Chunked.Feed.{
  Decoded, decoded, unfinished, decode_step, decode_loop, decode_chunked_into, Completion, ran_out,
  complete_step, complete_loop, async_chunked_complete, is_done, is_await_size,
}

pub decode_loop_done :
    (fuel : ℕ) (d : Decoder) (dst src : List ℕ)
    → is_done d.state ≡ true
    → decode_loop (suc fuel) d dst src ≡ decoded dst d.trailers
unfolding decode_loop
decode_loop_done fuel d dst src h = rw (h, decode_loop) refl

pub decode_loop_round :
    (fuel : ℕ) (d : Decoder) (dst src : List ℕ)
    → is_done d.state ≡ false
    → decode_loop (suc fuel) d dst src ≡ decode_step (decode_loop fuel) dst src (next d src)
unfolding decode_loop
decode_loop_round fuel d dst src h = rw (h, decode_loop) refl

pub decode_loop_took :
    (fuel : ℕ) (d d' : Decoder) (dst src bytes : List ℕ) (n : ℕ)
    → is_done d.state ≡ false
    → next d src ≡ (took (suc n) bytes, d')
    → decode_loop (suc fuel) d dst src ≡ decode_loop fuel d' (dst ++ bytes) (drop (suc n) src)
unfolding decode_step
decode_loop_took fuel d d' dst src bytes n h e =
    decode_loop_round fuel d dst src h ∙ ap (decode_step (decode_loop fuel) dst src) e

-- A step from a loop that is not out of fuel on a shorter input is not out of fuel either.
decode_step-ne-unfinished :
    (again : Decoder → List ℕ → List ℕ → Decoded) (dst src : List ℕ) (r : Answer × Decoder)
    → ((d : Decoder) (dst' src' : List ℕ)
        → length src' < length src
        → again d dst' src' ≢ unfinished)
    → ((n : ℕ) (bytes : List ℕ) → r.0 ≡ took n bytes → n ≤ length src)
    → decode_step again dst src r ≢ unfinished
unfolding decode_step
decode_step-ne-unfinished again dst src (malformed, d) ih fits = cc
decode_step-ne-unfinished again dst src (took zero bytes, d) ih fits = cc
decode_step-ne-unfinished again dst src (took (suc n) bytes, d) ih fits =
    let le = fits (suc n) bytes refl in
    ih d (dst ++ bytes) (drop (suc n) src) (omega (arith, length-drop (suc n) src))

decode_loop-ne-unfinished :
    (fuel : ℕ) (d : Decoder) (dst src : List ℕ)
    → length src < fuel
    → decode_loop fuel d dst src ≢ unfinished
decode_loop-ne-unfinished zero d dst src h = absurd (omega arith)
decode_loop-ne-unfinished (suc fuel) d dst src h = elim (Bool-cases (is_done d.state)) [
  | inl e ↦ rw (decode_loop_done fuel d dst src e) cc
  | inr e ↦ rw (decode_loop_round fuel d dst src e) (
      decode_step-ne-unfinished (decode_loop fuel) dst src (next d src)
        (λ d' dst' src' l. decode_loop-ne-unfinished fuel d' dst' src' (omega arith))
        (λ n bytes t. next-takes d src n bytes t))
]

-- `decode_chunked_into` never runs out of fuel: its loop ends on every input.
pub decode_chunked_into_total : (dst src : List ℕ) → decode_chunked_into dst src ≢ unfinished
unfolding decode_chunked_into
decode_chunked_into_total dst src =
    decode_loop-ne-unfinished (suc (length src)) _ dst src (omega arith)

complete_step-ne-ran_out :
    (again : Decoder → ℕ → ℕ → List ℕ → Completion) (pos chunk_start : ℕ) (rest : List ℕ)
    (r : Answer × Decoder)
    → ((d : Decoder) (pos' start : ℕ) (rest' : List ℕ)
        → length rest' < length rest
        → again d pos' start rest' ≢ ran_out)
    → ((n : ℕ) (bytes : List ℕ) → r.0 ≡ took n bytes → n ≤ length rest)
    → complete_step again pos chunk_start rest r ≢ ran_out
unfolding complete_step
complete_step-ne-ran_out again pos chunk_start rest (malformed, d) ih fits = cc
complete_step-ne-ran_out again pos chunk_start rest (took zero bytes, d) ih fits = cc
complete_step-ne-ran_out again pos chunk_start rest (took (suc n) bytes, d) ih fits =
    let le = fits (suc n) bytes refl in
    let later : (start : ℕ) → again d (pos + suc n) start (drop (suc n) rest) ≢ ran_out = λ start.
      ih d (pos + suc n) start (drop (suc n) rest) (omega (arith, length-drop (suc n) rest)) in
    elim (Bool-cases (is_done d.state)) [
      | inl e ↦ rw (e, complete_step) cc
      | inr e ↦
          rw (e, complete_step) (later (if is_await_size d.state then pos + suc n else chunk_start))
    ]

complete_loop-ne-ran_out :
    (fuel : ℕ) (d : Decoder) (pos chunk_start : ℕ) (rest : List ℕ)
    → length rest < fuel
    → complete_loop fuel d pos chunk_start rest ≢ ran_out
unfolding complete_loop
complete_loop-ne-ran_out zero d pos chunk_start rest h = absurd (omega arith)
complete_loop-ne-ran_out (suc fuel) d pos chunk_start rest h =
    complete_step-ne-ran_out (complete_loop fuel) pos chunk_start rest (next d rest)
      (λ d' pos' start rest' l. complete_loop-ne-ran_out fuel d' pos' start rest' (omega arith))
      (λ n bytes t. next-takes d rest n bytes t)

-- `async_chunked_complete` never runs out of fuel: its loop ends on every buffer.
pub async_chunked_complete_total :
    (buf : List ℕ) (pos : ℕ) → async_chunked_complete buf pos ≢ ran_out
unfolding async_chunked_complete
async_chunked_complete_total buf pos =
    complete_loop-ne-ran_out (suc (length (drop pos buf))) _ pos pos (drop pos buf) (omega arith)
