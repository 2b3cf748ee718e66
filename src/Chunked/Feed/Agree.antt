-- ===== src/Chunked/Feed/Agree.antt =====
-- core/conn_shared.go and core/epoll_h1_linux_amd64.go: the scan that finds a body's end and the
-- decoding of what it found.
use alos_http.Prelude.{
  ℕ, zero, suc, ◌+◌, ◌-◌, ◌≤◌, ◌<◌, ◌≡◌, refl, true, false, List, [], ◌++◌, length, take, drop,
  arith, Bool-cases, inl, inr, length-drop, length-take, drop-take, ap, subst, ◌∙◌, sym,
  take-append-drop,
}
use alos_http.Chunked.Trailer.{Field}
use alos_http.Chunked.Next.{Decoder, Answer, took, malformed, next, new_decoder}
use alos_http.Chunked.Next.Prefix.{next-prefix, next-takes}
use alos_http.Chunked.Feed.Fuel.{decode_loop_done, decode_loop_took}
use alos_http.Chunked.Feed.{
  decoded, decode_loop, decode_chunked_into, Completion, complete, complete_step, complete_loop,
  async_chunked_complete, is_done,
}
use alos_http.Chunked.Feed.Capture.{capturing, next-Same}

-- A round of the decoder on the first `m` bytes, which hold what the scan took.
decode_on_prefix :
    (d d' : Decoder) (rest bytes : List ℕ) (n m : ℕ) (ts : List Field)
    → next d rest ≡ (took (suc n) bytes, d')
    → is_done d.state ≡ false
    → suc n ≤ m
    → m ≤ length rest
    → (ts' : List Field) × ((fuel : ℕ) (dst : List ℕ)
        → decode_loop (suc fuel) (capturing ts d) dst (take m rest)
          ≡ decode_loop fuel
              (capturing ts' d')
              (dst ++ bytes)
              (take (m - suc n) (drop (suc n) rest)))
unfolding decode_loop
decode_on_prefix d d' rest bytes n m ts e nd h l =
    let whole = take-append-drop m rest in
    let long : length (take m rest) ≡ m = omega (arith, length-take m rest) in
    let onwhole = ap (next d) whole ∙ e in
    let onpart : next d (take m rest) ≡ (took (suc n) bytes, d') =
      sym (
        next-prefix d (take m rest) (drop m rest) (suc n) bytes (ap (λ r. r.0) onwhole)
          (omega arith) (omega arith))
      ∙ onwhole in
    let kept = next-Same ts d (take m rest) in
    let captured : next (capturing ts d) (take m rest) ≡ (took (suc n) bytes, capturing kept.0 d') =
      kept.1 ∙ ap (λ r. (r.0, capturing kept.0 r.1)) onpart in
    (
      kept.0,
      λ fuel dst.
          decode_loop_took fuel (capturing ts d) (capturing kept.0 d') dst (take m rest) bytes n nd
            captured
          ∙ ap (decode_loop fuel (capturing kept.0 d') (dst ++ bytes)) (drop-take (suc n) m rest h),
    )

-- The decoder, with any fuel above the length, on the bytes from `pos` up to `end`.
abbrev Reads : Decoder → ℕ → List ℕ → ℕ → Type 0
Reads d pos rest end =
    (pos < end)
    × (end ≤ pos + length rest)
    × ((fuel : ℕ) (ts : List Field) (dst : List ℕ)
        → end - pos < fuel
        → (body : List ℕ) × (trailers : List Field) × (decode_loop fuel (capturing ts d) dst
              (take (end - pos) rest)
            ≡ decoded body trailers))

last_round :
    (fuel : ℕ) (d d' : Decoder) (n : ℕ) (rest bytes : List ℕ) (ts : List Field) (dst : List ℕ)
    → next d rest ≡ (took (suc n) bytes, d')
    → is_done d.state ≡ false
    → is_done d'.state ≡ true
    → suc n ≤ length rest
    → suc n < fuel
    → (body : List ℕ) × (trailers : List Field) × (decode_loop fuel
          (capturing ts d)
          dst
          (take (suc n) rest)
        ≡ decoded body trailers)
last_round zero d d' n rest bytes ts dst e nd dn le l = absurd (omega arith)
last_round (suc zero) d d' n rest bytes ts dst e nd dn le l = absurd (omega arith)
last_round (suc (suc fuel)) d d' n rest bytes ts dst e nd dn le l =
    let (ts', round) = decode_on_prefix d d' rest bytes n (suc n) ts e nd (omega arith) le in
    (
      dst ++ bytes,
      ts',
      round (suc fuel) dst ∙ decode_loop_done fuel (capturing ts' d') (dst ++ bytes) _ dn,
    )

Reads-done :
    (d d' : Decoder) (pos n : ℕ) (rest bytes : List ℕ)
    → next d rest ≡ (took (suc n) bytes, d')
    → is_done d.state ≡ false
    → is_done d'.state ≡ true
    → Reads d pos rest (pos + suc n)
Reads-done d d' pos n rest bytes e nd dn =
    let le = next-takes d rest (suc n) bytes (ap (λ r. r.0) e) in
    let m : pos + suc n - pos ≡ suc n = omega arith in
    (
      omega arith,
      omega (arith, le),
      λ fuel ts dst l. rw m (last_round fuel d d' n rest bytes ts dst e nd dn le (omega arith)),
    )

earlier_round :
    (fuel : ℕ) (d d' : Decoder) (pos n end : ℕ) (rest bytes : List ℕ) (ts : List Field)
    (dst : List ℕ)
    → next d rest ≡ (took (suc n) bytes, d')
    → is_done d.state ≡ false
    → end ≤ pos + length rest
    → Reads d' (pos + suc n) (drop (suc n) rest) end
    → end - pos < fuel
    → (body : List ℕ) × (trailers : List Field) × (decode_loop fuel
          (capturing ts d)
          dst
          (take (end - pos) rest)
        ≡ decoded body trailers)
earlier_round zero d d' pos n end rest bytes ts dst e nd le later l = absurd (omega arith)
earlier_round (suc fuel) d d' pos n end rest bytes ts dst e nd le (lt, le', reads) l =
    let (ts', round) =
      decode_on_prefix d d' rest bytes n (end - pos) ts e nd (omega arith) (omega arith) in
    let (body, trailers, got) = reads fuel ts' (dst ++ bytes) (omega arith) in
    let m : end - pos - suc n ≡ end - (pos + suc n) = omega arith in
    (
      body,
      trailers,
      round fuel dst
          ∙ ap
              (λ k. decode_loop fuel (capturing ts' d') (dst ++ bytes) (take k (drop (suc n) rest)))
              m
          ∙ got,
    )

Reads-later :
    (d d' : Decoder) (pos n end : ℕ) (rest bytes : List ℕ)
    → next d rest ≡ (took (suc n) bytes, d')
    → is_done d.state ≡ false
    → Reads d' (pos + suc n) (drop (suc n) rest) end
    → Reads d pos rest end
Reads-later d d' pos n end rest bytes e nd later =
    let fits = next-takes d rest (suc n) bytes (ap (λ r. r.0) e) in
    let le : end ≤ pos + length rest = omega (arith, fits, later.1, length-drop (suc n) rest) in
    (
      omega (arith, later.0),
      le,
      λ fuel ts dst l. earlier_round fuel d d' pos n end rest bytes ts dst e nd le later l,
    )

abbrev AllRead : (Decoder → ℕ → ℕ → List ℕ → Completion) → Type 0
AllRead again =
    (d : Decoder) (pos chunk_start : ℕ) (rest : List ℕ) (end : ℕ)
    → is_done d.state ≡ false
    → again d pos chunk_start rest ≡ complete end
    → Reads d pos rest end

complete_injective : (a b : ℕ) → complete a ≡ complete b → a ≡ b
complete_injective a b e = cc

complete_step-Reads :
    (again : Decoder → ℕ → ℕ → List ℕ → Completion) (d : Decoder) (pos chunk_start : ℕ)
    (rest : List ℕ) (end : ℕ) (r : Answer × Decoder)
    → AllRead again
    → is_done d.state ≡ false
    → next d rest ≡ r
    → complete_step again pos chunk_start rest r ≡ complete end
    → Reads d pos rest end
unfolding complete_step
complete_step-Reads again d pos chunk_start rest end (malformed, d') ih nd e c = cc
complete_step-Reads again d pos chunk_start rest end (took zero bytes, d') ih nd e c = cc
complete_step-Reads again d pos chunk_start rest end (took (suc n) bytes, d') ih nd e c =
    elim (Bool-cases (is_done d'.state)) [
      | inl dn ↦
          let at_end : complete (pos + suc n) ≡ complete end = rw (dn, complete_step) at c in
          subst (Reads d pos rest) (complete_injective (pos + suc n) end at_end)
            (Reads-done d d' pos n rest bytes e nd dn)
      | inr dn ↦
          Reads-later d d' pos n end rest bytes e nd
            (ih d' (pos + suc n) _ (drop (suc n) rest) end dn (rw (dn, complete_step) at c))
    ]

complete_loop-AllRead : (fuel : ℕ) → AllRead (complete_loop fuel)
unfolding complete_loop
complete_loop-AllRead zero d pos chunk_start rest end nd c = cc
complete_loop-AllRead (suc fuel) d pos chunk_start rest end nd c =
    complete_step-Reads (complete_loop fuel) d pos chunk_start rest end (next d rest)
      (complete_loop-AllRead fuel) nd refl c

-- When the scan `async_chunked_complete` says that the body that starts at `pos` is complete and
-- ends at `end`, then `end` lies behind `pos` and inside the buffer, and `decode_chunked_into`
-- accepts the bytes from `pos` up to `end`.
pub async_chunked_complete_decodes :
    (buf dst : List ℕ) (pos end : ℕ)
    → pos ≤ length buf
    → async_chunked_complete buf pos ≡ complete end
    → (pos < end)
      × (end ≤ length buf)
      × ((body : List ℕ) × (trailers : List Field) × (decode_chunked_into dst
              (take (end - pos) (drop pos buf))
            ≡ decoded body trailers))
unfolding async_chunked_complete decode_chunked_into
async_chunked_complete_decodes buf dst pos end h c =
    let rest = drop pos buf in
    let (lt, le, reads) =
      complete_loop-AllRead (suc (length rest)) (new_decoder false) pos pos rest end refl c in
    (
      lt,
      omega (arith, le, length-drop pos buf),
      reads (suc (length (take (end - pos) rest))) [] dst
          (omega (arith, le, length-take (end - pos) rest, length-drop pos buf)),
    )
