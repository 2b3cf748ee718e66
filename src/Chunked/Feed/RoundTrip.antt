-- ===== src/Chunked/Feed/RoundTrip.antt =====
-- core/stream.go and core/epoll_h1_linux_amd64.go: what the writer of chunks writes, the decoder
-- reads back.
use alos_http.Prelude.{
  ℕ, suc, ◌+◌, ◌-◌, ◌≤◌, ◌<◌, ◌≡◌, refl, true, List, [], ◌∷◌, ◌++◌, length, All, arith,
  length-append, drop-append_left, append_assoc, append-nil, ap, ◌∙◌, sym,
}
use alos_http.Text.Hex.{append_hex, max_parsed_length}
use alos_http.Chunked.Next.{in_data, await_data_end, in_trailer, done, new_decoder}
use alos_http.Chunked.Feed.Fuel.{decode_loop_done, decode_loop_took}
use alos_http.Chunked.Feed.{
  decoded, decode_loop, decode_chunked_into, append_h1_chunk, h1_last_chunk,
}
use alos_http.Chunked.Feed.ChunkSteps.{
  reading, ending, next_size_line, next_chunk_data, next_chunk_end, next_last_size, next_last_line,
  drop_line,
}

-- A chunk as the writer writes it, with what follows it.
abbrev chunk : List ℕ → List ℕ → List ℕ
chunk body more = append_hex [] (length body) ++ (0x0d ∷ 0x0a ∷ body ++ (0x0d ∷ 0x0a ∷ more))

decode_loop-chunk :
    (fuel b : ℕ) (bs dst more : List ℕ)
    → length (b ∷ bs) ≤ max_parsed_length
    → decode_loop (suc (suc (suc fuel))) (new_decoder true) dst (chunk (b ∷ bs) more)
      ≡ decode_loop fuel (new_decoder true) (dst ++ (b ∷ bs)) more
decode_loop-chunk fuel b bs dst more h =
    let body = b ∷ bs in
    let digits = append_hex [] (length body) in
    let after = body ++ (0x0d ∷ 0x0a ∷ more) in
    decode_loop_took (suc (suc fuel)) (new_decoder true) (reading (length body) in_data) dst
      (chunk body more) [] (length digits + 1) refl
      (next_size_line (length body) after (omega arith) h)
    ∙ ap (decode_loop (suc (suc fuel)) (reading (length body) in_data) (dst ++ []))
        (drop_line digits after 0x0d 0x0a)
    ∙ decode_loop_took (suc fuel) (reading (length body) in_data) (reading 0 await_data_end)
        (dst ++ []) after body (length bs) refl (next_chunk_data body (0x0d ∷ 0x0a ∷ more))
    ∙ ap (decode_loop (suc fuel) (reading 0 await_data_end) ((dst ++ []) ++ body))
        (drop-append_left body (0x0d ∷ 0x0a ∷ more))
    ∙ decode_loop_took fuel (reading 0 await_data_end) (new_decoder true) ((dst ++ []) ++ body)
        (0x0d ∷ 0x0a ∷ more) [] 1 refl (next_chunk_end more)
    ∙ ap (λ l. decode_loop fuel (new_decoder true) l more)
        (append-nil ((dst ++ []) ++ body) ∙ ap (λ l. l ++ body) (append-nil dst))

decode_loop-last_chunk :
    (fuel : ℕ) (dst more : List ℕ)
    → decode_loop (suc (suc (suc fuel))) (new_decoder true) dst (h1_last_chunk ++ more)
      ≡ decoded dst []
decode_loop-last_chunk fuel dst more =
    decode_loop_took (suc (suc fuel)) (new_decoder true) (ending 0 in_trailer) dst
      (h1_last_chunk ++ more) [] 2 refl (next_last_size more)
    ∙ decode_loop_took (suc fuel) (ending 0 in_trailer) (ending 2 done) (dst ++ [])
        (0x0d ∷ 0x0a ∷ more) [] 1 refl (next_last_line more)
    ∙ decode_loop_done fuel (ending 2 done) ((dst ++ []) ++ []) more refl
    ∙ ap (λ l. decoded l []) (append-nil (dst ++ []) ∙ append-nil dst)

-- The chunks of a body one after the other, and the last chunk.
unfoldable pub write_chunks : List ℕ → List (List ℕ) → List ℕ
write_chunks buf [] = buf ++ h1_last_chunk
write_chunks buf (c ∷ cs) = write_chunks (append_h1_chunk buf c) cs

unfoldable pub concat : List (List ℕ) → List ℕ
concat [] = []
concat (c ∷ cs) = c ++ concat cs

abbrev pub IsChunk : List ℕ → Type 0
IsChunk c = (0 < length c) × (length c ≤ max_parsed_length)

append_h1_chunk-nil : (buf c : List ℕ) → append_h1_chunk buf c ≡ buf ++ append_h1_chunk [] c
unfolding append_h1_chunk
append_h1_chunk-nil buf c = simp append_assoc

write_chunks-nil :
    (buf : List ℕ) (cs : List (List ℕ)) → write_chunks buf cs ≡ buf ++ write_chunks [] cs
unfolding write_chunks
write_chunks-nil buf [] = refl
write_chunks-nil buf (c ∷ cs) =
    write_chunks-nil (append_h1_chunk buf c) cs
    ∙ ap (λ l. l ++ write_chunks [] cs) (append_h1_chunk-nil buf c)
    ∙ append_assoc buf (append_h1_chunk [] c) (write_chunks [] cs)
    ∙ ap (λ l. buf ++ l) (sym (write_chunks-nil (append_h1_chunk [] c) cs))

write_chunks-chunk :
    (c : List ℕ) (cs : List (List ℕ)) (more : List ℕ)
    → write_chunks [] (c ∷ cs) ++ more ≡ chunk c (write_chunks [] cs ++ more)
unfolding write_chunks append_h1_chunk
write_chunks-chunk c cs more =
    ap (λ l. l ++ more) (write_chunks-nil (append_h1_chunk [] c) cs) ∙ simp append_assoc

length-chunk : (c more : List ℕ) → length c + 4 + length more ≤ length (chunk c more)
length-chunk c more = omega (
  arith,
  length-append (append_hex [] (length c)) (0x0d ∷ 0x0a ∷ c ++ (0x0d ∷ 0x0a ∷ more)),
  length-append c (0x0d ∷ 0x0a ∷ more),
)

decode_loop-write_chunks :
    (fuel : ℕ) (cs : List (List ℕ)) (dst more : List ℕ)
    → All IsChunk cs
    → length (write_chunks [] cs ++ more) < fuel
    → decode_loop fuel (new_decoder true) dst (write_chunks [] cs ++ more)
      ≡ decoded (dst ++ concat cs) []
unfolding write_chunks concat
decode_loop-write_chunks fuel [] dst more h l =
    let e : fuel ≡ suc (suc (suc (fuel - 3))) = omega arith in
    rw e
      (decode_loop-last_chunk (fuel - 3) dst more ∙ ap (λ t. decoded t []) (sym (append-nil dst)))
decode_loop-write_chunks fuel ([] ∷ cs) dst more h l = absurd (omega arith)
decode_loop-write_chunks fuel ((b ∷ bs) ∷ cs) dst more h l =
    let whole = write_chunks-chunk (b ∷ bs) cs more in
    let long = length-chunk (b ∷ bs) (write_chunks [] cs ++ more) in
    let enough : length (write_chunks [] cs ++ more) < fuel - 3 =
      omega (arith, long, ap length whole) in
    let e : fuel ≡ suc (suc (suc (fuel - 3))) = omega arith in
    ap (decode_loop fuel (new_decoder true) dst) whole
    ∙ ap (λ k. decode_loop k (new_decoder true) dst (chunk (b ∷ bs) (write_chunks [] cs ++ more))) e
    ∙ decode_loop-chunk (fuel - 3) b bs dst (write_chunks [] cs ++ more) h.0.1
    ∙ decode_loop-write_chunks (fuel - 3) cs (dst ++ (b ∷ bs)) more h.1 enough
    ∙ ap (λ t. decoded t []) (append_assoc dst (b ∷ bs) (concat cs))

-- A body written as chunks that are not empty and no longer than 2^50 bytes, closed by the last
-- chunk and followed by anything, is decoded to the chunks' bytes behind `dst`, with no trailers.
pub decode_chunked_into-write_chunks :
    (dst more : List ℕ) (cs : List (List ℕ))
    → All IsChunk cs
    → decode_chunked_into dst (write_chunks [] cs ++ more) ≡ decoded (dst ++ concat cs) []
unfolding decode_chunked_into
decode_chunked_into-write_chunks dst more cs h =
    decode_loop-write_chunks (suc (length (write_chunks [] cs ++ more))) cs dst more h (omega arith)
