-- ===== src/Chunked/Feed.antt =====
-- The loops around the chunked decoder: core/epoll_h1_linux_amd64.go (`decodeChunkedInto`) and
-- core/conn_shared.go (`asyncChunkedComplete`), and the writer of chunks in core/stream.go.
-- A slice from an index on is the rest of the list.
pub mod Fuel
pub mod Capture
pub mod Agree
pub mod ChunkSteps
pub mod RoundTrip
use alos_http.Prelude.{
  ℕ, zero, suc, ◌+◌, length, drop, List, [], ◌∷◌, ◌++◌, Bool, true, false, if◌then◌else◌,
}
use alos_http.Text.Hex.{append_hex}
use alos_http.Chunked.Trailer.{Field}
use alos_http.Chunked.Next.{
  Decoder, DecoderState, await_size, in_data, await_data_end, in_trailer, done, Answer, took,
  malformed, next, new_decoder,
}

abbrev pub is_done : DecoderState → Bool
is_done done = true
is_done _ = false

abbrev pub is_await_size : DecoderState → Bool
is_await_size await_size = true
is_await_size _ = false

-- What `decodeChunkedInto` returns; `unfinished` is the end of the fuel.
pub data Decoded : Type 0 where
  decoded : List ℕ → List Field → Decoded
  rejected : Decoded
  unfinished : Decoded

-- The body of the loop after `next`, with the rest of the loop as a function.
unfoldable pub decode_step :
    (Decoder → List ℕ → List ℕ → Decoded) → List ℕ → List ℕ → Answer × Decoder → Decoded
decode_step again dst src (malformed, d) = rejected
decode_step again dst src (took zero bytes, d) = rejected
decode_step again dst src (took (suc n) bytes, d) = again d (dst ++ bytes) (drop (suc n) src)

unfoldable pub decode_loop : ℕ → Decoder → List ℕ → List ℕ → Decoded
decode_loop zero d dst src = unfinished
decode_loop (suc fuel) d dst src =
    if is_done d.state
    then decoded dst d.trailers
    else decode_step (decode_loop fuel) dst src (next d src)

-- A round takes a byte at least, and one more round sees that the decoder is done.
unfoldable pub decode_chunked_into : List ℕ → List ℕ → Decoded
decode_chunked_into dst src = decode_loop (suc (length src)) (new_decoder true) dst src

-- What `asyncChunkedComplete` returns: `bad s` is `(0, -1, s)`, `partial s` is `(0, 0, s)` and
-- `complete e` is `(e, 1, e)`; `ran_out` is the end of the fuel.
pub data Completion : Type 0 where
  bad : ℕ → Completion
  partial : ℕ → Completion
  complete : ℕ → Completion
  ran_out : Completion

unfoldable pub complete_step :
    (Decoder → ℕ → ℕ → List ℕ → Completion) → ℕ → ℕ → List ℕ → Answer × Decoder → Completion
complete_step again pos chunk_start rest (malformed, d) = bad chunk_start
complete_step again pos chunk_start rest (took zero bytes, d) = partial chunk_start
complete_step again pos chunk_start rest (took (suc n) bytes, d) =
    if is_done d.state
    then complete (pos + suc n)
    else again d (pos + suc n) (if is_await_size d.state then pos + suc n else chunk_start)
        (drop (suc n) rest)

-- `rest` is `buf[pos:]`.
unfoldable pub complete_loop : ℕ → Decoder → ℕ → ℕ → List ℕ → Completion
complete_loop zero d pos chunk_start rest = ran_out
complete_loop (suc fuel) d pos chunk_start rest =
    complete_step (complete_loop fuel) pos chunk_start rest (next d rest)

unfoldable pub async_chunked_complete : List ℕ → ℕ → Completion
async_chunked_complete buf pos =
    complete_loop (suc (length (drop pos buf))) (new_decoder false) pos pos (drop pos buf)

abbrev pub h1_last_chunk : List ℕ
h1_last_chunk = b'0' ∷ 0x0d ∷ 0x0a ∷ 0x0d ∷ 0x0a ∷ []

unfoldable pub append_h1_chunk : List ℕ → List ℕ → List ℕ
append_h1_chunk buf data_bytes =
    buf
    ++ append_hex [] (length data_bytes)
    ++ (0x0d ∷ 0x0a ∷ [])
    ++ data_bytes
    ++ (0x0d ∷ 0x0a ∷ [])
