-- ===== src/Chunked/Tests.antt =====
-- Runs of core/chunked_decoder.go and core/utils.go at concrete inputs.
use alos_http.Prelude.{
  ℕ, ◌-◌, ◌≤◌, ◌<◌, ◌≡◌, refl, ◌≢◌, List, [], ◌∷◌, ◌++◌, take, drop, some, arith,
}
use alos_http.Text.Hex.{parse_hex64, append_hex, parse_hex64-append_hex}
use alos_http.Chunked.Trailer.{Field}
use alos_http.Chunked.Next.{new_decoder}
use alos_http.Chunked.Feed.{
  decoded, unfinished, ran_out, complete, decode_chunked_into, async_chunked_complete,
  h1_last_chunk,
}
use alos_http.Chunked.Feed.Fuel.{decode_chunked_into_total, async_chunked_complete_total}
use alos_http.Chunked.Feed.Agree.{async_chunked_complete_decodes}
use alos_http.Chunked.Feed.RoundTrip.{write_chunks, concat, decode_chunked_into-write_chunks}
use alos_http.Chunked.Body.{read_http_route_chunked_body, stuck_body}
use alos_http.Chunked.Body.Rounds.{read_http_route_chunked_body_total}
use alos_http.Chunked.Body.Segmentation.{read_http_route_chunked_body_cut, all_reads}

-- "3\r\nabc\r\n0\r\n\r\n".
abbrev wire : List ℕ
wire = b'3' ∷ 0x0d ∷ 0x0a ∷ b'a' ∷ b'b' ∷ b'c' ∷ 0x0d ∷ 0x0a ∷ b'0' ∷ 0x0d ∷ 0x0a ∷ 0x0d ∷ 0x0a ∷ []

parse_hex64-append_hex_example : parse_hex64 (append_hex [] 4097) ≡ some 4097
parse_hex64-append_hex_example = parse_hex64-append_hex 4097 (omega arith)

decode_chunked_into_total_example : decode_chunked_into [] wire ≢ unfinished
decode_chunked_into_total_example = decode_chunked_into_total [] wire

async_chunked_complete_total_example : async_chunked_complete wire 0 ≢ ran_out
async_chunked_complete_total_example = async_chunked_complete_total wire 0

wire_complete : async_chunked_complete wire 0 ≡ complete 13
unfolding alos_http.Chunked.Feed.async_chunked_complete alos_http.Chunked.Feed.complete_loop
    alos_http.Chunked.Feed.complete_step alos_http.Chunked.Next.next alos_http.Chunked.Next.next_in
    alos_http.Chunked.Next.next_line alos_http.Chunked.Next.next_size
    alos_http.Chunked.Next.next_data alos_http.Chunked.Next.next_data_end
    alos_http.Chunked.Next.next_trailer alos_http.Chunked.Next.line_end
    alos_http.Chunked.Trailer.first_index alos_http.Chunked.Line.parse_chunk_size_line
    alos_http.Chunked.Line.strip_cr alos_http.Chunked.Line.split_digits
    alos_http.Text.Ascii.hex_valid alos_http.Text.Ascii.hex_lookup alos_http.Text.Hex.parse_hex64
    alos_http.Text.Hex.parse_hex_loop alos_http.Chunked.Line.valid_chunk_extensions
    alos_http.Chunked.Line.valid_extensions_loop
wire_complete = refl

async_chunked_complete_decodes_example :
    (0 < 13)
    × (13 ≤ 13)
    × ((body : List ℕ) × (trailers : List Field) × (decode_chunked_into []
            (take (13 - 0) (drop 0 wire))
          ≡ decoded body trailers))
async_chunked_complete_decodes_example =
    async_chunked_complete_decodes wire [] 0 13 (omega arith) wire_complete

decode_chunked_into-write_chunks_example :
    decode_chunked_into [] (write_chunks [] ((b'a' ∷ b'b' ∷ b'c' ∷ []) ∷ []) ++ [])
    ≡ decoded ([] ++ concat ((b'a' ∷ b'b' ∷ b'c' ∷ []) ∷ [])) []
decode_chunked_into-write_chunks_example =
    decode_chunked_into-write_chunks [] [] ((b'a' ∷ b'b' ∷ b'c' ∷ []) ∷ [])
      ((omega arith, omega arith), tt)

read_http_route_chunked_body_total_example :
    read_http_route_chunked_body (2, 0) [] (wire ∷ []) ≢ stuck_body
read_http_route_chunked_body_total_example =
    read_http_route_chunked_body_total (2, 0) [] (wire ∷ [])

read_http_route_chunked_body_cut_example :
    read_http_route_chunked_body (100, 0) (take 4 wire) (drop 4 wire ∷ [])
    ≡ read_http_route_chunked_body (100, 0) (take 4 wire ++ all_reads (drop 4 wire ∷ [])) []
read_http_route_chunked_body_cut_example =
    read_http_route_chunked_body_cut (100, 0) (take 4 wire) (drop 4 wire ∷ [])
