-- ===== src/Lib.antt =====
-- alos-http: a model of parts of the HTTP server's core in core/ and the theorems about it.
--
-- The server speaks HTTP/1.1, HTTP/2 and HTTP/3 on Linux. A connection's bytes reach a protocol
-- engine, which parses them into requests for the router and writes the answers back. HTTP/3 runs
-- over QUIC, whose packets carry frames: quicParseFrames hands each frame to the connection's
-- visitor, recordRecvPN decides whether a packet is new, and quicLossState keeps what was sent
-- until it is acknowledged or lost. An HTTP/1.1 body with chunked framing goes through
-- chunkedDecoder, which several loops drive: one finds the end of a body in the connection's buffer,
-- one copies the body out, and one reads a body from a connection piece by piece. The development
-- models these parts:
--
-- - Prelude: Boolean tests, lists and options on native numbers, bytes and their masks, 64-bit words
--   and the type of a result or an error that the parts share.
-- - Quic.Varint (core/quic_varint.go): quicAppendVarint, quicPutVarint and quicParseVarint.
-- - Quic.Frame (core/quic_frame.go, core/quic_path.go): the frame types and records; Append has the
--   writers quicAppend*, Parse the methods of quicFrameParser, and Loop quicParseFrames. A visitor's
--   callbacks are the list of events that the loop makes. Outgoing is the independent list of frames
--   that the writers write.
-- - Quic.Ack (core/quic_ack.go): the ranges of received packet numbers, recordRecvPN, and
--   quicAppendACKFrameRanges.
-- - Quic.Loss (core/quic_loss.go): quicLossState and every method that changes it, with the
--   acknowledgements in Received and the loss detection in Detect. Time is a number that the caller
--   passes on, where the code reads the clock.
-- - Quic.Stream (core/quic_stream.go): the receiving side of a stream. Segments has the list of
--   out-of-order segments, Receive handleStreamFrame with what it reserves, Reading the reads,
--   credits and resets, and Delivery and Completion follow a stream through whole sequences of
--   frames and reads. The stream uses one list of segments and searches it from the front.
-- - Quic.Ooo (core/quic_ooo_list.go): the chunks in which the segments are kept, and their binary
--   search. Flat has the one list that they stand for.
-- - Server.Budget (core/server.go): the budget of request-body bytes that connections share. A step
--   is one atomic operation of a caller; System has any number of callers. A stream uses the budget
--   through the interface BodyBudget, where a call is one that no other caller disturbs.
-- - H3 (core/h3_frame.go, core/h3_conn.go): frames of HTTP/3 in Frame, and handleRequestStream up
--   to the dispatch in Request. It uses the decoder of field sections, the limit of a body and what
--   the metadata say through the interface RequestParts.
-- - Text (core/utils.go, core/h1_plain.go, core/h1scan.go): classes of bytes and hexadecimal numbers;
--   Path has sanitizeRequestPath and sanitizeSplitPath.
-- - Chunked (core/chunked_decoder.go, core/trailers.go, core/h1scan.go): the size line in Line,
--   trailer lines in Trailer, the decoder and its step in Next, and in Feed the two loops
--   decodeChunkedInto (core/epoll_h1_linux_amd64.go) and asyncChunkedComplete (core/conn_shared.go)
--   with the writer appendH1Chunk (core/stream.go). Body has readHTTPRouteChunkedBody
--   (core/http_redirect.go), which reads a body piece by piece; a read is a list of bytes.
-- - Hpack (core/hpack.go): EncodeInt and HpackDecodeInt in Integer; the decoder's dynamic table in
--   Table, a ring with addEntry and setMaxSize. The decoder keeps its entries in an array inside it
--   until the table first grows, and in a slice from then on; the model has the one in use.
-- - RateLimit (core/ratelimit.go): TokenBucket with refill, Allow and mulDivCapped. A step is one
--   atomic operation of one of any number of callers, and a run is a list of steps. What bits.Div64
--   and a division by 0 do, a panic, is an answer of its own.
--
-- A byte is a native number, and a slice from an index on is the rest of a list. A machine word
-- keeps its wrap-around where the code can reach it: uint64 sums and differences are taken modulo
-- 2^64 (Prelude.Words), and the operations on bytes by masks are the library's bit_and and bit_or.
-- int64 lengths are bounded by the lengths of slices, or by the limit 2^50 of a parsed length, and
-- never wrap. The counters of the body budget may fall below 0 and are integers (Prelude.Int): an
-- addition on the shared one is of no more than the limit, 2^40 at most where it is not a swap, so
-- that less than 2^22 callers at a time never make it wrap. A QUIC frame's 62-bit values stay below
-- 2^63, so that the conversions to int keep them.
--
-- Fuel: the frame loop has as many rounds as the packet has bytes, and a round takes a byte at
-- least; the loop over the frames of a request stream and the loops around the chunked decoder have
-- one round more than bytes, the last one to see the end. The end of the fuel is an answer of its
-- own, and theorems show that it is never given. The loop over chunk extensions has as many rounds
-- as bytes. The encoder's loop of EncodeInt has ten rounds, of seven bits each, which a uint64 fits.
-- A caller of the body budget that no other one disturbs has five operations. sort.Search, of the
-- standard library, has as many rounds as there are indices, and each leaves
-- fewer of them.
--
-- Left out: the socket, epoll and goroutine code, the TLS and QUIC cryptography, the compression
-- and the assembly. The byte scans of core/h1scan.go by words of eight bytes, and their assembly
-- twins, are modelled as the scans byte by byte that they stand for. QUIC connections, packets and
-- the sending side of streams, the rest of HPACK, QPACK, HTTP/2, the control streams of HTTP/3,
-- WebSocket, routing, the proxy, the rate limit engine, cookies and sessions are not modelled.
pub mod Prelude
pub mod Quic
pub mod Text
pub mod Chunked
pub mod Hpack
pub mod RateLimit
pub mod H3
pub mod Server
