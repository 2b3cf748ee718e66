-- ===== src/H3/Frame.antt =====
-- core/h3_frame.go: frames of HTTP/3, written and read. A reader is the bytes that it has left,
-- `data[off:]`.
pub mod Reading
use alos_http.Prelude.{
  ℕ, ◌+◌, leb, ltb, ◌==◌, ◌&&◌, ◌||◌, Bool, true, false, List, [], ◌∷◌, ◌++◌, length, take, drop,
  if◌then◌else◌, Option, none, some,
}
use alos_http.Quic.Varint.{append_varint, parse_varint}

abbrev pub frame_data : ℕ
frame_data = 0

abbrev pub frame_headers : ℕ
frame_headers = 1

abbrev pub frame_cancel_push : ℕ
frame_cancel_push = 3

abbrev pub frame_settings : ℕ
frame_settings = 4

abbrev pub frame_push_promise : ℕ
frame_push_promise = 5

abbrev pub frame_goaway : ℕ
frame_goaway = 7

abbrev pub frame_max_push_id : ℕ
frame_max_push_id = 13

unfoldable pub reserved_from_http2 : ℕ → Bool
reserved_from_http2 t = t == 2 || t == 6 || t == 8 || t == 9

unfoldable pub append_frame : List ℕ → ℕ → List ℕ → List ℕ
append_frame dst t payload = append_varint (append_varint dst t) (length payload) ++ payload

unfoldable pub append_headers_frame : List ℕ → List ℕ → List ℕ
append_headers_frame dst block = append_frame dst frame_headers block

unfoldable pub append_data_frame : List ℕ → List ℕ → List ℕ
append_data_frame dst bytes = append_frame dst frame_data bytes

unfoldable pub append_settings_frame : List ℕ → ℕ → List ℕ
append_settings_frame dst limit =
    let sizes = append_varint (append_varint [] 6) limit in
    let table = append_varint (append_varint sizes 1) 0 in
    append_frame dst frame_settings (append_varint (append_varint table 7) 0)

-- `h3FrameReader.next`: the type, the payload, and what is left behind the frame.
unfoldable pub frame_behind : ℕ → List ℕ → Option (ℕ × List ℕ × List ℕ)
frame_behind t behind =
    let (size, m) = parse_varint behind in
    let rest = drop m behind in
    if m == 0 || ltb (length rest) size then none else some (t, take size rest, drop size rest)

unfoldable pub next_frame : List ℕ → Option (ℕ × List ℕ × List ℕ)
next_frame bytes =
    let (t, n) = parse_varint bytes in
    if length bytes == 0 || n == 0 then none else frame_behind t (drop n bytes)
