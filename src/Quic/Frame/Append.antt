-- ===== src/Quic/Frame/Append.antt =====
-- core/quic_frame.go: the writers.
use alos_http.Prelude.{ℕ, ltb, Bool, List, [], ◌∷◌, ◌++◌, length, if◌then◌else◌, bit_or}
use alos_http.Quic.Varint.{append_varint}
use alos_http.Quic.Frame

unfoldable pub append_crypto_frame : List ℕ → ℕ → List ℕ → List ℕ
append_crypto_frame dst offset bytes =
    append_varint (append_varint (append_varint dst Frame.frame_crypto) offset) (length bytes)
    ++ bytes

-- The type byte of a stream frame that carries its length.
unfoldable pub stream_flags : ℕ → Bool → ℕ
stream_flags offset fin =
    let flags : ℕ = Frame.frame_stream in
    let flags = if ltb 0 offset then bit_or flags Frame.stream_flag_off else flags in
    let flags = bit_or flags Frame.stream_flag_len in
    if fin then bit_or flags Frame.stream_flag_fin else flags

unfoldable pub append_stream_frame : List ℕ → ℕ → ℕ → List ℕ → Bool → List ℕ
unfolding stream_flags
append_stream_frame dst stream_id offset bytes fin =
    let dst = dst ++ (stream_flags offset fin ∷ []) in
    let dst = append_varint dst stream_id in
    let dst = if ltb 0 offset then append_varint dst offset else dst in
    append_varint dst (length bytes) ++ bytes

unfoldable pub append_ack_frame : List ℕ → ℕ → ℕ → ℕ → List ℕ
append_ack_frame dst largest_ack ack_delay first_range =
    let dst = append_varint dst Frame.frame_ack in
    let dst = append_varint dst largest_ack in
    let dst = append_varint dst ack_delay in append_varint (append_varint dst 0) first_range

unfoldable pub append_max_data_frame : List ℕ → ℕ → List ℕ
append_max_data_frame dst max_data = append_varint (append_varint dst Frame.frame_max_data) max_data

unfoldable pub append_max_stream_data_frame : List ℕ → ℕ → ℕ → List ℕ
append_max_stream_data_frame dst stream_id max_stream_data =
    append_varint (append_varint (append_varint dst Frame.frame_max_stream_data) stream_id)
      max_stream_data

unfoldable pub append_stream_data_blocked_frame : List ℕ → ℕ → ℕ → List ℕ
append_stream_data_blocked_frame dst stream_id limit =
    append_varint (append_varint (append_varint dst Frame.frame_stream_data_block) stream_id) limit

unfoldable pub append_max_streams_frame : List ℕ → ℕ → Bool → List ℕ
append_max_streams_frame dst max_streams bidi =
    append_varint
      (if bidi
        then append_varint dst Frame.frame_max_streams_bidi
        else append_varint dst Frame.frame_max_streams_uni)
      max_streams

unfoldable pub append_reset_stream_frame : List ℕ → ℕ → ℕ → ℕ → List ℕ
append_reset_stream_frame dst stream_id error_code final_size =
    let dst = append_varint dst Frame.frame_reset_stream in
    append_varint (append_varint (append_varint dst stream_id) error_code) final_size

unfoldable pub append_stop_sending_frame : List ℕ → ℕ → ℕ → List ℕ
append_stop_sending_frame dst stream_id error_code =
    append_varint (append_varint (append_varint dst Frame.frame_stop_sending) stream_id) error_code

unfoldable pub append_app_close_frame : List ℕ → ℕ → List ℕ → List ℕ
append_app_close_frame dst error_code reason =
    append_varint (append_varint (append_varint dst Frame.frame_app_close) error_code)
      (length reason)
    ++ reason

unfoldable pub append_handshake_done_frame : List ℕ → List ℕ
append_handshake_done_frame dst = append_varint dst Frame.frame_handshake_done

unfoldable pub append_conn_close_frame : List ℕ → ℕ → ℕ → List ℕ → List ℕ
append_conn_close_frame dst error_code frame_type reason =
    let dst = append_varint dst Frame.frame_conn_close in
    let dst = append_varint (append_varint dst error_code) frame_type in
    append_varint dst (length reason) ++ reason
