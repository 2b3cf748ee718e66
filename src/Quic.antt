-- ===== src/Quic.antt =====
-- HTTP/3's transport: core/quic_varint.go, quic_frame.go, quic_ack.go, quic_loss.go, quic_stream.go
-- and quic_ooo_list.go.
pub mod Varint
pub mod Frame
pub mod Ack
pub mod Loss
pub mod Stream
pub mod Ooo
mod Tests
