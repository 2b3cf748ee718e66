-- ===== src/H3.antt =====
-- HTTP/3: core/h3_frame.go and core/h3_conn.go.
pub mod Frame
pub mod Request
mod Tests
