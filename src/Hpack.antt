-- ===== src/Hpack.antt =====
-- HPACK of core/hpack.go: integers and the decoder's dynamic table.
pub mod Integer
pub mod Table
mod Tests
