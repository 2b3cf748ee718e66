-- ===== src/Text.antt =====
-- core/utils.go: bytes, numbers in text, names and paths.
pub mod Ascii
pub mod Hex
pub mod Path
mod Tests
