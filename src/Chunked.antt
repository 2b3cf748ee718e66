-- ===== src/Chunked.antt =====
-- Chunked request bodies: core/chunked_decoder.go with the lines of core/trailers.go.
pub mod Line
pub mod Trailer
pub mod Next
pub mod Feed
pub mod Body
mod Tests
