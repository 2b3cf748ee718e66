-- ===== src/Server.antt =====
-- core/server.go: the parts of the server that its connections share.
pub mod Budget
mod Tests
