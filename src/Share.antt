-- ===== src/Share.antt =====
-- internal/share/service.go: a worker, from its lease to its clean-up, and the handler behind its
-- control socket.
pub mod Handler
pub mod Worker
mod Tests
