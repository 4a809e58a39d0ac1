-- ===== src/Control.antt =====
-- The control socket of a worker: the requests, and what the server does with one connection.
pub mod Request
pub mod Server
mod Tests
