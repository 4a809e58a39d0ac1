-- ===== src/Mirror.antt =====
-- internal/mirror: the encrypted browser terminal.
pub mod Protocol
pub mod Cipher
pub mod Maps
pub mod Manager
pub mod Client
pub mod Url
pub mod Pairing
pub mod Tunnel
pub mod Viewer
pub mod Server
