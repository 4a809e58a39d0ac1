-- ===== src/Tmux.antt =====
-- internal/tmux/tmux.go: the command lines that are given to tmux and what is read of its output. tmux
-- itself is not modelled.
pub mod Ids
pub mod Quote
pub mod Format
pub mod Server
pub mod Guard
pub mod Sessions
pub mod Listing
pub mod Creation
pub mod Windows
pub mod Pin
mod Tests
pub mod Queries
