-- ===== src/Mirror/Viewer.antt =====
-- internal/mirror/viewer.go: the geometry that a viewer is given and must show, and the pins that hold
-- the size of a mirrored window. What tmux answers is an argument; the terminal and the processes
-- are not modelled.
pub mod Geometry
pub mod Verify
pub mod Pins
mod Tests
