-- ===== src/Wire.antt =====
-- foundation/adbwire: the sync protocol over one socket, and the host framing.
pub mod Numbers
pub mod Socket
pub mod Stat
pub mod Cost
pub mod Session
pub mod Listing
pub mod Transfer
pub mod Dead
pub mod Frames
pub mod Conn
pub mod Services
pub mod Failures
