-- ===== src/Audit.antt =====
-- foundation/audit: what is recorded of the use of a device.
pub mod Anchor
pub mod Record
pub mod Lines
pub mod Log
pub mod Tail
pub mod Open
