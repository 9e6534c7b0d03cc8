-- ===== src/Device.antt =====
-- The device: what is asked of a phone, what is taken of its answers, and the record that is kept of it.
pub mod Codes
pub mod Walker
pub mod Walk
pub mod Bus
pub mod Store
pub mod Audited
pub mod Port
