-- ===== src/Nes/Laws.antt =====
-- What single operations compute on a ready machine.
pub mod Fetch
pub mod Loads
pub mod Arith
pub mod Address
pub mod Reset
