-- ===== src/Nes/Safety.antt =====
-- What a machine in order is, and that every function of the emulator keeps it, and where it faults.
pub mod Ready
pub mod Bus
pub mod Modes
pub mod Ops
pub mod Clock
pub mod Progress
