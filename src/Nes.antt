-- ===== src/Nes.antt =====
-- The emulated console of kernel/src/nes*.c: bus, cartridge, PPU ports and the 6502.
pub mod Machine
pub mod Bus
pub mod Registers
pub mod Instruction
pub mod AddrMode
pub mod Ops
pub mod Clock
pub mod Disassembler
pub mod Keeps
pub mod Cart
pub mod Safety
pub mod Laws
mod Tests
