-- ===== src/Nes/Tests.antt =====
-- A small cartridge and machine, runs of them, and the theorems at them.
mod Sample
mod Runs
mod Safety
mod Laws
mod Cart
mod Display
