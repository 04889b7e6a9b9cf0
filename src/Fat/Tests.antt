-- ===== src/Fat/Tests.antt =====
-- A small disk with one FAT32 partition, and the theorems at it.
pub mod Sample
pub mod Laws
pub mod Dirs
