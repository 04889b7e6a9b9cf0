-- ===== src/Fat.antt =====
-- The FAT32 driver: kernel/src/mbr.c and kernel/src/fat32.c.
pub mod Bytes
pub mod Records
pub mod Volume
pub mod Mount
pub mod Dir
pub mod Tests
