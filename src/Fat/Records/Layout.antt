-- ===== src/Fat/Records/Layout.antt =====
-- Where the loaders find each field: little-endian numbers at fixed offsets of one sector.
use mnes_hrel.Common.{
  ℕ, zero, suc, ◌+◌, ◌*◌, ◌<◌, ◌≡◌, refl, ap, some, arith, ltb, if◌then◌else◌, get_elem?,
}
use mnes_hrel.Fat.Bytes.{le, IsBuffer, word16-le, word24-le, word32-le}
use mnes_hrel.Fat.Records.{
  PartitionEntry, FatBpb, FatEbr, pte_load, load_boot_record, fat_loadbpb, copy_label, fat_loadebr,
}

-- The partition entry that stands at offset `p`.
abbrev pub entry_at : (ℕ → ℕ) → ℕ → PartitionEntry
entry_at b p = record {
  parition_addr = le 3 b (p + 1);
  partition_type = b (p + 4);
  last_part_addr = le 3 b (p + 5);
  lba = le 4 b (p + 8);
  sector_cnt = le 4 b (p + 12);
}

-- The BIOS parameter block of a sector, with a byte of the field before it in the last two fields.
abbrev pub bpb_of : (ℕ → ℕ) → FatBpb
bpb_of b = record {
  bytes_per_sector = le 2 b 11;
  sectors_per_cluster = b 13;
  reserved_sectors = le 2 b 14;
  fat_cnt = b 16;
  num_dirent = le 2 b 17;
  tot_sectors = le 2 b 19;
  sectors_per_fat = le 2 b 22;
  num_sectors_per_track = le 2 b 24;
  num_hidden_sectors = b 27 + 256 * le 3 b 28;
  large_sector_count = b 31 + 256 * le 3 b 32;
}

-- The extended boot record of a sector.
abbrev pub ebr_of : (ℕ → ℕ) → FatEbr
unfolding copy_label
ebr_of b = record {
  sectors_per_fat = le 4 b 36;
  flags = le 2 b 40;
  version_num = le 2 b 42;
  cluster_root_num = le 4 b 44;
  sect_num_fs_info = le 2 b 48;
  sec_num_bkbs = le 2 b 50;
  sig = b 66;
  label = copy_label 11 b 71;
  boot_sig = le 2 b 510;
}

module _ (b : ℕ → ℕ) (bytes : IsBuffer b) where
  pte_load_lem : (p : ℕ) → pte_load b p ≡ entry_at b p
  unfolding pte_load
  pte_load_lem p =
      rw
        (
          word24-le b bytes (p + 1),
          word24-le b bytes (p + 5),
          word32-le b bytes (p + 8),
          word32-le b bytes (p + 12),
        )
        refl

  -- In a buffer of bytes the boot record holds the four partition entries at 0x1BE, 16 bytes each,
  -- with the addresses of three bytes and the counts of four read as little-endian numbers.
  pub load_boot_record-entry_at :
      (k : ℕ)
      → k < 4
      → get_elem? (load_boot_record b).tlb_entries k ≡ some (entry_at b (0x1BE + 16 * k))
  unfolding load_boot_record
  load_boot_record-entry_at zero h = ap some (pte_load_lem 0x1BE)
  load_boot_record-entry_at (suc zero) h = ap some (pte_load_lem (0x1BE + 16))
  load_boot_record-entry_at (suc (suc zero)) h = ap some (pte_load_lem (0x1BE + 32))
  load_boot_record-entry_at (suc (suc (suc zero))) h = ap some (pte_load_lem (0x1BE + 48))
  load_boot_record-entry_at (suc (suc (suc (suc k)))) h = absurd (omega arith)

  -- The boot sector, a buffer of bytes, gives the fields of the parameter block and of the
  -- extended boot record at their offsets of the FAT32 format; only the hidden and the large
  -- sector count are read from one byte before their place, so that they are a byte of the field
  -- before plus 256 times the low three bytes of the count.
  pub boot_sector-fields : (fat_loadbpb b ≡ bpb_of b) × (fat_loadebr b ≡ ebr_of b)
  unfolding fat_loadbpb fat_loadebr le
  boot_sector-fields = (
    λ t. record {
      bytes_per_sector = word16-le b bytes 11 t;
      sectors_per_cluster = b 13;
      reserved_sectors = word16-le b bytes 14 t;
      fat_cnt = b 16;
      num_dirent = word16-le b bytes 17 t;
      tot_sectors = word16-le b bytes 19 t;
      sectors_per_fat = word16-le b bytes 22 t;
      num_sectors_per_track = word16-le b bytes 24 t;
      num_hidden_sectors = word32-le b bytes 27 t;
      large_sector_count = word32-le b bytes 31 t;
    },
    λ t. record {
      sectors_per_fat = word32-le b bytes 36 t;
      flags = word16-le b bytes 40 t;
      version_num = word16-le b bytes 42 t;
      cluster_root_num = word32-le b bytes 44 t;
      sect_num_fs_info = word16-le b bytes 48 t;
      sec_num_bkbs = word16-le b bytes 50 t;
      sig = b 66;
      label = copy_label 11 b 71;
      boot_sig = word16-le b bytes 510 t;
    },
  )

-- What the loaders keep of a buffer.
abbrev sector : (ℕ → ℕ) → ℕ → ℕ
sector b i = if ltb i 512 then b i else 0

sector_eq : (b b' : ℕ → ℕ) → ((i : ℕ) → i < 512 → b i ≡ b' i) → (i : ℕ) → sector b i ≡ sector b' i
sector_eq b b' same i = ground (arith, same i)

-- The loaders read one sector: buffers with the same first 512 bytes give the same boot record,
-- parameter block and extended boot record.
pub loaders-sector :
    (b b' : ℕ → ℕ)
    → ((i : ℕ) → i < 512 → b i ≡ b' i)
    → (load_boot_record b ≡ load_boot_record b')
      × (fat_loadbpb b ≡ fat_loadbpb b')
      × (fat_loadebr b ≡ fat_loadebr b')
unfolding load_boot_record fat_loadbpb fat_loadebr
loaders-sector b b' same =
    let e : sector b ≡ sector b' = λ t i. sector_eq b b' same i t in
    (ap load_boot_record e, ap fat_loadbpb e, ap fat_loadebr e)
