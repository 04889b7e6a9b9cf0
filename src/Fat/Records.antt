-- ===== src/Fat/Records.antt =====
-- The on-disk records: kernel/src/mbr.c, and `fat_loadbpb` and `fat_loadebr` of kernel/src/fat32.c.
pub mod Layout
use mnes_hrel.Common.{ℕ, zero, suc, ◌+◌, List, [], ◌∷◌}
use mnes_hrel.Fat.Bytes.{word16, word24, word32}

-- `mbr_partion_tlb_entry`.
pub record PartitionEntry : Type 0 where
  pub parition_addr : ℕ
  pub last_part_addr : ℕ
  pub lba : ℕ
  pub sector_cnt : ℕ
  pub partition_type : ℕ

-- The argument `p` is where `entryBuffer` stands in the sector.
unfoldable pub pte_load : (ℕ → ℕ) → ℕ → PartitionEntry
pte_load b p = record {
  parition_addr = word24 b (p + 1);
  partition_type = b (p + 4);
  last_part_addr = word24 b (p + 5);
  lba = word32 b (p + 8);
  sector_cnt = word32 b (p + 12);
}

-- `master_boot_record`, an array of four pointers to entries.
pub record MasterBootRecord : Type 0 where
  pub tlb_entries : List PartitionEntry

unfoldable pub load_boot_record : (ℕ → ℕ) → MasterBootRecord
unfolding pte_load
load_boot_record b = record {
  tlb_entries =
      pte_load b 0x1BE
      ∷ pte_load b (0x1BE + 16)
      ∷ pte_load b (0x1BE + 32)
      ∷ pte_load b (0x1BE + 48)
      ∷ [];
}

-- `fat_bpb`.
pub record FatBpb : Type 0 where
  pub bytes_per_sector : ℕ
  pub sectors_per_cluster : ℕ
  pub reserved_sectors : ℕ
  pub fat_cnt : ℕ
  pub num_dirent : ℕ
  pub tot_sectors : ℕ
  pub sectors_per_fat : ℕ
  pub num_sectors_per_track : ℕ
  pub num_hidden_sectors : ℕ
  pub large_sector_count : ℕ

-- After the sectors per track the read pointer moves by one byte and by two, so that the last two
-- fields are read at 27 and 31.
unfoldable pub fat_loadbpb : (ℕ → ℕ) → FatBpb
fat_loadbpb b = record {
  bytes_per_sector = word16 b 11;
  sectors_per_cluster = b 13;
  reserved_sectors = word16 b 14;
  fat_cnt = b 16;
  num_dirent = word16 b 17;
  tot_sectors = word16 b 19;
  sectors_per_fat = word16 b 22;
  num_sectors_per_track = word16 b 24;
  num_hidden_sectors = word32 b 27;
  large_sector_count = word32 b 31;
}

-- `fat_ebr`.
pub record FatEbr : Type 0 where
  pub sectors_per_fat : ℕ
  pub flags : ℕ
  pub version_num : ℕ
  pub cluster_root_num : ℕ
  pub sect_num_fs_info : ℕ
  pub sec_num_bkbs : ℕ
  pub sig : ℕ
  pub label : List ℕ
  pub boot_sig : ℕ

-- The loop that copies `n` bytes of the label from offset `i`.
unfoldable pub copy_label : ℕ → (ℕ → ℕ) → ℕ → List ℕ
copy_label zero b i = []
copy_label (suc n) b i = b i ∷ copy_label n b (i + 1)

unfoldable pub fat_loadebr : (ℕ → ℕ) → FatEbr
unfolding copy_label
fat_loadebr b = record {
  sectors_per_fat = word32 b 36;
  flags = word16 b 40;
  version_num = word16 b 42;
  cluster_root_num = word32 b 44;
  sect_num_fs_info = word16 b 48;
  sec_num_bkbs = word16 b 50;
  sig = b 66;
  label = copy_label 11 b 71;
  boot_sig = word16 b 510;
}
