-- ===== src/Fat/Tests/Sample.antt =====
-- A disk: a boot record, a boot sector in block 1, a table in block 2, and a file of two clusters.
use mnes_hrel.Common.{ℕ, ◌%◌, ◌≡◌, refl, some, List, [], ◌∷◌, arith, ◌==◌, leb, if◌then◌else◌}
use mnes_hrel.Fat.Bytes.{IsBuffer}
use mnes_hrel.Fat.Records.{
  FatBpb, FatEbr, PartitionEntry, load_boot_record, pte_load, fat_loadbpb, fat_loadebr,
}
use mnes_hrel.Fat.Volume.{BlockDevice, FatFs}
use mnes_hrel.Fat.Volume.Device.{
  stored, from_block, Serves, ReadsBlocks, pl181_get_block_device, mmci_read_blocks-Serves,
}
use mnes_hrel.Fat.Volume.Chain.{Chain, last, link}
use mnes_hrel.Fat.Mount.{find_fat32}
use mnes_hrel.Fat.Mount.Mounted.{partition_of, IsFat32}

abbrev pub disk : ℕ → ℕ
disk i =
    if i == 0x1C2
    then 0x0C
    else if i == 0x1C6
    then 1
    else if i == 524
    then 2
    else if i == 525
    then 1
    else if i == 526
    then 1
    else if i == 528
    then 1
    else if i == 548
    then 1
    else if i == 556
    then 2
    else if i == 1032
    then 3
    else if i == 1036
    then 0xFF
    else if i == 1037
    then 0xFF
    else if i == 1038
    then 0xFF
    else if i == 1039
    then 0x0F
    else if leb 1536 i
    then i % 7
    else 0

pub disk-IsBuffer : IsBuffer disk
unfolding IsBuffer
disk-IsBuffer i = ground arith

abbrev pub read_block : (ℕ → ℕ) → ℕ → ℕ → ℕ × (ℕ → ℕ)
read_block b i lba = (512, stored b i 512 (from_block disk lba))

pub read_block-ReadsBlocks : ReadsBlocks read_block disk
read_block-ReadsBlocks b i lba small = refl

abbrev pub device : BlockDevice
device = pl181_get_block_device read_block

pub device-Serves : Serves device disk
device-Serves = mmci_read_blocks-Serves read_block-ReadsBlocks

abbrev pub partition : PartitionEntry
partition = record {
  parition_addr = 0;
  last_part_addr = 0;
  lba = 1;
  sector_cnt = 0;
  partition_type = 0x0C;
}

pub partition_found : partition_of disk ≡ some partition
unfolding find_fat32 load_boot_record pte_load
partition_found = refl

pub partition-IsFat32 : IsFat32 disk partition
unfolding fat_loadbpb fat_loadebr
partition-IsFat32 = record {
  block_bytes = refl;
  table_bytes = omega arith;
  table_end = omega arith;
}

abbrev bpb : FatBpb
bpb = record {
  bytes_per_sector = 512;
  sectors_per_cluster = 1;
  reserved_sectors = 1;
  fat_cnt = 1;
  num_dirent = 0;
  tot_sectors = 0;
  sectors_per_fat = 0;
  num_sectors_per_track = 0;
  num_hidden_sectors = 0;
  large_sector_count = 0;
}

abbrev ebr : FatEbr
ebr = record {
  sectors_per_fat = 1;
  flags = 0;
  version_num = 0;
  cluster_root_num = 2;
  sect_num_fs_info = 0;
  sec_num_bkbs = 0;
  sig = 0;
  label = [];
  boot_sig = 0;
}

-- Cluster 2 leads to 3, cluster 3 is the last, and cluster 4 leads to itself.
abbrev pub volume : FatFs
volume = record {
  fattlb = λ i. if i == 2 then 3 else if i == 3 then 0x0FFFFFFF else 4;
  fat_entries = 128;
  dev = device;
  bpb = bpb;
  ebr = ebr;
  firstdatalba = 3;
  clustersize = 512;
}

abbrev pub clusters : List ℕ
clusters = 2 ∷ 3 ∷ []

pub clusters-Chain : Chain volume 2 clusters
clusters-Chain = link (omega arith) refl (last (omega arith) refl)
