-- ===== src/Fat/Mount.antt =====
-- `init_fatfs` of kernel/src/fat32.c: from a block device to a mounted volume.
pub mod Mounted
use mnes_hrel.Common.{
  ℕ, ◌+◌, ◌*◌, ◌/◌, Bool, ◌||◌, Option, none, some, List, [], ◌∷◌, ◌==◌, leb, if◌then◌else◌, u32,
}
use mnes_hrel.Fat.Bytes.{word32}
use mnes_hrel.Fat.Records.{
  PartitionEntry, FatBpb, FatEbr, load_boot_record, fat_loadbpb, fat_loadebr,
}
use mnes_hrel.Fat.Volume.{Outcome, returned, fault, BlockDevice, FatFs}

abbrev pub is_fat32 : PartitionEntry → Bool
is_fat32 e = e.partition_type == 0xB || e.partition_type == 0xC

-- The loop over the entries: the first FAT32 partition, or NULL.
unfoldable pub find_fat32 : List PartitionEntry → Option PartitionEntry
find_fat32 [] = none
find_fat32 (e ∷ rest) = if is_fat32 e then some e else find_fat32 rest

-- `fattlb[i]` on the little-endian processor.
abbrev pub table_entry : (ℕ → ℕ) → ℕ → ℕ
table_entry table i = word32 table (4 * i)

-- The assignments to the new `fat_fs`, once its table of `size` bytes is read at `fatlba`. The read
-- writes past the table if that is smaller than the blocks read.
unfoldable pub fill_volume :
    BlockDevice → FatBpb → FatEbr → ℕ → ℕ → (ℕ → ℕ) → Outcome (Option FatFs)
fill_volume device bpb ebr size fatlba table =
    if leb (512 * ebr.sectors_per_fat) size
    then returned (
        some (record {
          fattlb = table_entry table;
          fat_entries = size / 4;
          dev = device;
          bpb = bpb;
          ebr = ebr;
          firstdatalba = u32 (fatlba + u32 (ebr.sectors_per_fat * bpb.fat_cnt));
          clustersize = bpb.bytes_per_sector * bpb.sectors_per_cluster;
        }))
    else fault

-- The read of the file allocation table.
unfoldable pub read_table :
    BlockDevice → (ℕ → ℕ → ℕ) → PartitionEntry → FatBpb → FatEbr → Outcome (Option FatFs)
unfolding fill_volume
read_table device fresh tlbentry bpb ebr =
    let fatlba : ℕ = u32 (tlbentry.lba + bpb.reserved_sectors) in
    let (bytesread, table) = device.readblocks (fresh 2) 0 fatlba ebr.sectors_per_fat in
    fill_volume device bpb ebr (u32 (bpb.bytes_per_sector * ebr.sectors_per_fat)) fatlba table

-- The part of `init_fatfs` behind the search. `fresh k` is what the `k`-th `malloc` finds.
unfoldable pub load_volume :
    BlockDevice → (ℕ → ℕ → ℕ) → Option PartitionEntry → Outcome (Option FatFs)
unfolding read_table
load_volume device fresh none = fault
load_volume device fresh (some tlbentry) =
    let (bytesread, fat_buffer) = device.read (fresh 1) 0 tlbentry.lba in
    read_table device fresh tlbentry (fat_loadbpb fat_buffer) (fat_loadebr fat_buffer)

-- The volume that the returned driver wraps, without the function pointers around it. `none` is the
-- NULL that a device gets whose first block does not read.
unfoldable pub init_fatfs : BlockDevice → (ℕ → ℕ → ℕ) → Outcome (Option FatFs)
unfolding load_volume
init_fatfs device fresh =
    let (bytesread, readbuffer) = device.read (fresh 0) 0 0 in
    if bytesread == 512
    then load_volume device fresh (find_fat32 (load_boot_record readbuffer).tlb_entries)
    else returned none
