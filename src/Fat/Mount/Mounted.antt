-- ===== src/Fat/Mount/Mounted.antt =====
-- The volume that `init_fatfs` mounts, in terms of the bytes of the disk.
use mnes_hrel.Common.{
  ℕ, ◌+◌, ◌-◌, ◌*◌, ◌<◌, ◌≡◌, refl, ap, ◌∙◌, Option, none, some, arith, ◌==◌, if◌then◌else◌, u32,
}
use mnes_hrel.Fat.Bytes.{le, IsBuffer, word32-le}
use mnes_hrel.Fat.Records.{
  PartitionEntry, FatBpb, FatEbr, MasterBootRecord, load_boot_record, fat_loadbpb, fat_loadebr,
}
use mnes_hrel.Fat.Records.Layout.{loaders-sector}
use mnes_hrel.Fat.Volume.{Outcome, returned, fault, BlockDevice, FatFs}
use mnes_hrel.Fat.Volume.Device.{stored, from_block, Serves, ReadsBlocks}
use mnes_hrel.Fat.Mount.{find_fat32, table_entry, fill_volume, read_table, load_volume, init_fatfs}

-- The first FAT32 partition of a disk.
abbrev pub partition_of : (ℕ → ℕ) → Option PartitionEntry
partition_of disk = find_fat32 (load_boot_record (from_block disk 0)).tlb_entries

stored_sector : (b src : ℕ → ℕ) (i : ℕ) → i < 512 → stored b 0 512 src i ≡ src i
stored_sector b src i h = ground arith

module _ (device : BlockDevice) (disk : ℕ → ℕ) (fresh : ℕ → ℕ → ℕ)
    (blocks : ReadsBlocks device.read disk) where
  init_fatfs_lem : init_fatfs device fresh ≡ load_volume device fresh (partition_of disk)
  unfolding init_fatfs
  init_fatfs_lem =
      ap
        (λ (g : ℕ × (ℕ → ℕ)).
          if g.0 == 512
          then load_volume device fresh (find_fat32 (load_boot_record g.1).tlb_entries)
          else returned none)
        (blocks (fresh 0) 0 0 (omega arith))
      ∙ ap (λ (r : MasterBootRecord). load_volume device fresh (find_fat32 r.tlb_entries))
          ((loaders-sector (stored (fresh 0) 0 512 (from_block disk 0)) (from_block disk 0)
            (stored_sector (fresh 0) (from_block disk 0))).0)

  -- A disk without a FAT32 partition: the driver goes on with the NULL entry and faults.
  pub init_fatfs-fault : partition_of disk ≡ none → init_fatfs device fresh ≡ fault
  unfolding load_volume
  init_fatfs-fault nothing = init_fatfs_lem ∙ ap (load_volume device fresh) nothing

-- The boot sector of a partition.
abbrev boot_bpb : (ℕ → ℕ) → PartitionEntry → FatBpb
boot_bpb disk e = fat_loadbpb (from_block disk e.lba)

abbrev boot_ebr : (ℕ → ℕ) → PartitionEntry → FatEbr
boot_ebr disk e = fat_loadebr (from_block disk e.lba)

-- The first block of the file allocation table.
abbrev pub fat_block : (ℕ → ℕ) → PartitionEntry → ℕ
fat_block disk e = e.lba + (boot_bpb disk e).reserved_sectors

-- A partition with blocks of 512 bytes, whose table lies within the 32-bit block addresses.
pub record IsFat32 (disk : ℕ → ℕ) (e : PartitionEntry) : Type 0 where
  pub block_bytes : (boot_bpb disk e).bytes_per_sector ≡ 512
  pub table_bytes : 512 * (boot_ebr disk e).sectors_per_fat < 4294967296
  pub table_end : fat_block disk e + (boot_ebr disk e).sectors_per_fat < 4294967296

-- The volume `fs` is the one that partition `e` of the disk holds.
pub record Holds (disk : ℕ → ℕ) (e : PartitionEntry) (fs : FatFs) : Type 0 where
  pub bpb : fs.bpb ≡ fat_loadbpb (from_block disk e.lba)
  pub ebr : fs.ebr ≡ fat_loadebr (from_block disk e.lba)
  pub clustersize : fs.clustersize ≡ 512 * fs.bpb.sectors_per_cluster
  pub entries : fs.fat_entries ≡ 128 * fs.ebr.sectors_per_fat
  pub firstdatalba :
      fs.firstdatalba ≡ u32 (fat_block disk e + u32 (fs.ebr.sectors_per_fat * fs.bpb.fat_cnt))
  pub table :
      (i : ℕ) → i < fs.fat_entries → fs.fattlb i ≡ le 4 disk (fat_block disk e * 512 + 4 * i)

module _ (b disk : ℕ → ℕ) (lba n i : ℕ) (bytes : IsBuffer disk) where
  table_entry-le :
      4 * i + 3 < n
      → table_entry (stored b 0 n (from_block disk lba)) i ≡ le 4 disk (lba * 512 + 4 * i)
  table_entry-le h =
      let at : ℕ = lba * 512 + 4 * i in
      ground (
        arith,
        word32-le disk bytes at,
        ap disk (one_more 1),
        ap disk (one_more 2),
        ap disk (one_more 3),
      )
    where
      one_more : (k : ℕ) → lba * 512 + (4 * i + k - 0) ≡ lba * 512 + 4 * i + k
      one_more k = omega arith

module _ (device : BlockDevice) (disk : ℕ → ℕ) (e : PartitionEntry) (fresh : ℕ → ℕ → ℕ)
    (bytes : IsBuffer disk) (blocks : ReadsBlocks device.read disk) (serves : Serves device disk)
    (fat : IsFat32 disk e) (small : e.lba < 4294967296) where
  abbrev volume : FatFs
  volume = record {
    fattlb = table_entry (
        stored (fresh 2) 0 (512 * (boot_ebr disk e).sectors_per_fat)
          (from_block disk (fat_block disk e)));
    fat_entries = 128 * (boot_ebr disk e).sectors_per_fat;
    dev = device;
    bpb = boot_bpb disk e;
    ebr = boot_ebr disk e;
    firstdatalba =
        u32
          (fat_block disk e + u32 ((boot_ebr disk e).sectors_per_fat * (boot_bpb disk e).fat_cnt));
    clustersize = 512 * (boot_bpb disk e).sectors_per_cluster;
  }

  fill_volume_lem :
      fill_volume device
        (boot_bpb disk e)
        (boot_ebr disk e)
        (u32 ((boot_bpb disk e).bytes_per_sector * (boot_ebr disk e).sectors_per_fat))
        (fat_block disk e)
        (stored
          (fresh 2)
          0
          (512 * (boot_ebr disk e).sectors_per_fat)
          (from_block disk (fat_block disk e)))
      ≡ returned (some volume)
  unfolding fill_volume
  fill_volume_lem = rw fat.block_bytes (ground (arith, fat.table_bytes))

  read_table_lem :
      read_table device fresh e (boot_bpb disk e) (boot_ebr disk e) ≡ returned (some volume)
  unfolding read_table
  read_table_lem =
      let bpb : FatBpb = boot_bpb disk e in
      let ebr : FatEbr = boot_ebr disk e in
      let size : ℕ = u32 (bpb.bytes_per_sector * ebr.sectors_per_fat) in
      let short : u32 (e.lba + bpb.reserved_sectors) ≡ fat_block disk e =
        omega (arith, fat.table_end) in
      ap
        (λ (lba : ℕ).
          fill_volume device bpb ebr size lba
            (device.readblocks (fresh 2) 0 lba ebr.sectors_per_fat).1)
        short
      ∙ ap (λ (g : ℕ × (ℕ → ℕ)). fill_volume device bpb ebr size (fat_block disk e) g.1)
          (serves.reads (fresh 2) 0 (fat_block disk e) ebr.sectors_per_fat fat.table_end
            fat.table_bytes)
      ∙ fill_volume_lem

  load_volume_lem : load_volume device fresh (some e) ≡ returned (some volume)
  unfolding load_volume
  load_volume_lem =
      let src : ℕ → ℕ = from_block disk e.lba in
      let same : (i : ℕ) → i < 512 → stored (fresh 1) 0 512 src i ≡ src i =
        stored_sector (fresh 1) src in
      let loads : (load_boot_record (stored (fresh 1) 0 512 src) ≡ load_boot_record src)
          × (fat_loadbpb (stored (fresh 1) 0 512 src) ≡ fat_loadbpb src)
          × (fat_loadebr (stored (fresh 1) 0 512 src) ≡ fat_loadebr src) =
        loaders-sector _ _ same in
      ap (λ (g : ℕ × (ℕ → ℕ)). read_table device fresh e (fat_loadbpb g.1) (fat_loadebr g.1))
        (blocks (fresh 1) 0 e.lba small)
      ∙ ap
          (λ (bpb : FatBpb).
            read_table device fresh e bpb (fat_loadebr (stored (fresh 1) 0 512 src)))
          loads.1
      ∙ ap (λ (ebr : FatEbr). read_table device fresh e (fat_loadbpb src) ebr) loads.2
      ∙ read_table_lem

  volume-Holds : Holds disk e volume
  volume-Holds = record {
    bpb = refl;
    ebr = refl;
    clustersize = refl;
    entries = refl;
    firstdatalba = refl;
    table = λ i h. table_entry-le (fresh 2) disk (fat_block disk e) _ i bytes (omega arith);
  }

-- What `init_fatfs` comes back with.
pub record Mounts (device : BlockDevice) (disk : ℕ → ℕ) (e : PartitionEntry)
    (o : Outcome (Option FatFs)) : Type 0 where
  pub fs : FatFs
  pub over : fs.dev ≡ device
  pub comes_back : o ≡ returned (some fs)
  pub holds : Holds disk e fs

-- On a device that reads the blocks of a disk, whose first FAT32 partition has blocks of 512 bytes
-- and a table within the 32-bit block addresses, `init_fatfs` comes back with the volume of that
-- partition on that device: its parameters are those of the boot sector, and its table is the one on
-- the disk.
pub init_fatfs-Mounts :
    (device : BlockDevice) (disk : ℕ → ℕ) (e : PartitionEntry) (fresh : ℕ → ℕ → ℕ)
    → IsBuffer disk
    → ReadsBlocks device.read disk
    → Serves device disk
    → partition_of disk ≡ some e
    → IsFat32 disk e
    → Mounts device disk e (init_fatfs device fresh)
init_fatfs-Mounts device disk e fresh bytes blocks serves found fat =
    let small : e.lba < 4294967296 = omega (arith, fat.table_end) in
    record {
      fs = volume device disk e fresh bytes blocks serves fat small;
      over = refl;
      comes_back =
          init_fatfs_lem device disk fresh blocks
          ∙ ap (load_volume device fresh) found
          ∙ load_volume_lem device disk e fresh bytes blocks serves fat small;
      holds = volume-Holds device disk e fresh bytes blocks serves fat small;
    }
