-- ===== src/Storage/Disk.antt =====
-- A disk that boots: its root directory is in cluster 5, with the folder "A", in which is the file "ROM".
use mnes_hrel.Common.{
  ℕ, ◌+◌, ◌-◌, ◌*◌, ◌<◌, ◌≡◌, refl, ap, ◌∙◌, sym, subst, some, [], ◌∷◌, arith, ◌==◌, leb, ltb, ◌||◌,
  ◌≤◌, zero, suc, true, strcmp, Text, if◌then◌else◌,
}
use mnes_hrel.Fat.Bytes.{IsBuffer, le}
use mnes_hrel.Fat.Records.{load_boot_record, pte_load, fat_loadbpb, fat_loadebr}
use mnes_hrel.Fat.Volume.{BlockDevice, FatFs, fat_clustertolba}
use mnes_hrel.Fat.Volume.Device.{
  stored, from_block, Serves, ReadsBlocks, pl181_get_block_device, mmci_read_blocks-Serves,
}
use mnes_hrel.Fat.Volume.Chain.{Chain, last, link}
use mnes_hrel.Fat.Volume.Data.{IsSound, FromTwo, Filled}
use mnes_hrel.Fat.Mount.{find_fat32}
use mnes_hrel.Fat.Mount.Mounted.{partition_of, IsFat32, Holds}
use mnes_hrel.Fat.Tests.Sample.{disk, partition}
use mnes_hrel.Fat.Dir.Search.{Listed}
use mnes_hrel.Fat.Dir.Descent.{FolderAt}
use mnes_hrel.Fat.Dir.Below.{InFolder, IsPath, below}
use mnes_hrel.Fat.Dir.Path.{fat_getfilename, strtok, prefix, cluster_at, c_text}
use mnes_hrel.Fat.Tests.Dirs.{rom_name, file_clusters}
use mnes_hrel.Storage.Boot.{HasFile}

-- The bytes of cluster 5: the folder "A" in cluster 6.
abbrev top_bytes : ℕ → ℕ
top_bytes i = if i == 0 then b'A' else if i == 11 then 0x10 else if i == 26 then 6 else 0

-- The bytes of cluster 6: the file "ROM" in cluster 2.
abbrev folder_bytes : ℕ → ℕ
folder_bytes i =
    if i == 0
    then b'R'
    else if i == 1
    then b'O'
    else if i == 2
    then b'M'
    else if i == 11
    then 0x20
    else if i == 26
    then 2
    else 0

-- The sample disk with both, and their end marks in the table.
abbrev pub boot_disk : ℕ → ℕ
boot_disk i =
    if i == 556
    then 5
    else if i == 1044 || i == 1045 || i == 1046 || i == 1048 || i == 1049 || i == 1050
    then 0xFF
    else if i == 1047 || i == 1051
    then 0x0F
    else if leb 3584 i
    then folder_bytes (i - 3584)
    else if leb 3072 i
    then top_bytes (i - 3072)
    else disk i

one_cluster : (c : ℕ) → 2 ≤ c → FromTwo (c ∷ [])
one_cluster c low zero d e = ground (arith, e, low)
one_cluster c low (suc k) d e = absurd (ground (arith, e))

pub boot_disk-IsBuffer : IsBuffer boot_disk
unfolding IsBuffer
boot_disk-IsBuffer i = ground arith

abbrev pub boot_read : (ℕ → ℕ) → ℕ → ℕ → ℕ × (ℕ → ℕ)
boot_read b i lba = (512, stored b i 512 (from_block boot_disk lba))

abbrev pub boot_device : BlockDevice
boot_device = pl181_get_block_device boot_read

pub boot_read-ReadsBlocks : ReadsBlocks boot_read boot_disk
boot_read-ReadsBlocks b i lba small = refl

pub boot_device-Serves : Serves boot_device boot_disk
boot_device-Serves = mmci_read_blocks-Serves boot_read-ReadsBlocks

pub boot_partition : partition_of boot_disk ≡ some partition
unfolding find_fat32 load_boot_record pte_load
boot_partition = refl

pub boot_IsFat32 : IsFat32 boot_disk partition
unfolding fat_loadbpb fat_loadebr
boot_IsFat32 = record { block_bytes = refl; table_bytes = omega arith; table_end = omega arith }

top_at : (j : ℕ) → j < 512 → boot_disk (6 * 512 + j) ≡ top_bytes j
top_at j small =
    let index : 6 * 512 + j - 3072 ≡ j = omega arith in ground (arith, small, ap top_bytes index)

folder_at : (j : ℕ) → boot_disk (7 * 512 + j) ≡ folder_bytes j
folder_at j =
    let index : 7 * 512 + j - 3584 ≡ j = omega arith in ground (arith, ap folder_bytes index)

-- Buffers with the one or the other.
module _ (b : ℕ → ℕ) where
  folder_entry :
      ((j : ℕ) → j < 512 → b j ≡ top_bytes j)
      → FolderAt b (b'A' ∷ []) 0 0 × (cluster_at b (32 * 0) ≡ 6)
  unfolding c_text strcmp
  folder_entry same =
      let at : (j : ℕ) → ltb j 512 ≡ true → b j ≡ top_bytes j = λ j h. same j (ground (arith, h)) in
      (
        record {
          before = λ j below. absurd (omega arith);
          other = λ j below. absurd (omega arith);
          folder = at 11 refl;
          name = rw (at 0 refl, at 1 refl) refl;
        },
        rw (at 20 refl, at 21 refl, at 26 refl, at 27 refl) refl,
      )

  file_entry :
      ((j : ℕ) → j < 512 → b j ≡ folder_bytes j)
      → Listed b rom_name 0 0 × (cluster_at b (32 * 0) ≡ 2)
  unfolding c_text strcmp
  file_entry same =
      let at : (j : ℕ) → ltb j 512 ≡ true → b j ≡ folder_bytes j =
        λ j h. same j (ground (arith, h)) in
      (
        record {
          before = λ j below. absurd (omega arith);
          other = λ j below. absurd (omega arith);
          file = at 11 refl;
          name = rw (at 0 refl, at 1 refl, at 2 refl, at 3 refl) refl;
        },
        rw (at 20 refl, at 21 refl, at 26 refl, at 27 refl) refl,
      )

-- The volumes of the partition.
module _ (fs : FatFs) (holds : Holds boot_disk partition fs) where
  per_cluster : fs.bpb.sectors_per_cluster ≡ 1
  unfolding fat_loadbpb
  per_cluster = rw holds.bpb refl

  tables : fs.bpb.fat_cnt ≡ 1
  unfolding fat_loadbpb
  tables = rw holds.bpb refl

  per_table : fs.ebr.sectors_per_fat ≡ 1
  unfolding fat_loadebr
  per_table = rw holds.ebr refl

  root_cluster : fs.ebr.cluster_root_num ≡ 5
  unfolding fat_loadebr
  root_cluster = rw holds.ebr refl

  cluster_bytes : fs.clustersize ≡ 512
  cluster_bytes = omega (arith, holds.clustersize, per_cluster)

  entries : fs.fat_entries ≡ 128
  entries = omega (arith, holds.entries, per_table)

  data_block : fs.firstdatalba ≡ 3
  unfolding fat_loadbpb
  data_block = holds.firstdatalba ∙ rw per_table (rw tables refl)

  entry : (i v : ℕ) → i < 128 → le 4 boot_disk (1024 + 4 * i) ≡ v → fs.fattlb i ≡ v
  unfolding fat_loadbpb
  entry i v small e = holds.table i (omega (arith, entries)) ∙ e

  boot_IsSound : IsSound fs
  boot_IsSound = record {
    cluster_bytes = holds.clustersize;
    table = omega (arith, entries);
    last_block = rw per_cluster (omega (arith, entries, data_block));
  }

  root-Chain : Chain fs 5 (5 ∷ [])
  unfolding le
  root-Chain = last (omega (arith, entries)) (rw (entry 5 0x0FFFFFFF (omega arith) refl) refl)

  folder-Chain : Chain fs 6 (6 ∷ [])
  unfolding le
  folder-Chain = last (omega (arith, entries)) (rw (entry 6 0x0FFFFFFF (omega arith) refl) refl)

  file-Chain : Chain fs 2 (2 ∷ 3 ∷ [])
  unfolding le
  file-Chain =
      let two = entry 2 3 (omega arith) refl in
      let three = entry 3 0x0FFFFFFF (omega arith) refl in
      link (omega (arith, entries)) (rw two refl)
        (rw two (last (omega (arith, entries)) (rw three refl)))

  -- The bytes of a directory of one cluster.
  one_filled :
      (c lba : ℕ)
      → fat_clustertolba fs c ≡ lba
      → (b : ℕ → ℕ) → Filled fs boot_disk (c ∷ []) 0 b
      → (j : ℕ) → j < 512
      → b j ≡ boot_disk (lba * 512 + j)
  one_filled c lba block b filled j small =
      let here : j ≡ 0 + fs.clustersize * 0 + j = omega arith in
      ap b here
      ∙ filled 0 c j refl (omega (arith, cluster_bytes))
      ∙ ap (λ (l : ℕ). boot_disk (l * 512 + j)) block

  block_5 : fat_clustertolba fs 5 ≡ 6
  unfolding fat_clustertolba
  block_5 = rw data_block (rw per_cluster refl)

  block_6 : fat_clustertolba fs 6 ≡ 7
  unfolding fat_clustertolba
  block_6 = rw data_block (rw per_cluster refl)

  boot_InFolder : InFolder fs boot_disk (5 ∷ []) (b'A' ∷ []) 0 6 (6 ∷ []) rom_name 0 2 (2 ∷ 3 ∷ [])
  boot_InFolder = record {
    root = subst (λ (a : ℕ). Chain fs a (5 ∷ [])) (sym root_cluster) root-Chain;
    root_two = one_cluster 5 (omega arith);
    root_room = omega (arith, cluster_bytes);
    root_small = omega (arith, cluster_bytes);
    folder = folder-Chain;
    folder_two = one_cluster 6 (omega arith);
    room = omega (arith, cluster_bytes);
    folder_small = omega (arith, cluster_bytes);
    chain = file-Chain;
    two = file_clusters;
    small = omega (arith, cluster_bytes);
    entry = λ b filled.
        folder_entry b (λ j small. one_filled 5 6 block_5 b filled j small ∙ top_at j small);
    listed =
        λ b filled. file_entry b (λ j small. one_filled 6 7 block_6 b filled j small ∙ folder_at j);
  }

abbrev pub boot_path : Text
boot_path = b'A' ∷ b'/' ∷ rom_name

boot_path-IsPath : IsPath boot_path (b'A' ∷ []) rom_name
unfolding fat_getfilename strcmp strtok prefix
boot_path-IsPath = record { last = refl; longer = refl; folder = refl; inner = refl }

pub boot_HasFile : HasFile boot_disk partition 4 512 boot_path 2 (2 ∷ 3 ∷ [])
boot_HasFile = record {
  sound = boot_IsSound;
  clusters = cluster_bytes;
  reaches = λ fs holds.
      below (boot_InFolder fs holds) boot_path-IsPath (omega arith) (omega arith) (omega arith);
}
