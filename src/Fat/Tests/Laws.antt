-- ===== src/Fat/Tests/Laws.antt =====
-- The theorems on the FAT32 driver at the sample disk.
use mnes_hrel.Common.{ℕ, zero, suc, ◌<◌, ◌≡◌, refl, some, true, ◌++◌, arith, ltb, if◌then◌else◌}
use mnes_hrel.Fat.Records.{fat_loadbpb, fat_loadebr}
use mnes_hrel.Fat.Records.Layout.{bpb_of, ebr_of, boot_sector-fields}
use mnes_hrel.Fat.Volume.{returned, fat_getdata}
use mnes_hrel.Fat.Volume.Chain.{IsCycle}
use mnes_hrel.Fat.Volume.Data.{IsSound, FromTwo, Brings, fat_getdata-Brings}
use mnes_hrel.Fat.Volume.File.{
  FatFile, IsOpen, copied, advanced, fat_fread, fat_fread-taken, fat_fread-fat_fread,
}
use mnes_hrel.Fat.Mount.{init_fatfs}
use mnes_hrel.Fat.Mount.Mounted.{Mounts, init_fatfs-Mounts}
use mnes_hrel.Fat.Tests.Sample.{
  disk, disk-IsBuffer, read_block-ReadsBlocks, device, device-Serves, partition, partition_found,
  partition-IsFat32, volume, clusters, clusters-Chain,
}

boot_sector-fields_example : (fat_loadbpb disk ≡ bpb_of disk) × (fat_loadebr disk ≡ ebr_of disk)
boot_sector-fields_example = boot_sector-fields disk disk-IsBuffer

-- The sample disk with another second block.
abbrev other : ℕ → ℕ
other i = if ltb i 512 then disk i else 99

same_sector : (i : ℕ) → i < 512 → disk i ≡ other i
same_sector i h = let test : ltb i 512 ≡ true = ground arith in rw test refl

self_loop : IsCycle volume (λ c. c ≡ 4)
self_loop = record {
  inside = λ c h. omega arith;
  goes_on = λ c h. rw h refl;
  closed = λ c h. rw h refl;
}

volume-IsSound : IsSound volume
volume-IsSound = record { cluster_bytes = refl; table = omega arith; last_block = omega arith }

clusters-FromTwo : FromTwo clusters
clusters-FromTwo zero d e = ground (arith, e)
clusters-FromTwo (suc zero) d e = ground (arith, e)
clusters-FromTwo (suc (suc k)) d e = absurd (ground (arith, e))

fat_getdata-Brings_example : Brings volume disk clusters (fat_getdata 5 (λ i. 0) 2 volume)
fat_getdata-Brings_example =
    fat_getdata-Brings 5 (λ i. 0) volume-IsSound device-Serves clusters-Chain clusters-FromTwo
      (omega arith) (omega arith)

init_fatfs-Mounts_example : Mounts device disk partition (init_fatfs device (λ k i. 0))
init_fatfs-Mounts_example =
    init_fatfs-Mounts device disk partition (λ k i. 0) disk-IsBuffer read_block-ReadsBlocks
      device-Serves partition_found partition-IsFat32

-- An open file of 8 bytes, behind its third byte.
abbrev file : FatFile
file = record { data_bytes = λ i. i; dataptr = 3; buffersize = 8; filesize = 6; basecluster = 2 }

file-IsOpen : IsOpen file
file-IsOpen = record { inside = omega arith; small = omega arith }

fat_fread-taken_example :
    fat_fread true 100 (some file) true ≡ returned (5, copied (λ i. i) 3 5, some (advanced 5 file))
fat_fread-taken_example = fat_fread-taken 100 file file-IsOpen (omega arith)

fat_fread-fat_fread_example :
    (fat_fread true 2 (some file) true ≡ returned (2, copied (λ i. i) 3 2, some (advanced 2 file)))
    × (fat_fread true 3 (some (advanced 2 file)) true
        ≡ returned (3, copied (λ i. i) 5 3, some (advanced 5 file)))
    × (fat_fread true 5 (some file) true
        ≡ returned (5, copied (λ i. i) 3 2 ++ copied (λ i. i) 5 3, some (advanced 5 file)))
fat_fread-fat_fread_example =
    fat_fread-fat_fread 2 3 file file-IsOpen (omega arith) (omega arith) (omega arith)
