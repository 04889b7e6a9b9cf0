-- ===== src/Fat/Tests/Dirs.antt =====
-- A root directory with a folder and the file of the sample disk, and the theorems at it.
use mnes_hrel.Common.{
  ℕ, zero, suc, ◌+◌, ◌-◌, ◌*◌, ◌<◌, ◌≡◌, refl, ap, ◌∙◌, true, false, some, [], ◌∷◌, arith, ◌==◌,
  leb, ltb, if◌then◌else◌, Text, strcmp, inl, inr, returned, Ends,
}
use mnes_hrel.Fat.Volume.{BlockDevice, FatFs, fat_clustertolba}
use mnes_hrel.Fat.Volume.Device.{
  stored, from_block, Serves, pl181_get_block_device, mmci_read_blocks-Serves,
}
use mnes_hrel.Fat.Volume.Chain.{last, link}
use mnes_hrel.Fat.Volume.Data.{IsSound, FromTwo, Filled}
use mnes_hrel.Fat.Dir.{
  Dirent, HeapBlock, FatDir, is_long, dirent_of, short_name, fat_getdirent, next_entry, fat_readdir,
}
use mnes_hrel.Fat.Dir.Path.{fat_getfilename, cluster_at, c_text, fat_fopen}
use mnes_hrel.Fat.Dir.Reading.{InOrder}
use mnes_hrel.Fat.Dir.Listing.{readdirs, readdirs-end}
use mnes_hrel.Fat.Dir.Search.{Listed}
use mnes_hrel.Fat.Dir.Opening.{InRoot, Opens, fat_fopen-Opens}
use mnes_hrel.Fat.Tests.Sample.{disk, volume}

-- The bytes of cluster 5: the folder "A", and the file "ROM" in cluster 2.
abbrev pub root_bytes : ℕ → ℕ
root_bytes i =
    if i == 0
    then b'A'
    else if i == 11
    then 0x10
    else if i == 32
    then b'R'
    else if i == 33
    then b'O'
    else if i == 34
    then b'M'
    else if i == 43
    then 0x20
    else if i == 58
    then 2
    else if i == 60
    then 88
    else 0

abbrev disk_with_root : ℕ → ℕ
disk_with_root i = if leb 3072 i then root_bytes (i - 3072) else disk i

abbrev root_device : BlockDevice
root_device =
    pl181_get_block_device (λ b i lba. (512, stored b i 512 (from_block disk_with_root lba)))

root_device-Serves : Serves root_device disk_with_root
root_device-Serves = mmci_read_blocks-Serves (λ b i lba small. refl)

abbrev root_volume : FatFs
root_volume = record volume {
  dev = root_device;
  fattlb = λ i. if i == 5 then 0x0FFFFFFF else volume.fattlb i;
  ebr = record volume.ebr { cluster_root_num = 5 };
}

root_volume-IsSound : IsSound root_volume
root_volume-IsSound = record { cluster_bytes = refl; table = omega arith; last_block = omega arith }

abbrev pub rom_name : Text
rom_name = b'R' ∷ b'O' ∷ b'M' ∷ []

far : (i j : ℕ) → i ≡ 3072 + j → disk_with_root i ≡ root_bytes j
far i j e =
    let index : i - 3072 ≡ j = omega (arith, e) in
    let past : leb 3072 i ≡ true = ground (arith, e) in rw past (ap root_bytes index)

root_filled :
    (b : ℕ → ℕ)
    → Filled root_volume disk_with_root (5 ∷ []) 0 b
    → (j : ℕ) → j < 512
    → b j ≡ root_bytes j
unfolding fat_clustertolba
root_filled b filled j h =
    let index : j ≡ 0 + 512 * 0 + j = omega arith in
    ap b index ∙ filled 0 5 j refl h ∙ far (3072 + j) j refl

pub one_cluster : FromTwo (5 ∷ [])
one_cluster zero d e = ground (arith, e)
one_cluster (suc k) d e = absurd (ground (arith, e))

pub file_clusters : FromTwo (2 ∷ 3 ∷ [])
file_clusters zero d e = ground (arith, e)
file_clusters (suc zero) d e = ground (arith, e)
file_clusters (suc (suc k)) d e = absurd (ground (arith, e))

module _ (b : ℕ → ℕ) (same : (j : ℕ) → j < 512 → b j ≡ root_bytes j) where
  at : (j : ℕ) → ltb j 512 ≡ true → b j ≡ root_bytes j
  at j h = same j (ground (arith, h))

  pub listed : Listed b rom_name 0 1
  unfolding c_text strcmp
  listed = record {
    before = λ j below.
        inl (let e : j ≡ 0 = omega arith in ap (λ (i : ℕ). b (0 + 32 * i + 11)) e ∙ at 11 refl);
    other = λ j below.
        inr (let e : j ≡ 0 = omega arith in ap (λ (i : ℕ). b (0 + 32 * i + 11)) e ∙ at 11 refl);
    file = at 43 refl;
    name = rw (at 32 refl, at 33 refl, at 34 refl, at 35 refl) refl;
  }

  pub named : cluster_at b (32 * 1) ≡ 2
  named = rw (at 52 refl, at 53 refl, at 58 refl, at 59 refl) refl

rom-InRoot : InRoot root_volume disk_with_root (5 ∷ []) rom_name 1 2 (2 ∷ 3 ∷ [])
rom-InRoot = record {
  root = last (omega arith) refl;
  root_two = one_cluster;
  chain = link (omega arith) refl (last (omega arith) refl);
  two = file_clusters;
  room = omega arith;
  root_small = omega arith;
  small = omega arith;
  listed = λ b filled. (listed b (root_filled b filled), named b (root_filled b filled));
}

abbrev pub no_entry : Dirent
no_entry = record { d_type = 0; d_name = λ _. 0 }

pub rom_name_lem : fat_getfilename rom_name ≡ some rom_name
unfolding fat_getfilename
rom_name_lem = refl

fat_fopen-Opens_example :
    Opens root_volume disk_with_root 2
      (2 ∷ 3 ∷ [])
      (fat_fopen 4 (λ _. 0) no_entry (some rom_name) (some root_volume) no_entry)
fat_fopen-Opens_example =
    fat_fopen-Opens root_volume-IsSound root_device-Serves rom-InRoot 4 (λ _. 0) no_entry no_entry
      rom_name_lem refl (omega arith) (omega arith)

-- The root directory in memory, at its start.
abbrev buffer : HeapBlock
buffer = record { bytes = root_bytes; size = 512 }

abbrev root_dir : FatDir
root_dir = record { data_block = some buffer; readptr = 0; size = 512 }

root_dir-InOrder : InOrder buffer root_dir
root_dir-InOrder = record {
  block = refl;
  fits = omega arith;
  whole = refl;
  at_entry = refl;
  inside = omega arith;
  last = λ at e. let place : at ≡ 480 = omega (arith, e) in ap (is_long root_bytes) place;
}

readdirs-end_example :
    Ends (λ r. fat_readdir r.0 r.1 ≡ returned (false, r.0, r.1)) (readdirs 16 root_dir no_entry)
readdirs-end_example = readdirs-end 16 buffer root_dir no_entry root_dir-InOrder (omega arith)

-- The entry "A" was read.
one_read :
    readdirs 1 root_dir no_entry
    ≡ returned
        (record root_dir { readptr = 32 }, dirent_of 0x10 (short_name root_bytes 0 no_entry.d_name))
unfolding readdirs fat_readdir next_entry fat_getdirent
one_read = refl
