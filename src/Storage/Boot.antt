-- ===== src/Storage/Boot.antt =====
-- What `kmain` of kernel/src/kmain.c has once it mounted the card: the files of the root directory and of its folders.
use mnes_hrel.Common.{
  ℕ, suc, ◌*◌, ◌≤◌, ◌≡◌, ◌≢◌, refl, ap, sym, subst, Bool, true, some, List, length, update, arith,
  Outcome, returned, and_then, Text, ◌∷◌, [],
}
use mnes_hrel.Fat.Bytes.{IsBuffer}
use mnes_hrel.Fat.Records.{PartitionEntry}
use mnes_hrel.Fat.Volume.{BlockDevice, FatFs}
use mnes_hrel.Fat.Volume.Device.{Serves, ReadsBlocks}
use mnes_hrel.Fat.Volume.Data.{IsSound}
use mnes_hrel.Fat.Mount.Mounted.{partition_of, IsFat32, Holds, init_fatfs-Mounts}
use mnes_hrel.Fat.Dir.Below.{Reaches}
use mnes_hrel.Vfs.{FsDriver, MountNode, Vfs, vfs_mount}
use mnes_hrel.Vfs.Files.{find_free, vfsfopen, vfsfread}
use mnes_hrel.Storage.{World, Heap, fat_driver, mount_device}
use mnes_hrel.Storage.Reading.{RootIs, Brought, vfsfread-Brought}

-- Every volume of partition `e` is sound, with clusters of `clustersize` bytes, and has a file at
-- `path`, with the clusters `cs` from `c` on.
pub record HasFile (disk : ℕ → ℕ) (e : PartitionEntry) (fuel clustersize : ℕ) (path : Text) (c : ℕ)
    (cs : List ℕ) : Type 0 where
  pub sound : (fs : FatFs) → Holds disk e fs → IsSound fs
  pub clusters : (fs : FatFs) → Holds disk e fs → fs.clustersize ≡ clustersize
  pub reaches : (fs : FatFs) → Holds disk e fs → Reaches fs disk fuel path c cs

-- A file system that was mounted as the root, with the descriptors as they were.
pub record IsMounted (device : BlockDevice) (disk : ℕ → ℕ) (e : PartitionEntry) (heap : Heap)
    (fuel : ℕ) (before : Vfs (Outcome World)) (w : World) (o : Outcome (Bool × Vfs (Outcome World)))
    : Type 0 where
  pub fs : FatFs
  pub s : Vfs (Outcome World)
  pub comes_back : o ≡ returned (true, s)
  pub over : fs.dev ≡ device
  pub holds : Holds disk e fs
  pub root : RootIs heap fuel fs s w
  pub table : s.vfs_open_files ≡ before.vfs_open_files

-- The mount of the root.
abbrev with_root : Vfs (Outcome World) → ℕ → FsDriver (Outcome World) → Vfs (Outcome World)
with_root s node driver = record s {
  vfs_mfs = node;
  node = update s.node node (record (s.node node) { vfs_driver = driver; mountpath = b'/' ∷ [] });
}

root_node :
    (s : Vfs (Outcome World)) (node : ℕ) (driver : FsDriver (Outcome World))
    → (with_root s node driver).node node
      ≡ record (s.node node) { vfs_driver = driver; mountpath = b'/' ∷ [] }
root_node s node driver = ground arith

-- What a file is to a program that was started by `kmain`.
pub record BootBrings (device : BlockDevice) (disk : ℕ → ℕ) (e : PartitionEntry) (cs : List ℕ)
    (memory : ℕ → ℕ) (ptr n : ℕ) (o : Outcome (ℕ × Vfs (Outcome World))) : Type 0 where
  pub fs : FatFs
  pub over : fs.dev ≡ device
  pub holds : Holds disk e fs
  pub brought : Brought fs disk cs memory ptr n o

module _ (device : BlockDevice) (disk : ℕ → ℕ) (e : PartitionEntry) (fresh : ℕ → ℕ → ℕ)
    (bytes : IsBuffer disk) (blocks : ReadsBlocks device.read disk) (serves : Serves device disk)
    (found : partition_of disk ≡ some e) (fat : IsFat32 disk e) (heap : Heap) (fuel node : ℕ)
    (s : Vfs (Outcome World)) (w : World) (first : s.vfs_mfs ≡ 0) (set : node ≢ 0)
    (world : s.world ≡ returned w) (intact : (fs : FatFs) → w.over fs ≡ fs) where
  mount_device-IsMounted :
      IsMounted device disk e heap fuel s w (mount_device heap fuel fresh device node s)
  unfolding mount_device vfs_mount
  mount_device-IsMounted =
      let mounts = init_fatfs-Mounts device disk e fresh bytes blocks serves found fat in
      let driver = fat_driver heap fuel mounts.fs in
      let mount = root_node s node driver in
      record {
        fs = mounts.fs;
        s = with_root s node driver;
        comes_back = rw mounts.comes_back (rw first refl);
        over = mounts.over;
        holds = mounts.holds;
        root = record {
          set = set;
          mountpath = ap (λ (m : MountNode (Outcome World)). m.mountpath) mount;
          driver = ap (λ (m : MountNode (Outcome World)). m.vfs_driver) mount;
          world = world;
          intact = intact mounts.fs;
        };
        table = refl;
      }

  -- On a device that reads the blocks of a disk of bytes, whose first FAT32 partition has blocks of
  -- 512 bytes and a table within the 32-bit block addresses, and with nothing mounted and no store over a volume, `kmain`
  -- mounts that partition as the root. A file of its root directory, or of a folder in that, with
  -- short entries behind short entries only, is then opened by its path and read through the
  -- virtual file system: if each volume of the partition is sound, a descriptor is free, `malloc`
  -- gives an address, the static entry and the allocated one have a 0 behind the name, with fuel
  -- for the chains and entries, and for a pointer that is not NULL and some bytes that fit in the
  -- clusters of the file, the read gives their number, and memory has them from the pointer on, in
  -- the order of the clusters on the disk.
  pub mount_device-BootBrings :
      {path : Text} {c : ℕ} {cs : List ℕ} {clustersize : ℕ}
      → HasFile disk e fuel clustersize path c cs
      → (rounds index ptr size nmemb : ℕ) → find_free 61 s.vfs_open_files 3 ≡ some index
      → heap.malloc w ≢ 0
      → heap.fresh_dirent.d_name 11 ≡ 0
      → w.rdir.d_name 11 ≡ 0
      → ptr ≢ 0
      → size * nmemb ≢ 0
      → size * nmemb ≤ clustersize * length cs
      → BootBrings device disk e cs w.memory ptr (size * nmemb) (
          and_then (mount_device heap fuel fresh device node s) (λ (ok, after).
            and_then
              (vfsfopen (suc rounds) (some (b'/' ∷ path)) (b'r' ∷ []) after)
              (λ (fd, opened). vfsfread ptr size nmemb fd opened)))
  mount_device-BootBrings {cs} file rounds index ptr size nmemb slot set_file clean end target
        some_bytes fits =
      let mounted = mount_device-IsMounted in
      let fs = mounted.fs in
      record {
        fs = fs;
        over = mounted.over;
        holds = mounted.holds;
        brought = rw mounted.comes_back (
            vfsfread-Brought (file.sound fs mounted.holds)
              (subst (λ (dev : BlockDevice). Serves dev disk) (sym mounted.over) serves) heap fuel
              (file.reaches fs mounted.holds) mounted.s w mounted.root rounds index ptr size nmemb
              (rw mounted.table slot) set_file clean end target some_bytes
              (omega (arith, ap (λ (n : ℕ). n * length cs) (file.clusters fs mounted.holds))));
      }
