-- ===== src/Storage/Reading.antt =====
-- A file of the root directory, opened and read through the virtual file system: from the descriptor
-- down to the bytes of the disk.
use mnes_hrel.Common.{
  ℕ, zero, suc, ◌+◌, ◌-◌, ◌*◌, ◌≤◌, ◌<◌, ◌≡◌, ◌≢◌, refl, ap, ◌∙◌, some, List, [], ◌∷◌, ◌==◌, update,
  arith, strcmp, length, u32, false, drop, Outcome, returned, and_then, Text,
}
use mnes_hrel.Fat.Volume.{FatFs}
use mnes_hrel.Fat.Volume.Device.{stored, Serves}
use mnes_hrel.Fat.Volume.Data.{IsSound, Filled}
use mnes_hrel.Fat.Volume.File.{FatFile, copied, advanced, fat_fread_inside}
use mnes_hrel.Fat.Dir.{Dirent}
use mnes_hrel.Fat.Dir.Path.{fat_getfilename, fat_fopen}
use mnes_hrel.Fat.Dir.Opening.{Opens}
use mnes_hrel.Fat.Dir.Below.{Reaches, Reaches-small, Reaches-some, fat_fopen-Reaches}
use mnes_hrel.Vfs.{FsDriver, OpenSlot, Vfs}
use mnes_hrel.Vfs.Files.{find_free, filled, vfsfopen, vfsfread, on_slot}
use mnes_hrel.Vfs.Opening.{vfsfopen-first}
use mnes_hrel.Vfs.Descriptor.{find_free-FirstFree}
use mnes_hrel.Storage.{World, Heap, store_bytes, keep_file, driver_fopen, driver_fread, fat_driver}

further : (src : ℕ → ℕ) (i p k : ℕ) → p + 1 ≤ k → src (i + 1 + (k - (p + 1))) ≡ src (i + (k - p))
further src i p k h = ap src (omega arith)

here : (src : ℕ → ℕ) (i p k : ℕ) → p ≡ k → src i ≡ src (i + (k - p))
here src i p k h = ap src (omega arith)

-- A copy of `n` bytes leaves them behind the pointer.
store_bytes-copied :
    (n : ℕ) (memory : ℕ → ℕ) (p : ℕ) (src : ℕ → ℕ) (i k : ℕ)
    → store_bytes memory p (copied src i n) k ≡ stored memory p n (λ j. src (i + j)) k
unfolding store_bytes copied
store_bytes-copied zero memory p src i k = ground arith
store_bytes-copied (suc n) memory p src i k =
    store_bytes-copied n (update memory p (src i)) (p + 1) src (i + 1) k
    ∙ ground (arith, further src i p k, here src i p k)

copy_lem :
    (n : ℕ) (memory : ℕ → ℕ) (p : ℕ) (src : ℕ → ℕ)
    → store_bytes memory p (copied src 0 n) ≡ stored memory p n src
copy_lem n memory p src = λ t k. (store_bytes-copied n memory p src 0 k ∙ start k) t
  where
    start : (k : ℕ) → stored memory p n (λ j. src (0 + j)) k ≡ stored memory p n src k
    start k = ground (arith, ap src (let e : 0 + (k - p) ≡ k - p = omega arith in e))

-- The state once a file is open.
abbrev with_file : Heap → World → FatFile → Dirent → World
with_file heap w file rdir = record w {
  files = update w.files (heap.malloc w) (some file);
  rdir = rdir;
}

-- The state once `n` bytes of it were read.
abbrev after_read : World → FatFile → ℕ → ℕ → ℕ → World
after_read w file filemeta ptr n = record w {
  memory = stored w.memory ptr n file.data_bytes;
  files = update w.files filemeta (some (advanced n file));
}

module _ (heap : Heap) (fuel : ℕ) (fs : FatFs) (w : World) where
  with_file_lem :
      (file : FatFile) (rdir : Dirent)
      → (with_file heap w file rdir).files (heap.malloc w) ≡ some file
  with_file_lem file rdir = ground arith

  driver_fopen_lem :
      {disk : ℕ → ℕ} {c : ℕ} {cs : List ℕ} (path : Text)
      (o : Opens fs disk c cs
        (fat_fopen fuel heap.fresh heap.fresh_dirent (some path) (some fs) w.rdir))
      → w.over fs ≡ fs
      → (fat_driver heap fuel fs).fsopenfile path (returned w)
        ≡ (heap.malloc w, returned (with_file heap w o.file o.rdir'))
  unfolding fat_driver driver_fopen keep_file
  driver_fopen_lem path o intact = rw intact (rw o.comes_back refl)

  -- A first read of `n` bytes of an open file.
  driver_fread_lem :
      (file : FatFile) (filemeta ptr n : ℕ)
      → w.files filemeta ≡ some file
      → filemeta ≢ 0
      → ptr ≢ 0
      → n ≢ 0
      → file.dataptr ≡ 0
      → n ≤ file.buffersize
      → file.buffersize < 4294967296
      → (fat_driver heap fuel fs).fsreadfile ptr n filemeta (returned w)
        ≡ (n, returned (after_read w file filemeta ptr n))
  unfolding fat_driver driver_fread
  driver_fread_lem file filemeta ptr n open_file set target some_bytes start fits small =
      let reads =
        fat_fread_inside n file (record { inside = omega arith; small = small }) some_bytes
          (omega arith) in
      let handle : filemeta == 0 ≡ false = ground arith in
      let pointer : ptr == 0 ≡ false = ground arith in
      rw handle (
        rw open_file
          (rw pointer (rw reads (rw start (rw (copy_lem n w.memory ptr file.data_bytes) refl)))))

-- The root mount is the FAT32 driver of a volume, and the state is `w`, with nothing stored over it.
pub record RootIs (heap : Heap) (fuel : ℕ) (fs : FatFs) (s : Vfs (Outcome World)) (w : World)
    : Type 0 where
  pub set : s.vfs_mfs ≢ 0
  pub mountpath : (s.node s.vfs_mfs).mountpath ≡ b'/' ∷ []
  pub driver : (s.node s.vfs_mfs).vfs_driver ≡ fat_driver heap fuel fs
  pub world : s.world ≡ returned w
  pub intact : w.over fs ≡ fs

-- A run that read `n` bytes of a file into memory: of the clusters `cs` of the disk, from their start.
pub record Brought (fs : FatFs) (disk : ℕ → ℕ) (cs : List ℕ) (memory : ℕ → ℕ) (ptr n : ℕ)
    (o : Outcome (ℕ × Vfs (Outcome World))) : Type 0 where
  pub s : Vfs (Outcome World)
  pub w : World
  pub contents : ℕ → ℕ
  pub comes_back : o ≡ returned (n, s)
  pub world : s.world ≡ returned w
  pub filled : Filled fs disk cs 0 contents
  pub memory_after : w.memory ≡ stored memory ptr n contents

not_root :
    (path fname : Text)
    → fat_getfilename path ≡ some fname
    → strcmp (b'/' ∷ path) (b'/' ∷ []) ≡ false
unfolding fat_getfilename strcmp
not_root [] fname e = absurd (ground (arith, e))
not_root (a ∷ path) fname e = refl

-- A read through a descriptor in use asks its driver, by its handle.
vfsfread_lem :
    {W : Type 0} (s : Vfs W) (slots : ℕ → OpenSlot W) (index filemeta : ℕ) (driver : FsDriver W)
    (w : W) (ptr size nmemb : ℕ)
    → index < 64
    → filemeta ≢ 0
    → vfsfread ptr size nmemb index
        (record s { vfs_open_files = update slots index (filled filemeta driver); world = w })
      ≡ returned (
        (driver.fsreadfile ptr (u32 (size * nmemb)) filemeta w).0,
        record s {
          vfs_open_files = update slots index (filled filemeta driver);
          world = (driver.fsreadfile ptr (u32 (size * nmemb)) filemeta w).1;
        },
      )
unfolding vfsfread on_slot
vfsfread_lem s slots index filemeta driver w ptr size nmemb low set = ground (arith, low, set)

module _ {fs : FatFs} {disk : ℕ → ℕ} (sound : IsSound fs) (serves : Serves fs.dev disk)
    (heap : Heap) (fuel : ℕ) {path : Text} {c : ℕ} {cs : List ℕ}
    (reaches : Reaches fs disk fuel path c cs) (s : Vfs (Outcome World)) (w : World)
    (root : RootIs heap fuel fs s w) where
  -- A file that is reached from a volume that is mounted as the root: the bytes read are those of its
  -- clusters.
  pub vfsfread-Brought :
      (rounds index ptr size nmemb : ℕ)
      → find_free 61 s.vfs_open_files 3 ≡ some index
      → heap.malloc w ≢ 0
      → heap.fresh_dirent.d_name 11 ≡ 0
      → w.rdir.d_name 11 ≡ 0
      → ptr ≢ 0
      → size * nmemb ≢ 0
      → size * nmemb ≤ fs.clustersize * length cs
      → Brought fs disk cs w.memory ptr (size * nmemb) (
          and_then
            (vfsfopen (suc rounds) (some (b'/' ∷ path)) (b'r' ∷ []) s)
            (λ r. vfsfread ptr size nmemb r.0 r.1))
  unfolding drop
  vfsfread-Brought rounds index ptr size nmemb slot set clean end target some_bytes fits =
      let opens =
        fat_fopen-Reaches sound serves reaches heap.fresh heap.fresh_dirent w.rdir clean end in
      let (fname, named) = Reaches-some reaches in
      let small = Reaches-small reaches in
      let driver = fat_driver heap fuel fs in
      let asked = driver_fopen_lem heap fuel fs w path opens root.intact in
      let opened =
        vfsfopen-first s rounds (b'/' ∷ path) index (heap.malloc w)
          (returned (with_file heap w opens.file opens.rdir')) root.set
          (rw root.mountpath (omega arith)) (rw root.mountpath (not_root path fname named)) slot
          (rw (root.mountpath, root.driver, root.world) asked) set in
      let range = find_free-FirstFree 61 s.vfs_open_files 3 index slot in
      let held = with_file heap w opens.file opens.rdir' in
      let read =
        driver_fread_lem heap fuel fs held opens.file (heap.malloc w) ptr (size * nmemb)
          (with_file_lem heap fuel fs w opens.file opens.rdir') set target some_bytes opens.start
          (omega (arith, opens.buffersize)) (omega (arith, opens.buffersize, small)) in
      let last = after_read held opens.file (heap.malloc w) ptr (size * nmemb) in
      let whole : u32 (size * nmemb) ≡ size * nmemb = omega (arith, small) in
      record {
        s = record s {
          vfs_open_files = update s.vfs_open_files index (filled (heap.malloc w) driver);
          world = returned last;
        };
        w = last;
        contents = opens.file.data_bytes;
        comes_back = rw opened (
            rw root.driver (
              rw
                (vfsfread_lem s s.vfs_open_files index (heap.malloc w) driver (returned held) ptr
                  size nmemb (omega (arith, range.high)) set)
                (rw whole (rw read refl))));
        world = refl;
        filled = opens.filled;
        memory_after = refl;
      }
