-- ===== src/Storage.antt =====
-- The FAT32 driver under the virtual file system: what the functions that `init_fatfs` of
-- kernel/src/fat32.c puts in its `fs_driver` do to memory.
--
-- The state has the structures of open files and directories at their addresses. A call that faults
-- or does not come back leaves no state: after it there is none for any other call.
mod Reading
mod Boot
mod Disk
mod Tests
use mnes_hrel.Common.{
  ℕ, zero, suc, ◌+◌, Bool, true, not, Option, none, some, List, [], ◌∷◌, ◌==◌, if◌then◌else◌,
  update, minus_one, Outcome, returned, fault, runs_on, and_then, Text,
}
use mnes_hrel.Fat.Volume.{BlockDevice, FatFs}
use mnes_hrel.Fat.Volume.File.{FatFile, fat_fread}
use mnes_hrel.Fat.Mount.{init_fatfs}
use mnes_hrel.Fat.Dir.{Dirent, FatDir, fat_readdir, fat_rewinddir, fat_closedir}
use mnes_hrel.Fat.Dir.Path.{fat_opendir, fat_fopen, fat_fclose, fat_fstat}
use mnes_hrel.Vfs.{FsDriver, Vfs, vfs_mount}

-- `rdir` is the static variable of `fat_readdir`, `memory` what the pointers of the callers lead to,
-- and `over` what the stores over the volume made of it.
pub record World : Type 0 where
  pub files : ℕ → Option FatFile
  pub dirs : ℕ → Option FatDir
  pub rdir : Dirent
  pub memory : ℕ → ℕ
  pub over : FatFs → FatFs

-- The heap: the address that `malloc` gives for a structure, and what it finds in a buffer and in a
-- `dirent`; the address of `rdir`; and the volume that a store of `st_size` leaves where the C library's
-- `struct stat` is taken to be at the volume's address.
pub record Heap : Type 0 where
  pub malloc : World → ℕ
  pub fresh : ℕ → ℕ
  pub fresh_dirent : Dirent
  pub rdir_at : ℕ
  pub stat_over : ℕ → FatFs → FatFs

-- A call as the virtual file system sees it: its result, and the state if there still is one.
abbrev pub settle : Outcome (ℕ × World) → ℕ × Outcome World
settle (returned (r, w)) = (r, returned w)
settle fault = (0, fault)
settle runs_on = (0, runs_on)

abbrev pub call : (World → Outcome (ℕ × World)) → Outcome World → ℕ × Outcome World
call f o = settle (and_then o f)

-- The bytes that a copy leaves at a pointer.
unfoldable pub store_bytes : (ℕ → ℕ) → ℕ → List ℕ → ℕ → ℕ
store_bytes memory ptr [] = memory
store_bytes memory ptr (x ∷ xs) = store_bytes (update memory ptr x) (ptr + 1) xs

-- A pointer to an open file or directory: NULL, or a structure; any other is a fault.
abbrev pub behind : {A B : Type 0} → (ℕ → Option A) → ℕ → (Option A → Outcome B) → Outcome B
behind table p go =
    if p == 0 then go none else elim (table p) [ none ↦ fault | some a ↦ go (some a) ]

module _ (heap : Heap) (fuel : ℕ) (fs : FatFs) where
  -- The new structure of a file that was opened.
  unfoldable pub keep_file : World → Option FatFile × Dirent → Outcome (ℕ × World)
  keep_file w (none, rdir) = returned (0, record w { rdir = rdir })
  keep_file w (some file, rdir) =
      returned (
        heap.malloc w,
        record w { files = update w.files (heap.malloc w) (some file); rdir = rdir },
      )

  unfoldable pub driver_fopen : Text → World → Outcome (ℕ × World)
  unfolding keep_file fat_fopen
  driver_fopen path w =
      and_then (fat_fopen fuel heap.fresh heap.fresh_dirent (some path) (some (w.over fs)) w.rdir)
        (λ r. keep_file w r)

  -- The file's pointer moves, and the bytes go to the caller.
  unfoldable pub driver_fread : ℕ → ℕ → ℕ → World → Outcome (ℕ × World)
  unfolding fat_fread store_bytes
  driver_fread ptr size filemeta w = behind w.files filemeta (λ file.
      and_then (fat_fread (not (ptr == 0)) size file true) (λ (n, bytes, after). returned (
        n,
        record w { memory = store_bytes w.memory ptr bytes; files = update w.files filemeta after },
      )))

  unfoldable pub driver_fclose : ℕ → World → Outcome (ℕ × World)
  driver_fclose filemeta w = behind w.files filemeta (λ file.
      let (ret, after) = fat_fclose file in
      returned (ret, record w { files = update w.files filemeta after }))

  -- `fat_fstat` takes two arguments and gets three: its second is the volume, and the structure of the
  -- caller is not touched.
  unfoldable pub driver_fstat : ℕ → ℕ → World → Outcome (ℕ × World)
  driver_fstat filemeta pstat w = behind w.files filemeta (λ file.
      let (ret, size) = fat_fstat file 0 in
      returned
        (ret, if ret == 0 then record w { over = λ v. heap.stat_over size (w.over v) } else w))

  -- The new structure of a directory that was opened.
  unfoldable pub keep_dir : World → Option FatDir → Outcome (ℕ × World)
  keep_dir w none = returned (0, w)
  keep_dir w (some dir) =
      returned (heap.malloc w, record w { dirs = update w.dirs (heap.malloc w) (some dir) })

  unfoldable pub driver_opendir : Text → World → Outcome (ℕ × World)
  unfolding keep_dir fat_opendir
  driver_opendir path w =
      and_then (fat_opendir fuel heap.fresh heap.fresh_dirent (some path) (w.over fs))
        (λ dir. keep_dir w dir)

  unfoldable pub driver_readdir : ℕ → World → Outcome (ℕ × World)
  unfolding fat_readdir
  driver_readdir dir w = elim (w.dirs dir) [
    | none ↦ fault
    | some d ↦ and_then (fat_readdir d w.rdir) (λ (found, after, entry). returned (
      if found then heap.rdir_at else 0,
      record w { dirs = update w.dirs dir (some after); rdir = entry },
    ))
  ]

  unfoldable pub driver_rewinddir : ℕ → World → Outcome (ℕ × World)
  driver_rewinddir dir w = elim (w.dirs dir) [
    | none ↦ fault
    | some d ↦ returned (0, record w { dirs = update w.dirs dir (some (fat_rewinddir d)) })
  ]

  unfoldable pub driver_closedir : ℕ → World → Outcome (ℕ × World)
  driver_closedir dir w = elim (w.dirs dir) [
    | none ↦ fault
    | some d ↦
        let (ret, after) = fat_closedir d in
        returned (ret, record w { dirs = update w.dirs dir (some after) })
  ]

  -- The driver that `init_fatfs` fills in.
  unfoldable pub fat_driver : FsDriver (Outcome World)
  unfolding driver_fopen driver_fread driver_fclose driver_fstat driver_opendir driver_readdir
      driver_rewinddir driver_closedir
  fat_driver = record {
    fsopendir = λ path. call (driver_opendir path);
    fsclosedir = λ dir. call (driver_closedir dir);
    fsrewinddir = λ dir o. (call (driver_rewinddir dir) o).1;
    fsreaddir = λ dir. call (driver_readdir dir);
    fsopenfile = λ path. call (driver_fopen path);
    fsreadfile = λ ptr size filemeta. call (driver_fread ptr size filemeta);
    fsclosefile = λ filemeta. call (driver_fclose filemeta);
    fsfstat = λ filemeta pstat. call (driver_fstat filemeta pstat);
  }

-- The part of `kmain` that brings up the file system, and whether it goes on: a device that does not
-- read is not mounted. `node` is the address that `malloc` gives for the mount.
unfoldable pub mount_device :
    Heap
    → ℕ
    → (ℕ → ℕ → ℕ)
    → BlockDevice
    → ℕ
    → Vfs (Outcome World)
    → Outcome (Bool × Vfs (Outcome World))
unfolding fat_driver init_fatfs vfs_mount
mount_device heap fuel fresh device node s = and_then (init_fatfs device fresh) (λ volume.
    elim volume [
      | none ↦ returned (true, s)
      | some fs ↦
          and_then (vfs_mount fuel node none (some (fat_driver heap fuel fs)) s)
            (λ (mval, after). returned (mval == 0, after))
    ])
