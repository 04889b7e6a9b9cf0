-- ===== src/Vfs/Directory.antt =====
-- What the result of `opendir` of kernel/src/vfs.c stands for, in `readdir` and `closedir`.
use mnes_hrel.Common.{
  ℕ, ◌<◌, ◌≡◌, ◌≢◌, ap, ◌∙◌, Option, none, some, List, update, minus_one, Outcome, returned,
  and_then, Text, length, arith,
}
use mnes_hrel.Vfs.{FsDriver, MountNode, OpenSlot, Vfs}
use mnes_hrel.Vfs.Files.{filled, emptied}
use mnes_hrel.Vfs.Dirs.{find_dir, opendir, readdir, closedir, on_dir}
use mnes_hrel.Vfs.Opening.{Mounts}
use mnes_hrel.Vfs.Descriptor.{update-emptied}
use mnes_hrel.Vfs.Listing.{
  find_mount, entered, listed, opendir-find_mount, find_dir-some, find_dir-update,
}

module _ {W : Type 0} (dir : ℕ) (s : Vfs W) (index : ℕ) (driver : FsDriver W)
    (found : find_dir 16 s.vfs_open_dirs 0 dir ≡ some index)
    (own : (s.vfs_open_dirs index).driver ≡ some driver) (set : dir ≢ 0) where
  closedir-found :
      closedir dir s
      ≡ returned (
        0,
        record s {
          vfs_open_dirs = update s.vfs_open_dirs index emptied;
          world = (driver.fsclosedir dir s.world).1;
        },
      )
  unfolding closedir on_dir
  closedir-found =
      ground (arith, set)
      ∙ ap
          (λ (o : Option ℕ).
            on_dir o minus_one (λ (d : FsDriver W) (w : W). d.fsclosedir dir w)
              (λ (i : ℕ) (ret : ℕ) (w : W).
                (0, record s { vfs_open_dirs = update s.vfs_open_dirs i emptied; world = w }))
              s)
          found
      ∙ ground (arith, own)

  readdir-found :
      readdir dir s
      ≡ returned
          ((driver.fsreaddir dir s.world).0, record s { world = (driver.fsreaddir dir s.world).1 })
  unfolding readdir on_dir
  readdir-found =
      ground (arith, set)
      ∙ ap
          (λ (o : Option ℕ).
            on_dir o 0 (λ (d : FsDriver W) (w : W). d.fsreaddir dir w)
              (λ (i : ℕ) (ret : ℕ) (w : W). (ret, record s { world = w })) s)
          found
      ∙ ground (arith, own)

-- A directory `dir` that `driver` opens for the path, not one of those open before, leaving the
-- state `w`; slot `index` is free for it.
pub record FoundDir {W : Type 0} (path : Text) (ms : List (MountNode W)) (s : Vfs W) (index dir : ℕ)
    (driver : FsDriver W) (subpath : Text) (w : W) : Type 0 where
  pub mounts : Mounts s.node path s.vfs_mfs ms
  pub slot : find_dir 16 s.vfs_open_dirs 0 0 ≡ some index
  pub free : (s.vfs_open_dirs index).driver ≡ none
  pub found : find_mount path ms ≡ some (driver, subpath)
  pub answer : driver.fsopendir subpath s.world ≡ (dir, w)
  pub set : dir ≢ 0
  pub fresh : (j : ℕ) → (s.vfs_open_dirs j).handle ≢ dir

module _ {W : Type 0} {path : Text} {ms : List (MountNode W)} {s : Vfs W} {index dir : ℕ}
    {driver : FsDriver W} {subpath : Text} {w : W}
    (f : FoundDir path ms s index dir driver subpath w) (fuel : ℕ) (enough : length ms < fuel) where
  abbrev slots : ℕ → OpenSlot W
  slots = update s.vfs_open_dirs index (filled dir driver)

  open_lem :
      opendir fuel (some path) s ≡ returned (dir, record s { vfs_open_dirs = slots; world = w })
  open_lem =
      opendir-find_mount fuel path s ms f.mounts enough
      ∙ ap (λ (o : Option ℕ). returned (listed s o (find_mount path ms))) f.slot
      ∙ ap (λ (o : Option (FsDriver W × Text)). returned (entered index o s)) f.found
      ∙ ground (arith, f.answer, f.set)

  find_lem : find_dir 16 slots 0 dir ≡ some index
  find_lem =
      find_dir-update 16 s.vfs_open_dirs 0 index (filled dir driver) f.fresh (omega arith)
        (omega (arith, (find_dir-some 16 s.vfs_open_dirs 0 0 index f.slot).1))

  restored_lem : update slots index emptied ≡ s.vfs_open_dirs
  restored_lem =
      update-emptied s.vfs_open_dirs index (filled dir driver)
        (ground (arith, f.free, (find_dir-some 16 s.vfs_open_dirs 0 0 index f.slot).2))

  abbrev listing : Vfs W
  listing = record s { vfs_open_dirs = slots; world = w }

  own_lem : (slots index).driver ≡ some driver
  own_lem = ground arith

  -- A directory that was opened under these conditions is read through the driver that opened
  -- it.
  pub opendir-readdir :
      and_then (opendir fuel (some path) s) (λ r. readdir r.0 r.1)
      ≡ returned ((driver.fsreaddir dir w).0, record listing { world = (driver.fsreaddir dir w).1 })
  opendir-readdir =
      ap (λ (o : Outcome (ℕ × Vfs W)). and_then o (λ r. readdir r.0 r.1)) open_lem
      ∙ readdir-found dir listing index driver find_lem own_lem f.set

  -- If the first mount that the path begins with opens a directory for it that is not in the
  -- table, no mount path is longer than the path, and a slot without a directory and a driver is
  -- the first one free, then opening the path and closing the directory at once returns 0 and
  -- gives the table that there was before. Fuel for one round more than the mounts is enough.
  pub opendir-closedir :
      and_then (opendir fuel (some path) s) (λ r. closedir r.0 r.1)
      ≡ returned (0, record s { world = (driver.fsclosedir dir w).1 })
  opendir-closedir =
      ap (λ (o : Outcome (ℕ × Vfs W)). and_then o (λ r. closedir r.0 r.1)) open_lem
      ∙ closedir-found dir listing index driver find_lem own_lem f.set
      ∙ ap
          (λ (dirs : ℕ → OpenSlot W).
            returned (0, record s { vfs_open_dirs = dirs; world = (driver.fsclosedir dir w).1 }))
          restored_lem
