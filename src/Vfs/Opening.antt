-- ===== src/Vfs/Opening.antt =====
-- `vfsfopen` of kernel/src/vfs.c against a search through a list of mounts.
use mnes_hrel.Common.{
  ℕ, zero, suc, ◌≤◌, ◌<◌, ◌≡◌, ◌≢◌, refl, false, Option, none, some, List, ◌==◌, if◌then◌else◌,
  update, minus_one, returned, fault, Text, length, [], ◌∷◌, strcmp, drop, arith,
}
use mnes_hrel.Vfs.{FsDriver, MountNode, Vfs}
use mnes_hrel.Vfs.Files.{find_free, filled, open_at, open_slot, vfsfopen}

-- The nodes from `p` on are the listed ones, each with its mount path no longer than `path`.
pub data Mounts {W : Type 0} (node : ℕ → MountNode W) (path : Text)
    : ℕ → List (MountNode W) → Type 0 where
  ended : Mounts node path 0 []
  mounted :
      {p : ℕ} {ms : List (MountNode W)}
      → p ≢ 0
      → length (node p).mountpath ≤ length path
      → Mounts node path (node p).next ms
      → Mounts node path p (node p ∷ ms)

module _ {W : Type 0} where
  -- The drivers asked one after the other for what is behind their mount path: the first file, or
  -- none if the path is a mount path or no driver has the file.
  abbrev pub find_file : Text → List (MountNode W) → W → Option (ℕ × FsDriver W) × W
  find_file path [] w = (none, w)
  find_file path (m ∷ ms) w =
      let (filemeta, world) = m.vfs_driver.fsopenfile (drop (length m.mountpath) path) w in
      if strcmp path m.mountpath
      then (none, w)
      else if filemeta == 0
      then find_file path ms world
      else (some (filemeta, m.vfs_driver), world)

  -- The descriptor and the table for a free slot and a file, if there are.
  abbrev pub opened : Vfs W → Option ℕ → Option (ℕ × FsDriver W) × W → ℕ × Vfs W
  opened s none found = (minus_one, s)
  opened s (some index) (none, w) = (minus_one, record s { world = w })
  opened s (some index) (some (filemeta, driver), w) = (
    index,
    record s { vfs_open_files = update s.vfs_open_files index (filled filemeta driver); world = w },
  )

  open_at-find_file :
      (fuel : ℕ) (path : Text) (index p : ℕ) (s : Vfs W) (ms : List (MountNode W))
      → Mounts s.node path p ms
      → length ms < fuel
      → open_at fuel path index p s ≡ returned (opened s (some index) (find_file path ms s.world))
  unfolding open_at
  open_at-find_file zero path index p s ms chain h = absurd (omega arith)
  open_at-find_file (suc fuel) path index p s [] ended h = refl
  open_at-find_file (suc fuel) path index p s (m ∷ ms) (mounted set fits chain) h =
      let (filemeta, w) =
        (s.node p).vfs_driver.fsopenfile (drop (length (s.node p).mountpath) path) s.world in
      let rest =
        open_at-find_file fuel path index (s.node p).next (record s { world = w }) ms chain
          (omega arith) in
      ground (arith, rest, set, fits)

  no_mount :
      (path : Text) (s : Vfs W) (ms : List (MountNode W))
      → Mounts s.node path s.vfs_mfs ms
      → s.vfs_mfs ≡ 0
      → find_file path ms s.world ≡ (none, s.world)
  no_mount path s [] ended e = refl
  no_mount path s (m ∷ ms) (mounted set fits chain) e = absurd (set e)

  open_slot-find_file :
      (fuel : ℕ) (path : Text) (slot : Option ℕ) (s : Vfs W) (ms : List (MountNode W))
      → Mounts s.node path s.vfs_mfs ms
      → length ms < fuel
      → (if s.vfs_mfs == 0 then returned (minus_one, s) else open_slot fuel path slot s)
        ≡ returned (opened s slot (find_file path ms s.world))
  unfolding open_slot
  open_slot-find_file fuel path none s ms chain h = ground arith
  open_slot-find_file fuel path (some index) s ms chain h =
      ground
        (arith, open_at-find_file fuel path index s.vfs_mfs s ms chain h, no_mount path s ms chain)

  -- If no mount path is longer than the path, opening it for reading returns and does what the
  -- search through the mounts says: it enters the first file that a driver finds in the first free
  -- slot and returns the slot's index. Without a free slot it returns -1 and asks no driver; without
  -- a file it returns -1 with the slots as they were. Fuel for one round more than the mounts is enough.
  pub vfsfopen-find_file :
      (fuel : ℕ) (path : Text) (s : Vfs W) (ms : List (MountNode W))
      → Mounts s.node path s.vfs_mfs ms
      → length ms < fuel
      → vfsfopen fuel (some path) (b'r' ∷ []) s
        ≡ returned (opened s (find_free 61 s.vfs_open_files 3) (find_file path ms s.world))
  unfolding vfsfopen open_slot strcmp
  vfsfopen-find_file fuel path s ms chain h =
      open_slot-find_file fuel path (find_free 61 s.vfs_open_files 3) s ms chain h

-- If a slot is free and the only mount has a path longer than the path, opening for reading steps
-- past the end of the list of mounts: a fault.
pub vfsfopen-fault :
    {W : Type 0} (fuel : ℕ) (path : Text) (s : Vfs W) (index : ℕ)
    → find_free 61 s.vfs_open_files 3 ≡ some index
    → s.vfs_mfs ≢ 0
    → (s.node s.vfs_mfs).next ≡ 0
    → length path < length (s.node s.vfs_mfs).mountpath
    → vfsfopen (suc fuel) (some path) (b'r' ∷ []) s ≡ fault
unfolding vfsfopen open_slot open_at strcmp
vfsfopen-fault fuel path s index e set only short = ground (arith, e, set, only, short)

module _ {W : Type 0} (s : Vfs W) where
  -- The first mount has the file: its driver is the only one that is asked.
  pub vfsfopen-first :
      (fuel : ℕ) (path : Text) (index filemeta : ℕ) (w : W)
      → s.vfs_mfs ≢ 0
      → length (s.node s.vfs_mfs).mountpath ≤ length path
      → strcmp path (s.node s.vfs_mfs).mountpath ≡ false
      → find_free 61 s.vfs_open_files 3 ≡ some index
      → (s.node s.vfs_mfs).vfs_driver.fsopenfile
          (drop (length (s.node s.vfs_mfs).mountpath) path)
          s.world
        ≡ (filemeta, w)
      → filemeta ≢ 0
      → vfsfopen (suc fuel) (some path) (b'r' ∷ []) s
        ≡ returned (
          index,
          record s {
            vfs_open_files =
                update s.vfs_open_files index (filled filemeta (s.node s.vfs_mfs).vfs_driver);
            world = w;
          },
        )
  unfolding vfsfopen open_slot open_at strcmp
  vfsfopen-first fuel path index filemeta w set fits other slot opens found =
      rw slot (rw opens (ground (arith, set, fits, other, found)))
