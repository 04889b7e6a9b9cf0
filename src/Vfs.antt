-- ===== src/Vfs.antt =====
-- The virtual file system, kernel/src/vfs.c: mount points, and the tables of open directories and
-- open files, over drivers as records of functions.
pub mod Files
pub mod Dirs
pub mod Opening
pub mod Descriptor
pub mod Mounting
pub mod Listing
pub mod Directory
pub mod Tables
pub mod Session
mod Tests
use mnes_hrel.Common.{
  ℕ, zero, suc, ◌+◌, Bool, true, false, not, ◌&&◌, ◌||◌, Option, none, some, ◌==◌, ltb,
  if◌then◌else◌, update, minus_one, Outcome, returned, fault, runs_on, Text, length, [], ◌∷◌,
}

-- `fs_driver`. A pointer is a number and 0 is NULL. `W` is all that the calls can change: the
-- driver, its device, and the memory behind their pointers. The `native_fs` argument, always the
-- driver's own, is left out.
pub record FsDriver (W : Type 0) : Type 0 where
  pub fsopendir : Text → W → ℕ × W
  pub fsclosedir : ℕ → W → ℕ × W
  pub fsrewinddir : ℕ → W → W
  pub fsreaddir : ℕ → W → ℕ × W
  pub fsopenfile : Text → W → ℕ × W
  pub fsreadfile : ℕ → ℕ → ℕ → W → ℕ × W
  pub fsclosefile : ℕ → W → ℕ × W
  pub fsfstat : ℕ → ℕ → W → ℕ × W

-- `vfs_mount_node`.
pub record MountNode (W : Type 0) : Type 0 where
  pub mountpath : Text
  pub vfs_driver : FsDriver W
  pub prev : ℕ
  pub next : ℕ

-- `vfs_open_dir` and `vfs_open_file`: `handle` is the field `dir` or `meta`.
pub record OpenSlot (W : Type 0) : Type 0 where
  pub handle : ℕ
  pub driver : Option (FsDriver W)

-- The globals, with the mount nodes that memory holds at each address.
pub record Vfs (W : Type 0) : Type 0 where
  pub vfs_mfs : ℕ
  pub node : ℕ → MountNode W
  pub vfs_open_dirs : ℕ → OpenSlot W
  pub vfs_open_files : ℕ → OpenSlot W
  pub world : W

module _ {W : Type 0} where
  -- The search for mounted systems that know the path: whether one does.
  unfoldable pub path_in_use : ℕ → Text → ℕ → Vfs W → Outcome (Bool × Vfs W)
  path_in_use zero path itr s = runs_on
  path_in_use (suc fuel) path itr s =
      let (dir, world) = (s.node itr).vfs_driver.fsopendir path s.world in
      let after : Vfs W = record s { world = world } in
      let rest : Outcome (Bool × Vfs W) = path_in_use fuel path (s.node itr).next after in
      if itr == 0
      then returned (false, s)
      else if not (dir == 0)
      then returned (true, after)
      else rest

  -- The rounds of the last loop of `vfs_mount`, which has no exit.
  unfoldable pub append_mount : ℕ → ℕ → ℕ → Vfs W → Outcome (ℕ × Vfs W)
  append_mount zero nmnt itr s = runs_on
  append_mount (suc fuel) nmnt itr s =
      let linked : ℕ → MountNode W = update s.node itr (record (s.node itr) { next = nmnt }) in
      let node : ℕ → MountNode W = update linked nmnt (record (linked nmnt) { prev = itr }) in
      append_mount fuel nmnt (if not ((s.node itr).next == 0) then (s.node itr).next else itr)
        (if not ((s.node itr).next == 0) then s else record s { node = node })

  -- The new node behind the checks; `fresh` is the address that `malloc` gives.
  unfoldable pub add_mount :
      ℕ → ℕ → Text → FsDriver W → Outcome (Bool × Vfs W) → Outcome (ℕ × Vfs W)
  unfolding append_mount
  add_mount fuel fresh path fs (returned (true, s)) = returned (minus_one, s)
  add_mount fuel fresh path fs (returned (false, s)) = append_mount fuel fresh s.vfs_mfs (record s {
    node = update s.node fresh (record (s.node fresh) { vfs_driver = fs; mountpath = path });
  })
  add_mount fuel fresh path fs fault = fault
  add_mount fuel fresh path fs runs_on = runs_on

  -- A `path` or driver that is `none` is NULL.
  unfoldable pub vfs_mount : ℕ → ℕ → Option Text → Option (FsDriver W) → Vfs W → Outcome (ℕ × Vfs W)
  unfolding add_mount path_in_use
  vfs_mount fuel fresh path none s = returned (minus_one, s)
  vfs_mount fuel fresh none (some fs) s =
      if not (s.vfs_mfs == 0)
      then returned (minus_one, s)
      else returned (
        0,
        record s {
          vfs_mfs = fresh;
          node =
              update s.node fresh
                (record (s.node fresh) { vfs_driver = fs; mountpath = b'/' ∷ [] });
        },
      )
  vfs_mount fuel fresh (some path) (some fs) s =
      if s.vfs_mfs == 0
      then returned (
        0,
        record s {
          vfs_mfs = fresh;
          node =
              update s.node fresh
                (record (s.node fresh) { vfs_driver = fs; mountpath = b'/' ∷ [] });
        },
      )
      else add_mount fuel fresh path fs (path_in_use fuel path s.vfs_mfs s)
