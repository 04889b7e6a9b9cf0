-- ===== src/Vfs/Dirs.antt =====
-- Open directories: `opendir`, `readdir`, `closedir` and `rewinddir` of kernel/src/vfs.c.
use mnes_hrel.Common.{
  ℕ, zero, suc, ◌+◌, true, false, not, Option, none, some, ◌==◌, ltb, if◌then◌else◌, update,
  minus_one, Outcome, returned, fault, runs_on, Text, length, [], ◌∷◌, strcmp, strncmp, drop,
}
use mnes_hrel.Vfs.{FsDriver, MountNode, OpenSlot, Vfs}
use mnes_hrel.Vfs.Files.{filled, emptied}

module _ {W : Type 0} where
  -- The index of the first of `n` slots from `i` on whose directory is `dir`.
  unfoldable pub find_dir : ℕ → (ℕ → OpenSlot W) → ℕ → ℕ → Option ℕ
  find_dir zero slots i dir = none
  find_dir (suc n) slots i dir =
      if (slots i).handle == dir then some i else find_dir n slots (i + 1) dir

  -- The directory that the driver `driver` opened for `subpath`, into the slot `index`.
  unfoldable pub enter_dir : FsDriver W → Text → ℕ → Vfs W → Outcome (ℕ × Vfs W)
  enter_dir driver subpath index s =
      let (dir, world) = driver.fsopendir subpath s.world in
      let after : Vfs W = record s { world = world } in
      if not (dir == 0)
      then returned
          (dir, record after { vfs_open_dirs = update s.vfs_open_dirs index (filled dir driver) })
      else returned (0, after)

  -- The rounds of the loop over the mount nodes.
  unfoldable pub dir_at : ℕ → Text → ℕ → ℕ → Vfs W → Outcome (ℕ × Vfs W)
  unfolding enter_dir
  dir_at zero path index itr s = runs_on
  dir_at (suc fuel) path index itr s =
      let mount : MountNode W = s.node itr in
      let skipped : Outcome (ℕ × Vfs W) = dir_at fuel path index (s.node mount.next).next s in
      let rest : Outcome (ℕ × Vfs W) = dir_at fuel path index mount.next s in
      if itr == 0
      then returned (0, s)
      else if ltb (length path) (length mount.mountpath)
      then (if mount.next == 0 then fault else skipped)
      else if strcmp path mount.mountpath
      then enter_dir mount.vfs_driver (b'/' ∷ []) index s
      else if strncmp path mount.mountpath (length mount.mountpath)
      then enter_dir mount.vfs_driver (drop (length mount.mountpath) path) index s
      else rest

  unfoldable pub dir_slot : ℕ → Option Text → Option ℕ → Vfs W → Outcome (ℕ × Vfs W)
  unfolding dir_at
  dir_slot fuel path none s = returned (0, s)
  dir_slot fuel none (some index) s = returned (0, s)
  dir_slot fuel (some path) (some index) s =
      if s.vfs_mfs == 0 then returned (0, s) else dir_at fuel path index s.vfs_mfs s

  unfoldable pub opendir : ℕ → Option Text → Vfs W → Outcome (ℕ × Vfs W)
  unfolding dir_slot find_dir
  opendir fuel path s = dir_slot fuel path (find_dir 16 s.vfs_open_dirs 0 0) s

  -- A call of the driver of the slot `index`; a slot whose driver is NULL is a fault.
  unfoldable pub on_dir :
      Option ℕ
      → ℕ
      → (FsDriver W → W → ℕ × W)
      → (ℕ → ℕ → W → ℕ × Vfs W)
      → Vfs W
      → Outcome (ℕ × Vfs W)
  on_dir none missing call done s = returned (missing, s)
  on_dir (some index) missing call done s = elim (s.vfs_open_dirs index).driver [
    | none ↦ fault
    | some driver ↦ let (ret, world) = call driver s.world in returned (done index ret world)
  ]

  unfoldable pub readdir : ℕ → Vfs W → Outcome (ℕ × Vfs W)
  unfolding on_dir find_dir
  readdir dir s =
      if dir == 0
      then returned (0, s)
      else on_dir (find_dir 16 s.vfs_open_dirs 0 dir) 0 (λ driver w. driver.fsreaddir dir w)
          (λ index ret w. (ret, record s { world = w })) s

  unfoldable pub closedir : ℕ → Vfs W → Outcome (ℕ × Vfs W)
  unfolding on_dir find_dir
  closedir dir s =
      if dir == 0
      then returned (minus_one, s)
      else on_dir (find_dir 16 s.vfs_open_dirs 0 dir) minus_one
          (λ driver w. driver.fsclosedir dir w)
          (λ index ret w.
            (0, record s { vfs_open_dirs = update s.vfs_open_dirs index emptied; world = w }))
          s

  -- The loop of `rewinddir` goes on behind the slot that it found.
  unfoldable pub rewind_each : ℕ → ℕ → ℕ → Vfs W → Outcome (Vfs W)
  rewind_each zero i dir s = returned s
  rewind_each (suc n) i dir s = elim ((s.vfs_open_dirs i).handle == dir) [
    | false ↦ rewind_each n (i + 1) dir s
    | true ↦ elim (s.vfs_open_dirs i).driver [
      | none ↦ fault
      | some driver ↦
          rewind_each n (i + 1) dir (record s { world = driver.fsrewinddir dir s.world })
    ]
  ]

  unfoldable pub rewinddir : ℕ → Vfs W → Outcome (Vfs W)
  unfolding rewind_each
  rewinddir dir s = if dir == 0 then returned s else rewind_each 16 0 dir s
