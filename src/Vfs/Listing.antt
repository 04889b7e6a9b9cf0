-- ===== src/Vfs/Listing.antt =====
-- `opendir` of kernel/src/vfs.c against a search through a list of mounts.
use mnes_hrel.Common.{
  ℕ, zero, suc, ◌+◌, ◌≤◌, ◌<◌, ◌≡◌, ◌≢◌, refl, sym, ap, ◌∙◌, Option, none, some, List, ◌==◌,
  if◌then◌else◌, update, returned, Text, length, [], ◌∷◌, arith, drop, strcmp, strncmp, Bool-cases,
  eq_of_==, inl, inr,
}
use mnes_hrel.Vfs.{FsDriver, MountNode, OpenSlot, Vfs}
use mnes_hrel.Vfs.Files.{filled}
use mnes_hrel.Vfs.Dirs.{find_dir, opendir, dir_slot, dir_at, enter_dir}
use mnes_hrel.Vfs.Opening.{Mounts, ended, mounted}

module _ {W : Type 0} where
  -- The first mount in the list that the path is or begins with, and what its driver is asked for.
  abbrev pub find_mount : Text → List (MountNode W) → Option (FsDriver W × Text)
  find_mount path [] = none
  find_mount path (m ∷ ms) =
      if strcmp path m.mountpath
      then some (m.vfs_driver, b'/' ∷ [])
      else if strncmp path m.mountpath (length m.mountpath)
      then some (m.vfs_driver, drop (length m.mountpath) path)
      else find_mount path ms

  -- The answer of the one driver that is asked, and the table with it.
  abbrev pub entered : ℕ → Option (FsDriver W × Text) → Vfs W → ℕ × Vfs W
  entered index none s = (0, s)
  entered index (some (driver, subpath)) s =
      let (dir, w) = driver.fsopendir subpath s.world in
      if dir == 0 then (0, record s { world = w }) else (
        dir,
        record s { vfs_open_dirs = update s.vfs_open_dirs index (filled dir driver); world = w },
      )

  abbrev pub listed : Vfs W → Option ℕ → Option (FsDriver W × Text) → ℕ × Vfs W
  listed s none found = (0, s)
  listed s (some index) found = entered index found s

  dir_at-find_mount :
      (fuel : ℕ) (path : Text) (index p : ℕ) (s : Vfs W) (ms : List (MountNode W))
      → Mounts s.node path p ms
      → length ms < fuel
      → dir_at fuel path index p s ≡ returned (entered index (find_mount path ms) s)
  unfolding dir_at enter_dir
  dir_at-find_mount zero path index p s ms chain h = absurd (omega arith)
  dir_at-find_mount (suc fuel) path index p s [] ended h = refl
  dir_at-find_mount (suc fuel) path index p s (m ∷ ms) (mounted set fits chain) h =
      ground (
        arith,
        dir_at-find_mount fuel path index (s.node p).next s ms chain (omega arith),
        set,
        fits,
      )

  no_mount :
      (path : Text) (s : Vfs W) (ms : List (MountNode W))
      → Mounts s.node path s.vfs_mfs ms
      → s.vfs_mfs ≡ 0
      → find_mount path ms ≡ none
  no_mount path s [] ended e = refl
  no_mount path s (m ∷ ms) (mounted set fits chain) e = absurd (set e)

  dir_slot-find_mount :
      (fuel : ℕ) (path : Text) (slot : Option ℕ) (s : Vfs W) (ms : List (MountNode W))
      → Mounts s.node path s.vfs_mfs ms
      → length ms < fuel
      → dir_slot fuel (some path) slot s ≡ returned (listed s slot (find_mount path ms))
  unfolding dir_slot
  dir_slot-find_mount fuel path none s ms chain h = refl
  dir_slot-find_mount fuel path (some index) s ms chain h =
      ground
        (arith, dir_at-find_mount fuel path index s.vfs_mfs s ms chain h, no_mount path s ms chain)

  -- If no mount path is longer than the path, opening a directory returns: with NULL if all 16 slots
  -- are taken or no mount path begins the path, and else with the answer of the driver of the first
  -- that does, which is entered in the first free slot. That driver is asked for what is behind its
  -- mount path, and for "/" if nothing is. Fuel for one round more than the mounts is enough.
  pub opendir-find_mount :
      (fuel : ℕ) (path : Text) (s : Vfs W) (ms : List (MountNode W))
      → Mounts s.node path s.vfs_mfs ms
      → length ms < fuel
      → opendir fuel (some path) s
        ≡ returned (listed s (find_dir 16 s.vfs_open_dirs 0 0) (find_mount path ms))
  unfolding opendir
  opendir-find_mount fuel path s ms chain h =
      dir_slot-find_mount fuel path (find_dir 16 s.vfs_open_dirs 0 0) s ms chain h

  -- The slot that `find_dir` gives holds the directory and is one of the `n` from `i` on.
  pub find_dir-some :
      (n : ℕ) (slots : ℕ → OpenSlot W) (i dir k : ℕ)
      → find_dir n slots i dir ≡ some k
      → (i ≤ k) × (k < i + n) × ((slots k).handle ≡ dir)
  unfolding find_dir
  find_dir-some zero slots i dir k e = absurd (ground (arith, e))
  find_dir-some (suc n) slots i dir k e = elim (Bool-cases ((slots i).handle == dir)) [
    | inl here ↦
        let same : i ≡ k = ground (arith, e, here) in
        (
          omega (arith, same),
          omega (arith, same),
          ap (λ (j : ℕ). (slots j).handle) (sym same) ∙ eq_of_== (slots i).handle dir here,
        )
    | inr other ↦
        let rest = find_dir-some n slots (i + 1) dir k (ground (arith, e, other)) in
        (omega (arith, rest.0), omega (arith, rest.1), rest.2)
  ]

  pub find_dir-update :
      (n : ℕ) (slots : ℕ → OpenSlot W) (i k : ℕ) (new : OpenSlot W)
      → ((j : ℕ) → (slots j).handle ≢ new.handle)
      → i ≤ k
      → k < i + n
      → find_dir n (update slots k new) i new.handle ≡ some k
  unfolding find_dir
  find_dir-update zero slots i k new fresh low high = absurd (omega arith)
  find_dir-update (suc n) slots i k new fresh low high = elim (Bool-cases (k == i)) [
    | inl here ↦ ground (arith, here)
    | inr other ↦ ground (
      arith,
      other,
      fresh i,
      find_dir-update n slots (i + 1) k new fresh (ground (arith, other, low)) (omega arith),
    )
  ]
