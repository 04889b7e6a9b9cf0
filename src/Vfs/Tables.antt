-- ===== src/Vfs/Tables.antt =====
-- What each call of kernel/src/vfs.c leaves of the table of open files.
use mnes_hrel.Common.{
  ℕ, zero, suc, ◌+◌, ◌≡◌, ◌≢◌, refl, ap, false, Option, none, some, ◌==◌, update, minus_one,
  returned, Text, length, drop, arith, Bool-cases, Option-cases, inl, inr,
}
use mnes_hrel.Vfs.{FsDriver, OpenSlot, Vfs}
use mnes_hrel.Vfs.Files.{
  is_free, find_free, emptied, vfsfopen, open_slot, open_at, vfsfread, vfsfstat, vfsfclose, on_slot,
}
use mnes_hrel.Vfs.Dirs.{
  find_dir, opendir, dir_slot, dir_at, enter_dir, readdir, closedir, rewinddir, rewind_each, on_dir,
}
use mnes_hrel.Vfs.Descriptor.{find_free-FirstFree}

module _ {W : Type 0} where
  open_at-other :
      (fuel : ℕ) (path : Text) (index p fd r : ℕ) (s s' : Vfs W)
      → index ≢ fd
      → open_at fuel path index p s ≡ returned (r, s')
      → s'.vfs_open_files fd ≡ s.vfs_open_files fd
  unfolding open_at
  open_at-other zero path index p fd r s s' other e = absurd (ground (arith, e))
  open_at-other (suc fuel) path index p fd r s s' other e =
      let (filemeta, w) =
        (s.node p).vfs_driver.fsopenfile (drop (length (s.node p).mountpath) path) s.world in
      ground (
        arith,
        e,
        other,
        open_at-other fuel path index (s.node p).next fd r (record s { world = w }) s' other,
        open_at-other fuel path index (s.node (s.node p).next).next fd r s s' other,
      )

  open_slot-other :
      (fuel : ℕ) (path : Text) (slot : Option ℕ) (fd r : ℕ) (s s' : Vfs W)
      → slot ≢ some fd
      → open_slot fuel path slot s ≡ returned (r, s')
      → s'.vfs_open_files fd ≡ s.vfs_open_files fd
  unfolding open_slot
  open_slot-other fuel path none fd r s s' other e = ground (arith, e)
  open_slot-other fuel path (some index) fd r s s' other e =
      open_at-other fuel path index s.vfs_mfs fd r s s' (λ same. other (ap some same)) e

  not_given :
      (fd : ℕ) (slots : ℕ → OpenSlot W)
      → is_free (slots fd) ≡ false
      → find_free 61 slots 3 ≢ some fd
  not_given fd slots taken e =
      absurd (ground (arith, taken, (find_free-FirstFree 61 slots 3 fd e).free))

  -- Opening leaves a slot that is in use as it is.
  pub vfsfopen-other :
      (fuel : ℕ) (path : Option Text) (mode : Text) (fd r : ℕ) (s s' : Vfs W)
      → is_free (s.vfs_open_files fd) ≡ false
      → vfsfopen fuel path mode s ≡ returned (r, s')
      → s'.vfs_open_files fd ≡ s.vfs_open_files fd
  unfolding vfsfopen
  vfsfopen-other fuel none mode fd r s s' taken e = ground (arith, e)
  vfsfopen-other fuel (some path) mode fd r s s' taken e = ground (
    arith,
    e,
    open_slot-other fuel path (find_free 61 s.vfs_open_files 3) fd r s s'
        (not_given fd s.vfs_open_files taken),
  )

  -- A call on a descriptor leaves the other descriptors as they are.
  pub vfsfclose-other :
      (fd r i : ℕ) (s s' : Vfs W)
      → (fd == i) ≡ false
      → vfsfclose fd s ≡ returned (r, s')
      → s'.vfs_open_files i ≡ s.vfs_open_files i
  unfolding vfsfclose on_slot
  vfsfclose-other fd r i s s' other e = elim (Option-cases (s.vfs_open_files fd).driver) [
    | inl null ↦ ground (arith, e, null)
    | inr (driver, set) ↦ ground (arith, e, set, other)
  ]

  pub vfsfread-files :
      (ptr size nmemb fd r i : ℕ) (s s' : Vfs W)
      → vfsfread ptr size nmemb fd s ≡ returned (r, s')
      → s'.vfs_open_files i ≡ s.vfs_open_files i
  unfolding vfsfread on_slot
  vfsfread-files ptr size nmemb fd r i s s' e = elim (Option-cases (s.vfs_open_files fd).driver) [
    | inl null ↦ ground (arith, e, null)
    | inr (driver, set) ↦ ground (arith, e, set)
  ]

  pub vfsfstat-files :
      (fd pstat r i : ℕ) (s s' : Vfs W)
      → vfsfstat fd pstat s ≡ returned (r, s')
      → s'.vfs_open_files i ≡ s.vfs_open_files i
  unfolding vfsfstat on_slot
  vfsfstat-files fd pstat r i s s' e = elim (Option-cases (s.vfs_open_files fd).driver) [
    | inl null ↦ ground (arith, e, null)
    | inr (driver, set) ↦ ground (arith, e, set)
  ]

  dir_at-files :
      (fuel : ℕ) (path : Text) (index p r i : ℕ) (s s' : Vfs W)
      → dir_at fuel path index p s ≡ returned (r, s')
      → s'.vfs_open_files i ≡ s.vfs_open_files i
  unfolding dir_at enter_dir
  dir_at-files zero path index p r i s s' e = absurd (ground (arith, e))
  dir_at-files (suc fuel) path index p r i s s' e = ground (
    arith,
    e,
    dir_at-files fuel path index (s.node p).next r i s s',
    dir_at-files fuel path index (s.node (s.node p).next).next r i s s',
  )

  dir_slot-files :
      (fuel : ℕ) (path : Option Text) (slot : Option ℕ) (r i : ℕ) (s s' : Vfs W)
      → dir_slot fuel path slot s ≡ returned (r, s')
      → s'.vfs_open_files i ≡ s.vfs_open_files i
  unfolding dir_slot
  dir_slot-files fuel path none r i s s' e = ground (arith, e)
  dir_slot-files fuel none (some index) r i s s' e = ground (arith, e)
  dir_slot-files fuel (some path) (some index) r i s s' e =
      ground (arith, e, dir_at-files fuel path index s.vfs_mfs r i s s')

  pub opendir-files :
      (fuel : ℕ) (path : Option Text) (r i : ℕ) (s s' : Vfs W)
      → opendir fuel path s ≡ returned (r, s')
      → s'.vfs_open_files i ≡ s.vfs_open_files i
  unfolding opendir
  opendir-files fuel path r i s s' e =
      dir_slot-files fuel path (find_dir 16 s.vfs_open_dirs 0 0) r i s s' e

  on_dir-files :
      (slot : Option ℕ) (missing : ℕ) (call : FsDriver W → W → ℕ × W) (done : ℕ → ℕ → W → ℕ × Vfs W)
      (r i : ℕ) (s s' : Vfs W)
      → ((index ret : ℕ) (w : W) → (done index ret w).1.vfs_open_files i ≡ s.vfs_open_files i)
      → on_dir slot missing call done s ≡ returned (r, s')
      → s'.vfs_open_files i ≡ s.vfs_open_files i
  unfolding on_dir
  on_dir-files none missing call done r i s s' keeps e = ground (arith, e)
  on_dir-files (some index) missing call done r i s s' keeps e =
      elim (Option-cases (s.vfs_open_dirs index).driver) [
        | inl null ↦ ground (arith, e, null)
        | inr (driver, set) ↦
            let (ret, w) = call driver s.world in ground (arith, e, set, keeps index ret w)
      ]

  pub readdir-files :
      (dir r i : ℕ) (s s' : Vfs W)
      → readdir dir s ≡ returned (r, s')
      → s'.vfs_open_files i ≡ s.vfs_open_files i
  unfolding readdir
  readdir-files dir r i s s' e = ground (
    arith,
    e,
    on_dir-files (find_dir 16 s.vfs_open_dirs 0 dir) 0 (λ driver w. driver.fsreaddir dir w)
        (λ index ret w. (ret, record s { world = w })) r i s s' (λ index ret w. refl),
  )

  pub closedir-files :
      (dir r i : ℕ) (s s' : Vfs W)
      → closedir dir s ≡ returned (r, s')
      → s'.vfs_open_files i ≡ s.vfs_open_files i
  unfolding closedir
  closedir-files dir r i s s' e = ground (
    arith,
    e,
    on_dir-files (find_dir 16 s.vfs_open_dirs 0 dir) minus_one (λ driver w. driver.fsclosedir dir w)
        (λ index ret w.
          (0, record s { vfs_open_dirs = update s.vfs_open_dirs index emptied; world = w }))
        r i s s' (λ index ret w. refl),
  )

  rewind_each-tables :
      (n i dir j : ℕ) (s s' : Vfs W)
      → rewind_each n i dir s ≡ returned s'
      → (s'.vfs_open_files j ≡ s.vfs_open_files j) × (s'.vfs_open_dirs j ≡ s.vfs_open_dirs j)
  unfolding rewind_each
  rewind_each-tables zero i dir j s s' e = ground (arith, e)
  rewind_each-tables (suc n) i dir j s s' e =
      elim (Bool-cases ((s.vfs_open_dirs i).handle == dir)) [
        | inr other ↦ ground (arith, e, other, rewind_each-tables n (i + 1) dir j s s')
        | inl here ↦ elim (Option-cases (s.vfs_open_dirs i).driver) [
          | inl null ↦ ground (arith, e, here, null)
          | inr (driver, set) ↦ ground (
            arith,
            e,
            here,
            set,
            rewind_each-tables n (i + 1) dir j (record s { world = driver.fsrewinddir dir s.world })
                s',
          )
        ]
      ]

  -- `rewinddir` changes neither table.
  pub rewinddir-tables :
      (dir j : ℕ) (s s' : Vfs W)
      → rewinddir dir s ≡ returned s'
      → (s'.vfs_open_files j ≡ s.vfs_open_files j) × (s'.vfs_open_dirs j ≡ s.vfs_open_dirs j)
  unfolding rewinddir
  rewinddir-tables dir j s s' e = ground (arith, e, rewind_each-tables 16 0 dir j s s')
