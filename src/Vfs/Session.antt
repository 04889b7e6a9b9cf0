-- ===== src/Vfs/Session.antt =====
-- The calls of kernel/src/vfs.c one after the other, as steps on the state of its tables.
use mnes_hrel.Common.{
  ℕ, ◌≡◌, refl, ap, ◌∙◌, Bool, false, Option, ◌==◌, Outcome, returned, fault, runs_on, Text, arith,
}
use mnes_hrel.Vfs.{FsDriver, OpenSlot, Vfs, vfs_mount}
use mnes_hrel.Vfs.Mounting.{vfs_mount-tables}
use mnes_hrel.Vfs.Files.{is_free, vfsfopen, vfsfread, vfsfstat, vfsfclose}
use mnes_hrel.Vfs.Dirs.{opendir, readdir, closedir, rewinddir}
use mnes_hrel.Vfs.Tables.{
  vfsfopen-other, vfsfclose-other, vfsfread-files, vfsfstat-files, opendir-files, readdir-files,
  closedir-files, rewinddir-tables,
}

pub data Call (W : Type 0) : Type 0 where
  mount : ℕ → Option Text → Option (FsDriver W) → Call W
  open_file : Option Text → Text → Call W
  read_file : ℕ → ℕ → ℕ → ℕ → Call W
  stat_file : ℕ → ℕ → Call W
  close_file : ℕ → Call W
  open_dir : Option Text → Call W
  read_dir : ℕ → Call W
  close_dir : ℕ → Call W
  rewind_dir : ℕ → Call W

module _ {W : Type 0} where
  -- `rewinddir` is void: its result stands as 0.
  abbrev pub void : Outcome (Vfs W) → Outcome (ℕ × Vfs W)
  void (returned s) = returned (0, s)
  void fault = fault
  void runs_on = runs_on

  unfoldable pub run : ℕ → Call W → Vfs W → Outcome (ℕ × Vfs W)
  run fuel (mount fresh path fs) s = vfs_mount fuel fresh path fs s
  run fuel (open_file path mode) s = vfsfopen fuel path mode s
  run fuel (read_file ptr size nmemb fd) s = vfsfread ptr size nmemb fd s
  run fuel (stat_file fd pstat) s = vfsfstat fd pstat s
  run fuel (close_file fd) s = vfsfclose fd s
  run fuel (open_dir path) s = opendir fuel path s
  run fuel (read_dir dir) s = readdir dir s
  run fuel (close_dir dir) s = closedir dir s
  run fuel (rewind_dir dir) s = void (rewinddir dir s)

  abbrev pub closes : Call W → ℕ → Bool
  closes (close_file fd) other = fd == other
  closes (mount fresh path fs) other = false
  closes (open_file path mode) other = false
  closes (read_file ptr size nmemb fd) other = false
  closes (stat_file fd pstat) other = false
  closes (open_dir path) other = false
  closes (read_dir dir) other = false
  closes (close_dir dir) other = false
  closes (rewind_dir dir) other = false

-- Calls one after the other that all return, none of them `vfsfclose fd`.
pub data Steps {W : Type 0} (fd : ℕ) : Vfs W → Vfs W → Type 0 where
  done : {s : Vfs W} → Steps fd s s
  step :
      {s s' s'' : Vfs W} (fuel r : ℕ) (call : Call W)
      → closes call fd ≡ false
      → run fuel call s ≡ returned (r, s')
      → Steps fd s' s''
      → Steps fd s s''

module _ {W : Type 0} where
  void-returned :
      (o : Outcome (Vfs W)) (r : ℕ) (s' : Vfs W) → void o ≡ returned (r, s') → o ≡ returned s'
  void-returned (returned after) r s' e = ground (arith, e)
  void-returned fault r s' e = absurd (ground (arith, e))
  void-returned runs_on r s' e = absurd (ground (arith, e))

  run-other :
      (call : Call W) (fd fuel r : ℕ) (s s' : Vfs W)
      → closes call fd ≡ false
      → is_free (s.vfs_open_files fd) ≡ false
      → run fuel call s ≡ returned (r, s')
      → s'.vfs_open_files fd ≡ s.vfs_open_files fd
  unfolding run
  run-other (mount fresh path fs) fd fuel r s s' other taken e =
      (vfs_mount-tables fuel fresh r path fs s s' fd e).0
  run-other (open_file path mode) fd fuel r s s' other taken e =
      vfsfopen-other fuel path mode fd r s s' taken e
  run-other (read_file ptr size nmemb at) fd fuel r s s' other taken e =
      vfsfread-files ptr size nmemb at r fd s s' e
  run-other (stat_file at pstat) fd fuel r s s' other taken e = vfsfstat-files at pstat r fd s s' e
  run-other (close_file at) fd fuel r s s' other taken e = vfsfclose-other at r fd s s' other e
  run-other (open_dir path) fd fuel r s s' other taken e = opendir-files fuel path r fd s s' e
  run-other (read_dir dir) fd fuel r s s' other taken e = readdir-files dir r fd s s' e
  run-other (close_dir dir) fd fuel r s s' other taken e = closedir-files dir r fd s s' e
  run-other (rewind_dir dir) fd fuel r s s' other taken e =
      (rewinddir-tables dir fd s s' (void-returned (rewinddir dir s) r s' e)).0

  -- Through any sequence of calls that return, on other descriptors, on directories and for
  -- mounts, a descriptor in use keeps its handle and its driver, as long as `vfsfclose` does not
  -- get it.
  pub Steps-kept :
      (fd : ℕ) {s s' : Vfs W}
      → Steps fd s s'
      → is_free (s.vfs_open_files fd) ≡ false
      → s'.vfs_open_files fd ≡ s.vfs_open_files fd
  Steps-kept fd done taken = refl
  Steps-kept fd {s} (step {s'} fuel r call other e rest) taken =
      let same : s'.vfs_open_files fd ≡ s.vfs_open_files fd =
        run-other call fd fuel r s s' other taken e in
      Steps-kept fd rest (ap (λ (slot : OpenSlot W). is_free slot) same ∙ taken) ∙ same
