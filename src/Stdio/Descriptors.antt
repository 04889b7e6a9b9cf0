-- ===== src/Stdio/Descriptors.antt =====
-- A file from `_open` to `_close` of kernel/src/stdio.c.
use mnes_hrel.Common.{
  ℕ, ◌<◌, ◌≡◌, sym, ap, ◌∙◌, Bool, false, some, List, length, if◌then◌else◌, minus_one, Outcome,
  returned, and_then, Text, [], ◌∷◌, arith,
}
use mnes_hrel.Vfs.{FsDriver, MountNode, Vfs}
use mnes_hrel.Vfs.Files.{vfsfopen, vfsfclose}
use mnes_hrel.Vfs.Descriptor.{Found, after, open_lem, range_lem, vfsfopen-vfsfclose}
use mnes_hrel.Stdio.{is_standard, stdio_open, stdio_close}

module _ {W : Type 0} {path : Text} {ms : List (MountNode W)} {s : Vfs W} {index filemeta : ℕ}
    {driver : FsDriver W} {w : W} (f : Found path ms s index filemeta driver w) (fuel : ℕ)
    (enough : length ms < fuel) where
  own : is_standard index ≡ false
  own = ground (arith, (range_lem f fuel enough).0, (range_lem f fuel enough).1)

  closed :
      and_then (vfsfopen fuel (some path) (b'r' ∷ []) s) (λ r. vfsfclose r.0 r.1)
      ≡ vfsfclose index (after f fuel enough)
  closed =
      ap (λ (o : Outcome (ℕ × Vfs W)). and_then o (λ r. vfsfclose r.0 r.1)) (open_lem f fuel enough)

  -- If the search through the mounts finds a file for the path, no mount path is longer than the
  -- path, and a slot is free, then `_open` and `_close` on its result give 0 and the table that there was
  -- before; the driver that found the file closes the handle that it gave. Fuel for one round more than
  -- the mounts is enough.
  pub stdio_open-stdio_close :
      and_then (stdio_open fuel (some path) s) (λ r. stdio_close r.0 r.1)
      ≡ returned (0, record s { world = (driver.fsclosefile filemeta w).1 })
  unfolding stdio_open stdio_close
  stdio_open-stdio_close =
      ap (λ (o : Outcome (ℕ × Vfs W)). and_then o (λ r. stdio_close r.0 r.1))
        (open_lem f fuel enough)
      ∙ ap
          (λ (b : Bool).
            if b
            then returned (minus_one, after f fuel enough)
            else vfsfclose index (after f fuel enough))
          own
      ∙ sym closed
      ∙ vfsfopen-vfsfclose f fuel enough
