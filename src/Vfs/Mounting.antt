-- ===== src/Vfs/Mounting.antt =====
-- `vfs_mount` of kernel/src/vfs.c.
use mnes_hrel.Common.{
  ℕ, zero, suc, ◌<◌, ◌≡◌, ◌≢◌, refl, Bool, true, false, not, Option, none, some, List, ◌==◌,
  if◌then◌else◌, update, minus_one, Outcome, returned, fault, runs_on, Text, length, [], ◌∷◌, arith,
}
use mnes_hrel.Vfs.{FsDriver, MountNode, Vfs, vfs_mount, add_mount, append_mount, path_in_use}

-- The nodes from `p` on are the listed ones.
pub data Linked {W : Type 0} (node : ℕ → MountNode W) : ℕ → List (MountNode W) → Type 0 where
  ended : Linked node 0 []
  linked :
      {p : ℕ} {ms : List (MountNode W)}
      → p ≢ 0
      → Linked node (node p).next ms
      → Linked node p (node p ∷ ms)

module _ {W : Type 0} where
  -- Whether a driver of the list opens the path as a directory, asked until one does.
  abbrev pub known : Text → List (MountNode W) → W → Bool × W
  known path [] w = (false, w)
  known path (m ∷ ms) w =
      let (dir, world) = m.vfs_driver.fsopendir path w in
      if dir == 0 then known path ms world else (true, world)

  pub append_mount-runs_on :
      (fuel nmnt itr : ℕ) (s : Vfs W) → append_mount fuel nmnt itr s ≡ runs_on
  unfolding append_mount
  append_mount-runs_on zero nmnt itr s = refl
  append_mount-runs_on (suc fuel) nmnt itr s =
      append_mount-runs_on fuel nmnt
        (if not ((s.node itr).next == 0) then (s.node itr).next else itr)
        (if not ((s.node itr).next == 0) then s else record s {
          node =
              update (update s.node itr (record (s.node itr) { next = nmnt })) nmnt
                (record (update s.node itr (record (s.node itr) { next = nmnt }) nmnt) {
                  prev = itr;
                });
        })

  -- What the mounts change of the tables of open files and directories: nothing.
  pub add_mount-tables :
      (fuel fresh r : ℕ) (path : Text) (fs : FsDriver W) (o : Outcome (Bool × Vfs W)) (s' : Vfs W)
      → add_mount fuel fresh path fs o ≡ returned (r, s')
      → o ≡ returned (true, s')
  unfolding add_mount
  add_mount-tables fuel fresh r path fs (returned (true, s)) s' e = ground (arith, e)
  add_mount-tables fuel fresh r path fs (returned (false, s)) s' e = ground (
    arith,
    e,
    append_mount-runs_on fuel fresh s.vfs_mfs (record s {
      node = update s.node fresh (record (s.node fresh) { vfs_driver = fs; mountpath = path });
    }),
  )
  add_mount-tables fuel fresh r path fs fault s' e = ground (arith, e)
  add_mount-tables fuel fresh r path fs runs_on s' e = ground (arith, e)

  path_in_use-tables :
      (fuel : ℕ) (path : Text) (itr : ℕ) (b : Bool) (s s' : Vfs W) (i : ℕ)
      → path_in_use fuel path itr s ≡ returned (b, s')
      → (s'.vfs_open_files i ≡ s.vfs_open_files i) × (s'.vfs_open_dirs i ≡ s.vfs_open_dirs i)
  unfolding path_in_use
  path_in_use-tables zero path itr b s s' i e = absurd (ground (arith, e))
  path_in_use-tables (suc fuel) path itr b s s' i e =
      let (dir, w) = (s.node itr).vfs_driver.fsopendir path s.world in
      ground
        (arith, e, path_in_use-tables fuel path (s.node itr).next b (record s { world = w }) s' i)

  -- The tables of open files and directories are not changed by a mount that returns.
  pub vfs_mount-tables :
      (fuel fresh r : ℕ) (path : Option Text) (fs : Option (FsDriver W)) (s s' : Vfs W) (i : ℕ)
      → vfs_mount fuel fresh path fs s ≡ returned (r, s')
      → (s'.vfs_open_files i ≡ s.vfs_open_files i) × (s'.vfs_open_dirs i ≡ s.vfs_open_dirs i)
  unfolding vfs_mount
  vfs_mount-tables fuel fresh r path none s s' i e = ground (arith, e)
  vfs_mount-tables fuel fresh r none (some fs) s s' i e = ground (arith, e)
  vfs_mount-tables fuel fresh r (some path) (some fs) s s' i e = ground (
    arith,
    e,
    add_mount-tables fuel fresh r path fs (path_in_use fuel path s.vfs_mfs s) s',
    path_in_use-tables fuel path s.vfs_mfs true s s' i,
  )

  path_in_use-known :
      (fuel : ℕ) (path : Text) (p : ℕ) (s : Vfs W) (ms : List (MountNode W))
      → Linked s.node p ms
      → length ms < fuel
      → path_in_use fuel path p s
        ≡ returned ((known path ms s.world).0, record s { world = (known path ms s.world).1 })
  unfolding path_in_use
  path_in_use-known zero path p s ms chain h = absurd (omega arith)
  path_in_use-known (suc fuel) path p s [] ended h = refl
  path_in_use-known (suc fuel) path p s (m ∷ ms) (linked set chain) h =
      let (dir, w) = (s.node p).vfs_driver.fsopendir path s.world in
      let rest =
        path_in_use-known fuel path (s.node p).next (record s { world = w }) ms chain
          (omega arith) in
      ground (arith, rest, set)

  -- A mount with a path beside the first, with fuel for more rounds than there are mounts, returns
  -- only if a mounted driver opens the path as one of its directories, and with -1 then. If none
  -- does, the call is still running at the end of any such fuel.
  pub vfs_mount-known :
      (fuel fresh : ℕ) (path : Text) (fs : FsDriver W) (s : Vfs W) (ms : List (MountNode W))
      → s.vfs_mfs ≢ 0
      → Linked s.node s.vfs_mfs ms
      → length ms < fuel
      → vfs_mount fuel fresh (some path) (some fs) s ≡ (
          if (known path ms s.world).0
          then returned (minus_one, record s { world = (known path ms s.world).1 })
          else runs_on)
  unfolding vfs_mount add_mount
  vfs_mount-known fuel fresh path fs s ms set chain h =
      let (found, w) = known path ms s.world in
      ground (
        arith,
        set,
        path_in_use-known fuel path s.vfs_mfs s ms chain h,
        append_mount-runs_on fuel fresh s.vfs_mfs (record s {
          node = update s.node fresh (record (s.node fresh) { vfs_driver = fs; mountpath = path });
          world = w;
        }),
      )
