-- ===== src/Vfs/Files.antt =====
-- Open files: `vfsfopen`, `vfsfclose`, `vfsfread` and `vfsfstat` of kernel/src/vfs.c.
use mnes_hrel.Common.{
  ℕ, zero, suc, ◌+◌, ◌*◌, Bool, true, false, not, ◌&&◌, Option, none, some, ◌==◌, ltb,
  if◌then◌else◌, update, minus_one, u32, Outcome, returned, fault, runs_on, Text, length, [], ◌∷◌,
  strcmp, drop,
}
use mnes_hrel.Vfs.{FsDriver, MountNode, OpenSlot, Vfs}

abbrev pub is_null : {A : Type 0} → Option A → Bool
is_null none = true
is_null (some a) = false

module _ {W : Type 0} where
  -- `meta == NULL && driver == NULL`.
  abbrev pub is_free : OpenSlot W → Bool
  is_free slot = slot.handle == 0 && is_null slot.driver

  -- The index of the first free slot among the `n` from `i` on.
  unfoldable pub find_free : ℕ → (ℕ → OpenSlot W) → ℕ → Option ℕ
  find_free zero slots i = none
  find_free (suc n) slots i = if is_free (slots i) then some i else find_free n slots (i + 1)

  abbrev pub filled : ℕ → FsDriver W → OpenSlot W
  filled handle driver = record { handle = handle; driver = some driver }

  abbrev pub emptied : OpenSlot W
  emptied = record { handle = 0; driver = none }

  -- The rounds of the loop over the mount nodes, for the free slot `index`. After a mount path longer
  -- than the path the loop steps twice, the second time from where the first step led.
  unfoldable pub open_at : ℕ → Text → ℕ → ℕ → Vfs W → Outcome (ℕ × Vfs W)
  open_at zero path index itr s = runs_on
  open_at (suc fuel) path index itr s =
      let mount : MountNode W = s.node itr in
      let skipped : Outcome (ℕ × Vfs W) = open_at fuel path index (s.node mount.next).next s in
      let (filemeta, world) =
        mount.vfs_driver.fsopenfile (drop (length mount.mountpath) path) s.world in
      let after : Vfs W = record s { world = world } in
      let rest : Outcome (ℕ × Vfs W) = open_at fuel path index mount.next after in
      if itr == 0
      then returned (minus_one, s)
      else if ltb (length path) (length mount.mountpath)
      then (if mount.next == 0 then fault else skipped)
      else if strcmp path mount.mountpath
      then returned (minus_one, s)
      else if not (filemeta == 0)
      then returned (
        index,
        record after {
          vfs_open_files = update s.vfs_open_files index (filled filemeta mount.vfs_driver);
        },
      )
      else rest

  -- The search for a slot, and then for the file.
  unfoldable pub open_slot : ℕ → Text → Option ℕ → Vfs W → Outcome (ℕ × Vfs W)
  unfolding open_at
  open_slot fuel path none s = returned (minus_one, s)
  open_slot fuel path (some index) s = open_at fuel path index s.vfs_mfs s

  -- Another mode than "r" gives NULL, which as a descriptor is 0.
  unfoldable pub vfsfopen : ℕ → Option Text → Text → Vfs W → Outcome (ℕ × Vfs W)
  unfolding open_slot find_free
  vfsfopen fuel none mode s =
      if not (strcmp mode (b'r' ∷ [])) then returned (0, s) else returned (minus_one, s)
  vfsfopen fuel (some path) mode s =
      if not (strcmp mode (b'r' ∷ []))
      then returned (0, s)
      else if s.vfs_mfs == 0
      then returned (minus_one, s)
      else open_slot fuel path (find_free 61 s.vfs_open_files 3) s

  -- What the calls on a descriptor do with its slot; `call` is the driver's function.
  unfoldable pub on_slot :
      OpenSlot W → (FsDriver W → ℕ → W → ℕ × W) → (ℕ → W → ℕ × Vfs W) → Vfs W → Outcome (ℕ × Vfs W)
  on_slot slot call done s = elim slot.driver [
    | none ↦ returned (minus_one, s)
    | some driver ↦
        let (ret, world) = call driver slot.handle s.world in
        if slot.handle == 0 then returned (minus_one, s) else returned (done ret world)
  ]

  -- The table has 64 slots: an index past it is a fault.
  unfoldable pub vfsfclose : ℕ → Vfs W → Outcome (ℕ × Vfs W)
  unfolding on_slot
  vfsfclose fd s =
      if ltb fd 64
      then on_slot (s.vfs_open_files fd) (λ driver meta w. driver.fsclosefile meta w)
          (λ ret w.
            (0, record s { vfs_open_files = update s.vfs_open_files fd emptied; world = w }))
          s
      else fault

  unfoldable pub vfsfread : ℕ → ℕ → ℕ → ℕ → Vfs W → Outcome (ℕ × Vfs W)
  unfolding on_slot
  vfsfread ptr size nmemb fd s =
      if ltb fd 64
      then on_slot (s.vfs_open_files fd)
          (λ driver meta w. driver.fsreadfile ptr (u32 (size * nmemb)) meta w)
          (λ ret w. (ret, record s { world = w })) s
      else fault

  unfoldable pub vfsfstat : ℕ → ℕ → Vfs W → Outcome (ℕ × Vfs W)
  unfolding on_slot
  vfsfstat fd pstat s =
      if ltb fd 64
      then on_slot (s.vfs_open_files fd) (λ driver meta w. driver.fsfstat meta pstat w)
          (λ ret w. (ret, record s { world = w })) s
      else fault
