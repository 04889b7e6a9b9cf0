-- ===== src/Vfs/Descriptor.antt =====
-- What a descriptor of `vfsfopen` stands for in `vfsfread`, `vfsfstat` and `vfsfclose` of
-- kernel/src/vfs.c.
use mnes_hrel.Common.{
  ℕ, zero, suc, ◌+◌, ◌*◌, ◌≤◌, ◌<◌, ◌≡◌, ◌≢◌, sym, ap, ◌∙◌, true, false, Option, some, List, ◌==◌,
  update, u32, Outcome, returned, and_then, Text, length, [], ◌∷◌, arith, Bool-cases, eq_of_==,
  Option-cases, inl, inr,
}
use mnes_hrel.Vfs.{FsDriver, MountNode, OpenSlot, Vfs}
use mnes_hrel.Vfs.Files.{
  is_free, find_free, filled, emptied, vfsfopen, vfsfread, vfsfclose, on_slot,
}
use mnes_hrel.Vfs.Opening.{Mounts, find_file, opened, vfsfopen-find_file}

-- The slot that `find_free` gives is free and one of the `n` from `i` on, and those before it are not.
pub record FirstFree {W : Type 0} (n : ℕ) (slots : ℕ → OpenSlot W) (i k : ℕ) : Type 0 where
  pub low : i ≤ k
  pub high : k < i + n
  pub free : is_free (slots k) ≡ true
  pub taken_before : (j : ℕ) → i ≤ j → j < k → is_free (slots j) ≡ false

module _ {W : Type 0} where
  pub find_free-FirstFree :
      (n : ℕ) (slots : ℕ → OpenSlot W) (i k : ℕ)
      → find_free n slots i ≡ some k
      → FirstFree n slots i k
  unfolding find_free
  find_free-FirstFree zero slots i k e = absurd (ground (arith, e))
  find_free-FirstFree (suc n) slots i k e = elim (Bool-cases (is_free (slots i))) [
    | inl free ↦
        let here : i ≡ k = ground (arith, e, free) in
        record {
          low = omega (arith, here);
          high = omega (arith, here);
          free = ap (λ (j : ℕ). is_free (slots j)) (sym here) ∙ free;
          taken_before = λ j lo hi. absurd (omega (arith, here));
        }
    | inr taken ↦
        let rest : FirstFree n slots (i + 1) k =
          find_free-FirstFree n slots (i + 1) k (ground (arith, e, taken)) in
        record {
          low = omega (arith, rest.low);
          high = omega (arith, rest.high);
          free = rest.free;
          taken_before = λ j lo hi. elim (Bool-cases (i == j)) [
            | inl same ↦ ap (λ (a : ℕ). is_free (slots a)) (sym (eq_of_== i j same)) ∙ taken
            | inr other ↦ rest.taken_before j (ground (arith, other)) hi
          ];
        }
  ]

  free_slot : (slot : OpenSlot W) → is_free slot ≡ true → slot ≡ emptied
  free_slot slot e = elim (Option-cases slot.driver) [
    | inl null ↦
        let zero_lem : slot.handle ≡ 0 = ground (arith, e) in
        λ t. record { handle = zero_lem t; driver = null t }
    | inr (driver, set) ↦ absurd (ground (arith, e, set))
  ]

  -- Emptying a slot that was free brings the table back.
  pub update-emptied :
      (slots : ℕ → OpenSlot W) (i : ℕ) (new : OpenSlot W)
      → is_free (slots i) ≡ true
      → update (update slots i new) i emptied ≡ slots
  update-emptied slots i new free =
      let pointwise : (j : ℕ) → update (update slots i new) i emptied j ≡ slots j = λ j.
        elim (Bool-cases (i == j)) [
          | inl same ↦
              ground (arith, same) ∙ sym (free_slot (slots i) free) ∙ ap slots (eq_of_== i j same)
          | inr other ↦ ground (arith, other)
        ] in
      λ t j. pointwise j t

-- A search that found `filemeta` of `driver` and left the state `w`, for the free slot `index`.
pub record Found {W : Type 0} (path : Text) (ms : List (MountNode W)) (s : Vfs W)
    (index filemeta : ℕ) (driver : FsDriver W) (w : W) : Type 0 where
  pub mounts : Mounts s.node path s.vfs_mfs ms
  pub slot : find_free 61 s.vfs_open_files 3 ≡ some index
  pub found : find_file path ms s.world ≡ (some (filemeta, driver), w)
  pub set : filemeta ≢ 0

module _ {W : Type 0} {path : Text} {ms : List (MountNode W)} {s : Vfs W} {index filemeta : ℕ}
    {driver : FsDriver W} {w : W} (f : Found path ms s index filemeta driver w) (fuel : ℕ)
    (enough : length ms < fuel) where
  -- The descriptor is none of the standard streams.
  pub range_lem : (3 ≤ index) × (index < 64)
  range_lem =
      let free : FirstFree 61 s.vfs_open_files 3 index =
        find_free-FirstFree 61 s.vfs_open_files 3 index f.slot in
      (free.low, omega (arith, free.high))

  free_lem : is_free (s.vfs_open_files index) ≡ true
  free_lem = (find_free-FirstFree 61 s.vfs_open_files 3 index f.slot).free

  abbrev pub after : Vfs W
  after = record s {
    vfs_open_files = update s.vfs_open_files index (filled filemeta driver);
    world = w;
  }

  pub open_lem : vfsfopen fuel (some path) (b'r' ∷ []) s ≡ returned (index, after)
  open_lem =
      vfsfopen-find_file fuel path s ms f.mounts enough
      ∙ ap (λ (o : Option ℕ). returned (opened s o (find_file path ms s.world))) f.slot
      ∙ ap (λ (o : Option (ℕ × FsDriver W) × W). returned (opened s (some index) o)) f.found

  -- If the search through the mounts finds a file for the path, no mount path is longer than the
  -- path, and a slot is free, then opening the path for reading and reading from the descriptor
  -- reads through the driver that found the file, by the handle that it gave. Fuel for one round
  -- more than the mounts is enough.
  pub vfsfopen-vfsfread :
      (ptr size nmemb : ℕ)
      → and_then (vfsfopen fuel (some path) (b'r' ∷ []) s) (λ r. vfsfread ptr size nmemb r.0 r.1)
        ≡ returned (
          (driver.fsreadfile ptr (u32 (size * nmemb)) filemeta w).0,
          record after { world = (driver.fsreadfile ptr (u32 (size * nmemb)) filemeta w).1 },
        )
  unfolding vfsfread on_slot
  vfsfopen-vfsfread ptr size nmemb =
      ap (λ (o : Outcome (ℕ × Vfs W)). and_then o (λ r. vfsfread ptr size nmemb r.0 r.1)) open_lem
      ∙ ground (arith, range_lem, f.set)

  -- If the search through the mounts finds a file for the path, no mount path is longer than the
  -- path, and a slot is free, then opening the path for reading and closing the descriptor at once
  -- returns 0 and gives the table that there was before; the driver that found the file closes the
  -- handle that it gave. Fuel for one round more than the mounts is enough.
  pub vfsfopen-vfsfclose :
      and_then (vfsfopen fuel (some path) (b'r' ∷ []) s) (λ r. vfsfclose r.0 r.1)
      ≡ returned (0, record s { world = (driver.fsclosefile filemeta w).1 })
  unfolding vfsfclose on_slot
  vfsfopen-vfsfclose =
      ap (λ (o : Outcome (ℕ × Vfs W)). and_then o (λ r. vfsfclose r.0 r.1)) open_lem
      ∙ ground (arith, range_lem, f.set)
      ∙ ap
          (λ (slots : ℕ → OpenSlot W).
            returned
              (0, record s { vfs_open_files = slots; world = (driver.fsclosefile filemeta w).1 }))
          (update-emptied s.vfs_open_files index (filled filemeta driver) free_lem)
