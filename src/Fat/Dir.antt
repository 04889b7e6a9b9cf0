-- ===== src/Fat/Dir.antt =====
-- Directories of kernel/src/fat32.c: their entries, and `fat_readdir`, `fat_rewinddir` and
-- `fat_closedir` on an open one.
pub mod Path
pub mod Reading
pub mod Listing
pub mod Names
pub mod Search
pub mod Opening
pub mod Descent
pub mod Below
use mnes_hrel.Common.{
  ℕ, zero, suc, ◌+◌, Bool, true, false, not, ◌&&◌, ◌||◌, Option, none, some, ◌==◌, ltb,
  if◌then◌else◌, update, minus_one, Outcome, returned, fault, runs_on, Text, [], ◌∷◌,
}

-- `dirent`, without `d_reclen`, which nothing sets.
pub record Dirent : Type 0 where
  pub d_type : ℕ
  pub d_name : ℕ → ℕ

-- A block of the heap.
pub record HeapBlock : Type 0 where
  pub bytes : ℕ → ℕ
  pub size : ℕ

-- `fat_dir`; `readptr` is the offset of the pointer in `data`, and 0 if both are NULL.
pub record FatDir : Type 0 where
  pub data_block : Option HeapBlock
  pub readptr : ℕ
  pub size : ℕ

-- `FAT_LONG_NAME_ENT`, at byte 11 of an entry.
abbrev pub is_long : (ℕ → ℕ) → ℕ → Bool
is_long b at = b (at + 11) == 0x0F

-- `memcpy` of `n` bytes into the name.
unfoldable pub copy_name : ℕ → (ℕ → ℕ) → ℕ → (ℕ → ℕ) → ℕ → ℕ → ℕ
copy_name zero b at d_name i = d_name
copy_name (suc n) b at d_name i = copy_name n b (at + 1) (update d_name i (b at)) (i + 1)

-- A loop over the characters of a long name: those that are neither 0 nor 0xFF go to `nameptr`.
unfoldable pub append_name : ℕ → (ℕ → ℕ) → ℕ → ℕ × (ℕ → ℕ) → ℕ × (ℕ → ℕ)
append_name zero b at out = out
append_name (suc n) b at (nameptr, d_name) = append_name n b (at + 1) (
    if not (b at == 0) && not (b at == 0xFF)
    then (nameptr + 1, update d_name nameptr (b at))
    else (nameptr, d_name))

-- The three loops over the parts of the name in the long entry at `at`, and the end mark.
unfoldable pub long_name : (ℕ → ℕ) → ℕ → (ℕ → ℕ) → ℕ → ℕ
unfolding append_name
long_name b at d_name =
    let (nameptr, filled) =
      append_name 4 b (at + 28)
        (append_name 12 b (at + 14) (append_name 10 b (at + 1) (0, d_name))) in
    update filled nameptr 0

-- The 11 bytes of a short name. The end mark comes at 12: byte 11 stays what it was.
unfoldable pub short_name : (ℕ → ℕ) → ℕ → (ℕ → ℕ) → ℕ → ℕ
unfolding copy_name
short_name b at d_name = update (copy_name 11 b at d_name 0) 12 0

-- `FAT_DIR_ENT` gives `DT_DIR`, and `FAT_ARCHIVE_ENT` gives `DT_REG`.
abbrev pub dirent_of : ℕ → (ℕ → ℕ) → Dirent
dirent_of attrflag d_name = record { d_type = if attrflag == 0x10 then 4 else 8; d_name = d_name }

-- The entry at offset `at` of the buffer: where the next is from there, or -1, and the `dirent`.
unfoldable pub fat_getdirent : HeapBlock → ℕ → Dirent → Outcome (ℕ × Dirent)
unfolding long_name short_name
fat_getdirent buffer at out =
    let b : ℕ → ℕ = buffer.bytes in
    let fdir : ℕ = if is_long b at then at + 32 else at in
    if not (ltb (at + 11) buffer.size) || not (ltb (fdir + 11) buffer.size)
    then fault
    else if b (fdir + 11) == 0x10 || b (fdir + 11) == 0x20
    then returned (
        if is_long b at
        then (64, dirent_of (b (fdir + 11)) (long_name b at out.d_name))
        else (32, dirent_of (b (fdir + 11)) (short_name b at out.d_name)))
    else returned (minus_one, out)

-- Whether an entry was read, and the directory and the static `rdir` then.
unfoldable pub next_entry :
    FatDir → Dirent → Outcome (ℕ × Dirent) → Outcome (Bool × FatDir × Dirent)
next_entry dir rdir (returned (next, entry)) =
    if next == minus_one
    then returned (false, record dir { readptr = dir.readptr + 32 }, entry)
    else returned (true, record dir { readptr = dir.readptr + next }, entry)
next_entry dir rdir fault = fault
next_entry dir rdir runs_on = runs_on

-- `false` is the result NULL; `rdir` is the static variable of the function.
unfoldable pub fat_readdir : FatDir → Dirent → Outcome (Bool × FatDir × Dirent)
unfolding next_entry fat_getdirent
fat_readdir dir rdir = elim dir.data_block [
  | none ↦ if ltb dir.readptr dir.size then fault else returned (false, dir, rdir)
  | some buffer ↦
      if ltb dir.readptr dir.size
      then next_entry dir rdir (fat_getdirent buffer dir.readptr rdir)
      else returned (false, dir, rdir)
]

abbrev pub fat_rewinddir : FatDir → FatDir
fat_rewinddir dir = record dir { readptr = 0 }

abbrev pub fat_closedir : FatDir → ℕ × FatDir
fat_closedir dir = (0, record { data_block = none; readptr = 0; size = 0 })
