-- ===== src/Fat/Dir/Names.antt =====
-- Names of the short entries of kernel/src/fat32.c as strings.
use mnes_hrel.Common.{
  ℕ, zero, suc, ◌+◌, ◌-◌, ◌≤◌, ◌<◌, ◌≡◌, refl, ◌∙◌, true, ◌==◌, update, Text, [], ◌∷◌, strcmp,
  arith, ◌⊎◌, returned, Bool-cases, inl, inr,
}
use mnes_hrel.Fat.Dir.{Dirent, HeapBlock, copy_name, short_name, dirent_of, fat_getdirent}
use mnes_hrel.Fat.Dir.Path.{c_text, name_of}

pub strcmp_refl : (s : Text) → strcmp s s ≡ true
unfolding strcmp
strcmp_refl [] = refl
strcmp_refl (c ∷ s) = ground (arith, strcmp_refl s)

copy_name_outside :
    (n : ℕ) (b : ℕ → ℕ) (at : ℕ) (d : ℕ → ℕ) (i j : ℕ)
    → j < i ⊎ i + n ≤ j
    → copy_name n b at d i j ≡ d j
unfolding copy_name
copy_name_outside zero b at d i j out = refl
copy_name_outside (suc n) b at d i j out =
    ground (arith, copy_name_outside n b (at + 1) (update d i (b at)) (i + 1) j)

copy_name_inside :
    (n : ℕ) (b : ℕ → ℕ) (at : ℕ) (d : ℕ → ℕ) (i j : ℕ)
    → i ≤ j
    → j < i + n
    → copy_name n b at d i j ≡ b (at + (j - i))
unfolding copy_name
copy_name_inside zero b at d i j low high = absurd (omega arith)
copy_name_inside (suc n) b at d i j low high = elim (Bool-cases (i == j)) [
  | inl here ↦ ground (arith, here, copy_name_outside n b (at + 1) (update d i (b at)) (i + 1) j)
  | inr other ↦
      let rest : copy_name n b (at + 1) (update d i (b at)) (i + 1) j ≡ b (at + 1 + (j - (i + 1))) =
        copy_name_inside n b (at + 1) (update d i (b at)) (i + 1) j (ground (arith, other))
          (omega arith) in
      ground (arith, other, rest)
]

-- A string that ends behind `n` bytes at the latest.
c_text-cut :
    (n m : ℕ) (d b : ℕ → ℕ) (i at : ℕ)
    → ((j : ℕ) → j < n → d (i + j) ≡ b (at + j))
    → d (i + n) ≡ 0
    → n < m
    → c_text m d i ≡ c_text n b at
unfolding c_text
c_text-cut n zero d b i at same end h = absurd (omega arith)
c_text-cut zero (suc m) d b i at same end h = ground (arith, end)
c_text-cut (suc n) (suc m) d b i at same end h =
    let rest : c_text m d (i + 1) ≡ c_text n b (at + 1) =
      c_text-cut n m d b (i + 1) (at + 1) (λ j below. ground (arith, same (j + 1)))
        (ground (arith, end)) (omega arith) in
    let first : d i ≡ b at = ground (arith, same 0) in rw first (rw rest refl)

-- The 11 bytes of a short entry's name as a string.
abbrev pub short_text : (ℕ → ℕ) → ℕ → Text
short_text b at = c_text 11 b at

-- An entry for a file or a directory without a long name.
abbrev pub IsShort : (ℕ → ℕ) → ℕ → Type 0
IsShort b at = (b (at + 11) ≡ 0x10) ⊎ (b (at + 11) ≡ 0x20)

module _ (buffer : HeapBlock) (at : ℕ) (out : Dirent) where
  abbrev b : ℕ → ℕ
  b = buffer.bytes

  abbrev pub short_entry : Dirent
  short_entry = dirent_of (b (at + 11)) (short_name b at out.d_name)

  pub fat_getdirent-short :
      IsShort b at
      → at + 32 ≤ buffer.size
      → fat_getdirent buffer at out ≡ returned (32, short_entry)
  unfolding fat_getdirent
  fat_getdirent-short (inl folder) fits = ground (arith, folder)
  fat_getdirent-short (inr file) fits = ground (arith, file)

  name_byte : (j : ℕ) → j < 11 → short_entry.d_name (0 + j) ≡ b (at + j)
  unfolding short_name
  name_byte j h =
      let copied : copy_name 11 b at out.d_name 0 j ≡ b (at + (j - 0)) =
        copy_name_inside 11 b at out.d_name 0 j (omega arith) (omega arith) in
      ground (arith, copied)

  -- Behind the name the array keeps what it had.
  pub short_name-kept : short_entry.d_name 11 ≡ out.d_name 11
  unfolding short_name
  short_name-kept =
      let kept : copy_name 11 b at out.d_name 0 11 ≡ out.d_name 11 =
        copy_name_outside 11 b at out.d_name 0 11 (inr (omega arith)) in
      ground (arith, kept)

  -- If the array has a 0 behind the name, the entry's name is the one in the directory.
  pub name_of-short : out.d_name 11 ≡ 0 → name_of short_entry ≡ short_text b at
  name_of-short end =
      c_text-cut 11 256 short_entry.d_name b 0 at name_byte (short_name-kept ∙ end) (omega arith)
