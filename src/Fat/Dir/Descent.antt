-- ===== src/Fat/Dir/Descent.antt =====
-- `fat_opendir` and `fat_fopen` of kernel/src/fat32.c on a folder of the root directory.
use mnes_hrel.Common.{
  ℕ, zero, suc, ◌+◌, ◌*◌, ◌≤◌, ◌<◌, ◌≡◌, refl, sym, subst, ap, ◌∙◌, Bool, true, false, Option, none,
  List, not, ◌==◌, ltb, if◌then◌else◌, minus_one, u32, Text, [], ◌∷◌, strcmp, arith, ◌⊎◌, inl, inr,
  Bool-cases, Outcome, returned, and_then,
}
use mnes_hrel.Fat.Volume.{FatFs}
use mnes_hrel.Fat.Dir.{Dirent, HeapBlock, FatDir, fat_getdirent}
use mnes_hrel.Fat.Dir.Path.{open_cluster, cluster_at, name_of, enter_at, nextread}
use mnes_hrel.Fat.Dir.Names.{
  short_text, IsShort, fat_getdirent-short, short_name-kept, name_of-short, short_entry,
}

-- From `p` on, `k` short entries with another name or for a file, and then that of a folder with
-- this name.
pub record FolderAt (b : ℕ → ℕ) (word : Text) (p k : ℕ) : Type 0 where
  pub before : (j : ℕ) → j < k → IsShort b (p + 32 * j)
  pub other :
      (j : ℕ)
      → j < k
      → (strcmp (short_text b (p + 32 * j)) word ≡ false) ⊎ (b (p + 32 * j + 11) ≡ 0x20)
  pub folder : b (p + 32 * k + 11) ≡ 0x10
  pub name : strcmp (short_text b (p + 32 * k)) word ≡ true

rest-FolderAt :
    {b : ℕ → ℕ} {word : Text} {p k : ℕ} → FolderAt b word p (suc k) → FolderAt b word (p + 32) k
rest-FolderAt {b} {word} {p} {k} h =
    let at : (j : ℕ) → p + 32 + 32 * j ≡ p + 32 * (j + 1) = λ j. omega arith in
    let last : p + 32 + 32 * k ≡ p + 32 * suc k = omega arith in
    record {
      before = λ j below. rw (at j) (h.before (j + 1) (omega arith));
      other = λ j below. rw (at j) (h.other (j + 1) (omega arith));
      folder = rw last h.folder;
      name = rw last h.name;
    }

-- What the loop at `nextread` comes to: the directory of the entry at `at`, with at least the fuel that is
-- needed for it.
pub record Descends (needed : ℕ) (fresh : ℕ → ℕ) (fs : FatFs) (buffer : HeapBlock) (at : ℕ)
    (o : Outcome (Option FatDir)) : Type 0 where
  pub left : ℕ
  pub enough : needed ≤ left
  pub comes_back : o ≡ open_cluster left fresh (cluster_at buffer.bytes at) fs

-- An entry in the loop, for the last word.
module _ (fuel : ℕ) (fresh : ℕ → ℕ) (fs : FatFs) (word : Text) (buffer : HeapBlock) (p next : ℕ)
    (dir : Dirent) (pass : Outcome (Option FatDir))
    (deeper : List Text → ℕ × HeapBlock → Outcome (Option FatDir)) where
  enter_at-hit :
      dir.d_type ≡ 4
      → strcmp (name_of dir) word ≡ true
      → (at : ℕ) → u32 (p + next + 4294967264) ≡ at
      → at + 27 < buffer.size
      → enter_at fuel fresh fs (word ∷ []) buffer p (next, dir) pass deeper
        ≡ open_cluster fuel fresh (cluster_at buffer.bytes at) fs
  unfolding enter_at
  enter_at-hit kind same at back inside =
      let block : ltb (at + 27) buffer.size ≡ true = ground (arith, inside) in
      rw kind (rw same (rw back (rw block refl)))

  enter_at-miss :
      (strcmp (name_of dir) word ≡ false) ⊎ (dir.d_type ≡ 8)
      → enter_at fuel fresh fs (word ∷ []) buffer p (next, dir) pass deeper ≡ pass
  unfolding enter_at
  enter_at-miss (inr file) = rw file refl
  enter_at-miss (inl other) = elim (Bool-cases (dir.d_type == 4)) [
    | inl kind ↦ rw other (rw kind refl)
    | inr kind ↦ rw other (rw kind refl)
  ]

module _ (fresh : ℕ → ℕ) (fs : FatFs) (word : Text) (buffer : HeapBlock) (size : ℕ)
    (fits : size ≤ buffer.size) (small : size < 2147483648) where
  name_test :
      (p : ℕ) (dir : Dirent) (t : Bool)
      → dir.d_name 11 ≡ 0
      → strcmp (short_text buffer.bytes p) word ≡ t
      → strcmp (name_of (short_entry buffer p dir)) word ≡ t
  name_test p dir t end e = ap (λ (s : Text). strcmp s word) (name_of-short buffer p dir end) ∙ e

  miss :
      (p : ℕ) (dir : Dirent)
      → dir.d_name 11 ≡ 0
      → (strcmp (short_text buffer.bytes p) word ≡ false) ⊎ (buffer.bytes (p + 11) ≡ 0x20)
      → (strcmp (name_of (short_entry buffer p dir)) word ≡ false)
        ⊎ ((short_entry buffer p dir).d_type ≡ 8)
  miss p dir end (inl other) = inl (name_test p dir false end other)
  miss p dir end (inr file) = inr (ground (arith, file))

  nextread-entry :
      (fuel p : ℕ) (dir : Dirent)
      → IsShort buffer.bytes p
      → p + 32 ≤ size
      → nextread (suc fuel) fresh fs (word ∷ []) buffer size p dir
        ≡ enter_at fuel fresh fs
            (word ∷ [])
            buffer
            p
            (32, short_entry buffer p dir)
            (nextread fuel fresh fs (word ∷ []) buffer size (p + 32) (short_entry buffer p dir))
            (λ words got. nextread fuel fresh fs words got.1 got.0 0 (short_entry buffer p dir))
  unfolding nextread
  nextread-entry fuel p dir short inside =
      let found : fat_getdirent buffer p dir ≡ returned (32, short_entry buffer p dir) =
        fat_getdirent-short buffer p dir short (omega (arith, fits)) in
      let more : ltb p size ≡ true = ground arith in
      ap
        (λ (t : Bool).
          if not t
          then returned none
          else and_then (fat_getdirent buffer p dir) (λ entry.
            enter_at fuel fresh fs (word ∷ []) buffer p entry
              (nextread fuel fresh fs (word ∷ []) buffer size
                (p + (if entry.0 == minus_one then 32 else entry.0)) entry.1)
              (λ words got. nextread fuel fresh fs words got.1 got.0 0 entry.1)))
        more
      ∙ ap
          (λ (o : Outcome (ℕ × Dirent)). and_then o (λ entry.
            enter_at fuel fresh fs (word ∷ []) buffer p entry
              (nextread fuel fresh fs (word ∷ []) buffer size
                (p + (if entry.0 == minus_one then 32 else entry.0)) entry.1)
              (λ words got. nextread fuel fresh fs words got.1 got.0 0 entry.1)))
          found

  pub nextread-Descends :
      (fuel k p needed : ℕ) (dir : Dirent)
      → FolderAt buffer.bytes word p k
      → dir.d_name 11 ≡ 0
      → p + 32 * k + 32 ≤ size
      → k + 1 + needed ≤ fuel
      → Descends needed fresh fs buffer
          (p + 32 * k)
          (nextread fuel fresh fs (word ∷ []) buffer size p dir)
  nextread-Descends zero k p needed dir h end inside enough = absurd (omega arith)
  nextread-Descends (suc fuel) zero p needed dir h end inside enough =
      let at : p + 32 * 0 ≡ p = omega arith in
      let folder : buffer.bytes (p + 11) ≡ 0x10 = rw (sym at) h.folder in
      let same : strcmp (short_text buffer.bytes p) word ≡ true = rw (sym at) h.name in
      record {
        left = fuel;
        enough = omega arith;
        comes_back =
            nextread-entry fuel p dir (inl folder) (omega arith)
            ∙ enter_at-hit fuel fresh fs word buffer p 32 (short_entry buffer p dir) _ _
                (ground (arith, folder)) (name_test p dir true end same) p (omega (arith, small))
                (omega (arith, fits))
            ∙ ap (λ (q : ℕ). open_cluster fuel fresh (cluster_at buffer.bytes q) fs) (sym at);
      }
  nextread-Descends (suc fuel) (suc k) p needed dir h end inside enough =
      let at : p + 32 * 0 ≡ p = omega arith in
      let first : IsShort buffer.bytes p =
        subst (λ (q : ℕ). IsShort buffer.bytes q) at (h.before 0 (omega arith)) in
      let other : (strcmp (short_text buffer.bytes p) word ≡ false)
          ⊎ (buffer.bytes (p + 11) ≡ 0x20) =
        subst
          (λ (q : ℕ).
            (strcmp (short_text buffer.bytes q) word ≡ false) ⊎ (buffer.bytes (q + 11) ≡ 0x20))
          at (h.other 0 (omega arith)) in
      let rest =
        nextread-Descends fuel k (p + 32) needed (short_entry buffer p dir) (rest-FolderAt h)
          (short_name-kept buffer p dir ∙ end) (omega arith) (omega arith) in
      let last : p + 32 + 32 * k ≡ p + 32 * suc k = omega arith in
      record {
        left = rest.left;
        enough = rest.enough;
        comes_back =
            nextread-entry fuel p dir first (omega arith)
            ∙ enter_at-miss fuel fresh fs word buffer p 32 (short_entry buffer p dir) _ _
                (miss p dir end other)
            ∙ rest.comes_back
            ∙ ap (λ (q : ℕ). open_cluster rest.left fresh (cluster_at buffer.bytes q) fs) last;
      }
