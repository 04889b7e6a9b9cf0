-- ===== src/Fat/Dir/Search.antt =====
-- The search of `fat_fopen` of kernel/src/fat32.c for a name among short entries.
use mnes_hrel.Common.{
  ℕ, zero, suc, ◌+◌, ◌*◌, ◌≤◌, ◌<◌, ◌≡◌, refl, sym, subst, ap, ◌∙◌, Bool, true, false, Option, some,
  ◌==◌, if◌then◌else◌, u32, Text, strcmp, arith, ◌⊎◌, inl, inr, Outcome, returned, and_then,
}
use mnes_hrel.Fat.Volume.{FatFs}
use mnes_hrel.Fat.Volume.File.{FatFile}
use mnes_hrel.Fat.Dir.{Dirent, HeapBlock, FatDir, fat_getdirent, next_entry, fat_readdir}
use mnes_hrel.Fat.Dir.Path.{name_of, open_entry, look_at, find_file}
use mnes_hrel.Fat.Dir.Names.{
  short_text, IsShort, fat_getdirent-short, short_name-kept, name_of-short, short_entry,
}

-- From `p` on, `k` short entries with another name or for a directory, and then that of a file with
-- this name.
pub record Listed (b : ℕ → ℕ) (fname : Text) (p k : ℕ) : Type 0 where
  pub before : (j : ℕ) → j < k → IsShort b (p + 32 * j)
  pub other :
      (j : ℕ)
      → j < k
      → (strcmp (short_text b (p + 32 * j)) fname ≡ false) ⊎ (b (p + 32 * j + 11) ≡ 0x10)
  pub file : b (p + 32 * k + 11) ≡ 0x20
  pub name : strcmp (short_text b (p + 32 * k)) fname ≡ true

rest-Listed :
    {b : ℕ → ℕ} {fname : Text} {p k : ℕ} → Listed b fname p (suc k) → Listed b fname (p + 32) k
rest-Listed {b} {fname} {p} {k} h =
    let at : (j : ℕ) → p + 32 + 32 * j ≡ p + 32 * (j + 1) = λ j. omega arith in
    let last : p + 32 + 32 * k ≡ p + 32 * suc k = omega arith in
    record {
      before = λ j below. rw (at j) (h.before (j + 1) (omega arith));
      other = λ j below. rw (at j) (h.other (j + 1) (omega arith));
      file = rw last h.file;
      name = rw last h.name;
    }

-- The directory whose bytes are in `buffer`, read up to `p`.
abbrev pub reading : HeapBlock → ℕ → ℕ → FatDir
reading buffer size p = record { data_block = some buffer; readptr = p; size = size }

-- What the search comes to: the file of the entry at `at`, and some `rdir`,
-- with at least the fuel that is needed for it.
pub record Finds (needed : ℕ) (fresh : ℕ → ℕ) (fs : FatFs) (buffer : HeapBlock) (at : ℕ)
    (o : Outcome (Option FatFile × Dirent)) : Type 0 where
  pub left : ℕ
  pub enough : needed ≤ left
  pub rdir' : Dirent
  pub comes_back :
      o ≡ and_then (open_entry left fresh buffer at fs) (λ file. returned (file, rdir'))

module _ (fresh : ℕ → ℕ) (fs : FatFs) (fname : Text) (buffer : HeapBlock) (size : ℕ)
    (fits : size ≤ buffer.size) (small : size < 2147483648) where
  read_short :
      (p : ℕ) (rdir : Dirent)
      → IsShort buffer.bytes p
      → p + 32 ≤ size
      → fat_readdir (reading buffer size p) rdir
        ≡ returned (true, reading buffer size (p + 32), short_entry buffer p rdir)
  unfolding fat_readdir next_entry
  read_short p rdir short inside =
      let next : fat_getdirent buffer p rdir ≡ returned (32, short_entry buffer p rdir) =
        fat_getdirent-short buffer p rdir short (omega (arith, fits)) in
      ground (arith, next, inside)

  -- The name of a short entry where `d_name` had an end behind it.
  name_test :
      (p : ℕ) (rdir : Dirent) (b : Bool)
      → rdir.d_name 11 ≡ 0
      → strcmp (short_text buffer.bytes p) fname ≡ b
      → strcmp (name_of (short_entry buffer p rdir)) fname ≡ b
  name_test p rdir b end e = ap (λ (t : Text). strcmp t fname) (name_of-short buffer p rdir end) ∙ e

  look_at-hit :
      (fuel p : ℕ) (rdir : Dirent) (rest : Outcome (Option FatFile × Dirent))
      → buffer.bytes (p + 11) ≡ 0x20
      → strcmp (short_text buffer.bytes p) fname ≡ true
      → rdir.d_name 11 ≡ 0
      → p + 32 ≤ size
      → look_at fuel fresh fs fname rest
          (true, reading buffer size (p + 32), short_entry buffer p rdir)
        ≡ and_then
            (open_entry fuel fresh buffer p fs)
            (λ file. returned (file, short_entry buffer p rdir))
  unfolding look_at
  look_at-hit fuel p rdir rest file same end inside =
      let back : u32 (p + 32 + 4294967264) ≡ p = omega (arith, small) in
      let kind : ((if buffer.bytes (p + 11) == 0x10 then 4 else 8) == 8) ≡ true =
        ground (arith, file) in
      rw (name_test p rdir true end same) (rw kind (rw back refl))

  look_at-miss :
      (fuel p : ℕ) (rdir : Dirent) (rest : Outcome (Option FatFile × Dirent))
      → (strcmp (short_text buffer.bytes p) fname ≡ false) ⊎ (buffer.bytes (p + 11) ≡ 0x10)
      → rdir.d_name 11 ≡ 0
      → look_at fuel fresh fs fname rest
          (true, reading buffer size (p + 32), short_entry buffer p rdir)
        ≡ rest
  unfolding look_at
  look_at-miss fuel p rdir rest (inl other) end = rw (name_test p rdir false end other) refl
  look_at-miss fuel p rdir rest (inr folder) end =
      let kind : ((if buffer.bytes (p + 11) == 0x10 then 4 else 8) == 8) ≡ false =
        ground (arith, folder) in
      rw kind (ground arith)

  read_then :
      (fuel p : ℕ) (rdir : Dirent)
      → IsShort buffer.bytes p
      → p + 32 ≤ size
      → find_file (suc fuel) fresh fs fname (reading buffer size p) rdir
        ≡ look_at fuel fresh fs fname
            (find_file fuel fresh fs fname
              (reading buffer size (p + 32))
              (short_entry buffer p rdir))
            (true, reading buffer size (p + 32), short_entry buffer p rdir)
  unfolding find_file
  read_then fuel p rdir short inside =
      ap
        (λ (o : Outcome (Bool × FatDir × Dirent)).
          and_then o (λ read.
            look_at fuel fresh fs fname (find_file fuel fresh fs fname read.1 read.2) read))
        (read_short p rdir short inside)

  pub find_file-Finds :
      (fuel : ℕ) (k p needed : ℕ) (rdir : Dirent)
      → Listed buffer.bytes fname p k
      → rdir.d_name 11 ≡ 0
      → p + 32 * k + 32 ≤ size
      → k + 1 + needed ≤ fuel
      → Finds needed fresh fs buffer
          (p + 32 * k)
          (find_file fuel fresh fs fname (reading buffer size p) rdir)
  find_file-Finds zero k p needed rdir h end inside enough = absurd (omega arith)
  find_file-Finds (suc fuel) zero p needed rdir h end inside enough =
      let at : p + 32 * 0 ≡ p = omega arith in
      let file : buffer.bytes (p + 11) ≡ 0x20 = rw (sym at) h.file in
      let same : strcmp (short_text buffer.bytes p) fname ≡ true = rw (sym at) h.name in
      record {
        left = fuel;
        enough = omega arith;
        rdir' = short_entry buffer p rdir;
        comes_back =
            read_then fuel p rdir (inr file) (omega arith)
            ∙ look_at-hit fuel p rdir _ file same end (omega arith)
            ∙ ap
                (λ (q : ℕ).
                  and_then (open_entry fuel fresh buffer q fs)
                    (λ file'. returned (file', short_entry buffer p rdir)))
                (sym at);
      }
  find_file-Finds (suc fuel) (suc k) p needed rdir h end inside enough =
      let at : p + 32 * 0 ≡ p = omega arith in
      let first : IsShort buffer.bytes p =
        subst (λ (q : ℕ). IsShort buffer.bytes q) at (h.before 0 (omega arith)) in
      let other : (strcmp (short_text buffer.bytes p) fname ≡ false)
          ⊎ (buffer.bytes (p + 11) ≡ 0x10) =
        subst
          (λ (q : ℕ).
            (strcmp (short_text buffer.bytes q) fname ≡ false) ⊎ (buffer.bytes (q + 11) ≡ 0x10))
          at (h.other 0 (omega arith)) in
      let rest =
        find_file-Finds fuel k (p + 32) needed (short_entry buffer p rdir) (rest-Listed h)
          (short_name-kept buffer p rdir ∙ end) (omega arith) (omega arith) in
      let last : p + 32 + 32 * k ≡ p + 32 * suc k = omega arith in
      record {
        left = rest.left;
        enough = rest.enough;
        rdir' = rest.rdir';
        comes_back =
            read_then fuel p rdir first (omega arith)
            ∙ look_at-miss fuel p rdir _ other end
            ∙ rest.comes_back
            ∙ ap
                (λ (q : ℕ).
                  and_then (open_entry rest.left fresh buffer q fs)
                    (λ file. returned (file, rest.rdir')))
                last;
      }
