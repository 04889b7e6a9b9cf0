-- ===== src/Fat/Volume/File.antt =====
-- `fat_fread` of kernel/src/fat32.c on an open file.
use mnes_hrel.Common.{
  ℕ, zero, suc, ◌+◌, ◌-◌, ◌≤◌, ◌<◌, ◌≡◌, ◌≢◌, sym, ap, ◌∙◌, Bool, true, false, Option, none, some,
  List, [], ◌∷◌, ◌++◌, arith, ◌==◌, leb, ltb, if◌then◌else◌, u32, minus_one,
}
use mnes_hrel.Fat.Volume.{Outcome, returned, fault}

-- `fat_file`; `dataptr` is the offset of the pointer in the buffer `data`.
pub record FatFile : Type 0 where
  pub data_bytes : ℕ → ℕ
  pub dataptr : ℕ
  pub buffersize : ℕ
  pub filesize : ℕ
  pub basecluster : ℕ

-- The `n` bytes that `memcpy` copies from offset `i`.
unfoldable pub copied : (ℕ → ℕ) → ℕ → ℕ → List ℕ
copied b i zero = []
copied b i (suc n) = b i ∷ copied b (i + 1) n

-- The copy of `n` bytes, inside the buffer or not.
unfoldable pub copy_out : ℕ → FatFile → Outcome (ℕ × List ℕ × FatFile)
copy_out n file =
    if leb (file.dataptr + n) file.buffersize
    then returned
        (n, copied file.data_bytes file.dataptr n, record file { dataptr = file.dataptr + n })
    else fault

-- The result, the bytes stored at `ptr`, and the file; `ptr` and `fs` are whether the pointers are
-- not NULL, and a file that is `none` is a NULL pointer.
unfoldable pub fat_fread : Bool → ℕ → Option FatFile → Bool → Outcome (ℕ × List ℕ × Option FatFile)
unfolding copy_out
fat_fread ptr size none fs = returned (minus_one, [], none)
fat_fread false size (some file) fs = returned (minus_one, [], some file)
fat_fread true size (some file) false = returned (minus_one, [], some file)
fat_fread true size (some file) true =
    let bytestoread : ℕ =
      if ltb file.buffersize (u32 (file.dataptr + size))
      then u32 (file.buffersize + 4294967296 - file.dataptr)
      else size in
    if bytestoread == 0
    then returned (minus_one, [], some file)
    else elim (copy_out bytestoread file) [
      | returned (n, bytes, file') ↦ returned (n, bytes, some file')
      | _ ↦ fault
    ]

-- A file whose pointer is in its buffer.
pub record IsOpen (file : FatFile) : Type 0 where
  pub inside : file.dataptr ≤ file.buffersize
  pub small : file.buffersize < 4294967296

-- How many bytes a read of `size` takes.
abbrev pub taken : ℕ → FatFile → ℕ
taken size file =
    if ltb (file.buffersize - file.dataptr) size then file.buffersize - file.dataptr else size

-- The file after `n` bytes.
abbrev pub advanced : ℕ → FatFile → FatFile
advanced n file = record file { dataptr = file.dataptr + n }

-- A read of an open file, whose size does not wrap around past its pointer, takes as many bytes as
-- asked or as are left in the buffer, in their order, and steps the pointer behind them; where that
-- is none it gives -1 and leaves the file alone.
pub fat_fread-taken :
    (size : ℕ) (file : FatFile)
    → IsOpen file
    → file.dataptr + size < 4294967296
    → fat_fread true size (some file) true ≡ (
        if taken size file == 0
        then returned (minus_one, [], some file)
        else returned (
          taken size file,
          copied file.data_bytes file.dataptr (taken size file),
          some (advanced (taken size file) file),
        ))
unfolding fat_fread copy_out
fat_fread-taken size file valid fits = ground (arith, valid.inside, valid.small)

copied-append : (b : ℕ → ℕ) (i m n : ℕ) → copied b i m ++ copied b (i + m) n ≡ copied b i (m + n)
unfolding copied
copied-append b i zero n =
    let start : i + 0 ≡ i = omega arith in
    let none_more : n ≡ 0 + n = omega arith in
    ap (λ (k : ℕ). copied b k n) start ∙ ap (copied b i) none_more
copied-append b i (suc m) n =
    let next : i + suc m ≡ i + 1 + m = omega arith in
    let more : suc (m + n) ≡ suc m + n = omega arith in
    ap (λ (k : ℕ). b i ∷ (copied b (i + 1) m ++ copied b k n)) next
    ∙ ap (λ (xs : List ℕ). b i ∷ xs) (copied-append b (i + 1) m n)
    ∙ ap (copied b i) more

pub fat_fread_inside :
    (size : ℕ) (file : FatFile)
    → IsOpen file
    → size ≢ 0
    → file.dataptr + size ≤ file.buffersize
    → fat_fread true size (some file) true
      ≡ returned (size, copied file.data_bytes file.dataptr size, some (advanced size file))
unfolding fat_fread copy_out
fat_fread_inside size file valid some_bytes fits = ground (arith, valid.inside, valid.small)

-- Two reads in sequence of an open file, of some bytes each, that both fit in the buffer give what
-- one read of both sizes gives.
pub fat_fread-fat_fread :
    (m n : ℕ) (file : FatFile)
    → IsOpen file
    → m ≢ 0
    → n ≢ 0
    → file.dataptr + (m + n) ≤ file.buffersize
    → (fat_fread true m (some file) true
        ≡ returned (m, copied file.data_bytes file.dataptr m, some (advanced m file)))
      × (fat_fread true n (some (advanced m file)) true
          ≡ returned (n, copied file.data_bytes (file.dataptr + m) n, some (advanced (m + n) file)))
      × (fat_fread true (m + n) (some file) true
          ≡ returned (
            m + n,
            copied file.data_bytes file.dataptr m ++ copied file.data_bytes (file.dataptr + m) n,
            some (advanced (m + n) file),
          ))
fat_fread-fat_fread m n file valid p q fits =
    let sum : file.dataptr + m + n ≡ file.dataptr + (m + n) = omega arith in
    let moved : IsOpen (advanced m file) = record { inside = omega arith; small = valid.small } in
    (
      fat_fread_inside m file valid p (omega arith),
      fat_fread_inside n (advanced m file) moved q (omega arith)
          ∙ ap
              (λ (k : ℕ). returned (
                n,
                copied file.data_bytes (file.dataptr + m) n,
                some (record file { dataptr = k }),
              ))
              sum,
      fat_fread_inside (m + n) file valid (omega arith) fits
          ∙ ap (λ (bytes : List ℕ). returned (m + n, bytes, some (advanced (m + n) file)))
              (sym (copied-append file.data_bytes file.dataptr m n)),
    )

-- A read of an open file whose 32-bit size wraps around past the pointer is not cut to the buffer:
-- it copies from outside.
pub fat_fread-fault :
    (size : ℕ) (file : FatFile)
    → IsOpen file
    → size < 4294967296
    → 4294967296 ≤ file.dataptr + size
    → fat_fread true size (some file) true ≡ fault
unfolding fat_fread copy_out
fat_fread-fault size file valid word wraps = ground (arith, valid.inside, valid.small)
