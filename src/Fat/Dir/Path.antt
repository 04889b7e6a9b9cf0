-- ===== src/Fat/Dir/Path.antt =====
-- Paths in kernel/src/fat32.c: `fat_getfilename`, `fat_opendir` and `fat_fopen`, and `fat_fclose`
-- and `fat_fstat` on the file.
use mnes_hrel.Common.{
  ℕ, zero, suc, ◌+◌, ◌-◌, ◌*◌, ◌/◌, Bool, not, ◌&&◌, Option, none, some, List, ◌==◌, ltb,
  if◌then◌else◌, minus_one, bit_or, u32, Outcome, returned, fault, runs_on, and_then, Text, length,
  [], ◌∷◌, strcmp, ◌<<◌,
}
use mnes_hrel.Fat.Bytes.{word16, word32}
use mnes_hrel.Fat.Volume.{FatFs, fat_getclustercount, fat_getdata}
use mnes_hrel.Fat.Volume.File.{FatFile}
use mnes_hrel.Fat.Dir.{Dirent, HeapBlock, FatDir, fat_getdirent, fat_readdir}

-- The character goes before the first word, or is a word if a slash or the end comes next.
unfoldable pub glue : ℕ → Text → List Text → List Text
glue c [] words = (c ∷ []) ∷ words
glue c (d ∷ s) [] = (c ∷ []) ∷ []
glue c (d ∷ s) (word ∷ words) = if d == b'/' then (c ∷ []) ∷ word ∷ words else (c ∷ word) ∷ words

-- What the calls of `strtok` with "/" give, one after the other.
unfoldable pub strtok : Text → List Text
unfolding glue
strtok [] = []
strtok (c ∷ s) = if c == b'/' then strtok s else glue c s (strtok s)

abbrev pub last? : List Text → Option Text
last? [] = none
last? (word ∷ []) = some word
last? (word ∷ next ∷ words) = last? (next ∷ words)

unfoldable pub fat_getfilename : Text → Option Text
unfolding strtok
fat_getfilename pathstr = last? (strtok pathstr)

-- The string in the `n` bytes from `i` on.
unfoldable pub c_text : ℕ → (ℕ → ℕ) → ℕ → Text
c_text zero d i = []
c_text (suc n) d i = if d i == 0 then [] else d i ∷ c_text n d (i + 1)

-- `d_name` as a string.
abbrev pub name_of : Dirent → Text
name_of entry = c_text 256 entry.d_name 0

-- A buffer of `fat_getdata` as a block, and the number of bytes read.
unfoldable pub get_block : ℕ → (ℕ → ℕ) → ℕ → FatFs → Outcome (ℕ × HeapBlock)
unfolding fat_getdata
get_block fuel fresh cluster fs = and_then (fat_getclustercount fuel cluster fs) (λ count.
    and_then (fat_getdata fuel fresh cluster fs)
      (λ got. returned (got.0, record { bytes = got.1; size = u32 (fs.clustersize * count) })))

-- A new `fat_dir` at its start.
unfoldable pub open_cluster : ℕ → (ℕ → ℕ) → ℕ → FatFs → Outcome (Option FatDir)
unfolding get_block
open_cluster fuel fresh cluster fs =
    and_then (get_block fuel fresh cluster fs)
      (λ got. returned (some (record { data_block = some got.1; readptr = 0; size = got.0 })))

-- The cluster that the entry at `at` names.
abbrev pub cluster_at : (ℕ → ℕ) → ℕ → ℕ
cluster_at b at = bit_or (word16 b (at + 20) << 16) (word16 b (at + 26))

-- What follows an entry in the loop at `nextread`: `pass` is the loop from the next entry on, and
-- `deeper` the loop for other words in another buffer. For the last word the cluster is read from the
-- end of the entry; for those before it, from `readptr` and with another shift.
unfoldable pub enter_at :
    ℕ
    → (ℕ → ℕ)
    → FatFs
    → List Text
    → HeapBlock
    → ℕ
    → ℕ × Dirent
    → Outcome (Option FatDir)
    → (List Text → ℕ × HeapBlock → Outcome (Option FatDir))
    → Outcome (Option FatDir)
unfolding open_cluster get_block c_text
enter_at fuel fresh fs words buffer readptr (nextoffset, dir) pass deeper =
    if not (dir.d_type == 4) then pass else elim words [
      | [] ↦ fault
      | subdir ∷ rest ↦ if not (strcmp (name_of dir) subdir) then pass else elim rest [
        | [] ↦
            let at : ℕ = u32 (readptr + nextoffset + 4294967264) in
            if ltb (at + 27) buffer.size
            then open_cluster fuel fresh (cluster_at buffer.bytes at) fs
            else fault
        | word ∷ words' ↦
            let cluster : ℕ =
              bit_or (word16 buffer.bytes (readptr + 20) / 65536)
                (word16 buffer.bytes (readptr + 26)) in
            if ltb (readptr + 27) buffer.size
            then and_then (get_block fuel fresh cluster fs) (deeper (word ∷ words'))
            else fault
      ]
    ]

-- The loop at `nextread`, for the words of the path that are left; none is `subdir` as NULL. The
-- `dirent` keeps the last entry where there is none at `readptr`.
unfoldable pub nextread :
    ℕ → (ℕ → ℕ) → FatFs → List Text → HeapBlock → ℕ → ℕ → Dirent → Outcome (Option FatDir)
unfolding fat_getdirent enter_at
nextread zero fresh fs words buffer buffersize readptr dir = runs_on
nextread (suc fuel) fresh fs words buffer buffersize readptr dir =
    let found : Outcome (ℕ × Dirent) = fat_getdirent buffer readptr dir in
    if not (ltb readptr buffersize)
    then returned none
    else and_then found (λ entry.
      let next : ℕ = readptr + (if entry.0 == minus_one then 32 else entry.0) in
      enter_at fuel fresh fs words buffer readptr entry
        (nextread fuel fresh fs words buffer buffersize next entry.1)
        (λ words' got. nextread fuel fresh fs words' got.1 got.0 0 entry.1))

-- `fresh` is what `malloc` finds in a buffer, and `dir` what it finds in the `dirent`.
unfoldable pub fat_opendir : ℕ → (ℕ → ℕ) → Dirent → Option Text → FatFs → Outcome (Option FatDir)
unfolding nextread strtok
fat_opendir fuel fresh dir none fs = returned none
fat_opendir fuel fresh dir (some path) fs =
    if strcmp path (b'/' ∷ [])
    then open_cluster fuel fresh fs.ebr.cluster_root_num fs
    else and_then (get_block fuel fresh fs.ebr.cluster_root_num fs)
        (λ got. nextread fuel fresh fs (strtok path) got.1 got.0 0 dir)

-- The file of the entry at `at`.
unfoldable pub open_entry : ℕ → (ℕ → ℕ) → HeapBlock → ℕ → FatFs → Outcome (Option FatFile)
unfolding get_block
open_entry fuel fresh buffer at fs =
    if not (ltb (at + 31) buffer.size)
    then fault
    else and_then (get_block fuel fresh (cluster_at buffer.bytes at) fs) (λ got.
      if got.0 == minus_one
      then returned none
      else returned (
          some (record {
            data_bytes = got.1.bytes;
            dataptr = 0;
            buffersize = got.0;
            filesize = word32 buffer.bytes (at + 28);
            basecluster = cluster_at buffer.bytes at;
          })))

-- What follows a call of `fat_readdir` in the search; `rest` is the search from there on.
unfoldable pub look_at :
    ℕ
    → (ℕ → ℕ)
    → FatFs
    → Text
    → Outcome (Option FatFile × Dirent)
    → Bool × FatDir × Dirent
    → Outcome (Option FatFile × Dirent)
unfolding open_entry c_text
look_at fuel fresh fs fname rest (found, fdir, rdirent) =
    if not found
    then returned (none, rdirent)
    else if strcmp (name_of rdirent) fname && rdirent.d_type == 8
    then elim fdir.data_block [
      | none ↦ fault
      | some buffer ↦
          and_then (open_entry fuel fresh buffer (u32 (fdir.readptr + 4294967264)) fs)
            (λ file. returned (file, rdirent))
    ]
    else rest

-- The search for the name in an open directory, which ends where `fat_readdir` gives NULL; the static
-- `rdir` stays.
unfoldable pub find_file :
    ℕ → (ℕ → ℕ) → FatFs → Text → FatDir → Dirent → Outcome (Option FatFile × Dirent)
unfolding look_at fat_readdir
find_file zero fresh fs fname fdir rdir = runs_on
find_file (suc fuel) fresh fs fname fdir rdir =
    and_then (fat_readdir fdir rdir)
      (λ read. look_at fuel fresh fs fname (find_file fuel fresh fs fname read.1 read.2) read)

-- The first `n` characters.
unfoldable pub prefix : ℕ → Text → Text
prefix zero s = []
prefix (suc n) [] = []
prefix (suc n) (c ∷ s) = c ∷ prefix n s

-- The directory that a path names: all of the path but as many characters as its last word has.
abbrev pub path_to : Text → Text → Text
path_to path fname =
    if strcmp path fname then b'/' ∷ [] else prefix (length path - length fname) path

unfoldable pub open_in :
    ℕ → (ℕ → ℕ) → Text → Option FatDir → FatFs → Dirent → Outcome (Option FatFile × Dirent)
unfolding find_file
open_in fuel fresh fname none fs rdir = returned (none, rdir)
open_in fuel fresh fname (some fdir) fs rdir = find_file fuel fresh fs fname fdir rdir

-- The rest of `fat_fopen` behind `fat_getfilename`.
unfoldable pub open_named :
    ℕ → (ℕ → ℕ) → Dirent → Text → FatFs → Dirent → Option Text → Outcome (Option FatFile × Dirent)
unfolding fat_opendir open_in prefix
open_named fuel fresh dir path fs rdir none = returned (none, rdir)
open_named fuel fresh dir path fs rdir (some fname) =
    and_then (fat_opendir fuel fresh dir (some (path_to path fname)) fs)
      (λ fdir. open_in fuel fresh fname fdir fs rdir)

-- `dir` is what `malloc` finds in the `dirent` of `fat_opendir`.
unfoldable pub fat_fopen :
    ℕ → (ℕ → ℕ) → Dirent → Option Text → Option FatFs → Dirent → Outcome (Option FatFile × Dirent)
unfolding fat_getfilename open_named
fat_fopen fuel fresh dir none fs rdir = returned (none, rdir)
fat_fopen fuel fresh dir (some path) none rdir = returned (none, rdir)
fat_fopen fuel fresh dir (some path) (some fs) rdir =
    open_named fuel fresh dir path fs rdir (fat_getfilename path)

-- The result, and the file, which is given back to the heap.
abbrev pub fat_fclose : Option FatFile → ℕ × Option FatFile
fat_fclose none = (minus_one, none)
fat_fclose (some file) = (0, none)

-- The result, and `st_size` as it was or as set.
abbrev pub fat_fstat : Option FatFile → ℕ → ℕ × ℕ
fat_fstat none st_size = (minus_one, st_size)
fat_fstat (some file) st_size = (0, file.filesize)
