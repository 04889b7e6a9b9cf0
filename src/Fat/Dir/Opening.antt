-- ===== src/Fat/Dir/Opening.antt =====
-- `fat_fopen` of kernel/src/fat32.c on a file of the root directory.
use mnes_hrel.Common.{
  ℕ, ◌+◌, ◌*◌, ◌≤◌, ◌<◌, ◌≡◌, refl, sym, subst, ap, ◌∙◌, true, false, Option, some, List, ◌==◌, ltb,
  minus_one, u32, Text, [], ◌∷◌, strcmp, length, arith, Outcome, returned, and_then,
}
use mnes_hrel.Fat.Bytes.{word32}
use mnes_hrel.Fat.Volume.{FatFs, fat_getdata}
use mnes_hrel.Fat.Volume.Device.{Serves}
use mnes_hrel.Fat.Volume.Chain.{Chain, fat_getclustercount-length}
use mnes_hrel.Fat.Volume.Data.{IsSound, FromTwo, Filled, Brings, fat_getdata-Brings}
use mnes_hrel.Fat.Volume.File.{FatFile}
use mnes_hrel.Fat.Dir.{Dirent, HeapBlock, FatDir}
use mnes_hrel.Fat.Dir.Path.{
  fat_getfilename, get_block, open_cluster, cluster_at, fat_opendir, open_entry, find_file, open_in,
  path_to, open_named, fat_fopen,
}
use mnes_hrel.Fat.Dir.Names.{strcmp_refl}
use mnes_hrel.Fat.Dir.Search.{Listed, reading, find_file-Finds}

-- The data of a chain of clusters as a block.
pub record Block (fs : FatFs) (disk : ℕ → ℕ) (cs : List ℕ) (o : Outcome (ℕ × HeapBlock))
    : Type 0 where
  pub block : HeapBlock
  pub comes_back : o ≡ returned (fs.clustersize * length cs, block)
  pub size : block.size ≡ fs.clustersize * length cs
  pub filled : Filled fs disk cs 0 block.bytes

module _ {fs : FatFs} {disk : ℕ → ℕ} (sound : IsSound fs) (serves : Serves fs.dev disk) where
  pub get_block-Block :
      {c : ℕ} {cs : List ℕ} (fuel : ℕ) (fresh : ℕ → ℕ)
      → Chain fs c cs
      → FromTwo cs
      → length cs ≤ fuel
      → fs.clustersize * length cs < 4294967296
      → Block fs disk cs (get_block fuel fresh c fs)
  unfolding get_block
  get_block-Block {c} {cs} fuel fresh chain two enough fits =
      let brings : Brings fs disk cs (fat_getdata fuel fresh c fs) =
        fat_getdata-Brings fuel fresh sound serves chain two enough fits in
      let whole : u32 (fs.clustersize * length cs) ≡ fs.clustersize * length cs = omega arith in
      record {
        block = record { bytes = brings.buffer; size = fs.clustersize * length cs };
        comes_back =
            ap
              (λ (o : Outcome ℕ). and_then o (λ count.
                and_then (fat_getdata fuel fresh c fs) (λ got.
                  returned (got.0, record { bytes = got.1; size = u32 (fs.clustersize * count) }))))
              (fat_getclustercount-length fuel fs c cs chain enough)
            ∙ ap
                (λ (o : Outcome (ℕ × (ℕ → ℕ))). and_then o (λ got.
                  returned
                    (got.0, record { bytes = got.1; size = u32 (fs.clustersize * length cs) })))
                brings.comes_back
            ∙ ap
                (λ (n : ℕ).
                  returned (fs.clustersize * length cs, record { bytes = brings.buffer; size = n }))
                whole;
        size = refl;
        filled = brings.filled;
      }

-- A file that was opened: the clusters `cs` from `c` on are its data, and the pointer is at their start.
pub record Opens (fs : FatFs) (disk : ℕ → ℕ) (c : ℕ) (cs : List ℕ)
    (o : Outcome (Option FatFile × Dirent)) : Type 0 where
  pub file : FatFile
  pub rdir' : Dirent
  pub comes_back : o ≡ returned (some file, rdir')
  pub start : file.dataptr ≡ 0
  pub buffersize : file.buffersize ≡ fs.clustersize * length cs
  pub cluster : file.basecluster ≡ c
  pub filled : Filled fs disk cs 0 file.data_bytes

module _ {fs : FatFs} {disk : ℕ → ℕ} (sound : IsSound fs) (serves : Serves fs.dev disk) {c : ℕ}
    {cs : List ℕ} (chain : Chain fs c cs) (two : FromTwo cs)
    (small : fs.clustersize * length cs < 4294967295) (fresh : ℕ → ℕ) where
  -- The entry's file, once its entry is found.
  pub open_entry-Opens :
      (left : ℕ) (buffer : HeapBlock) (rdir' : Dirent) (at : ℕ)
      → length cs ≤ left
      → at + 31 < buffer.size
      → cluster_at buffer.bytes at ≡ c
      → Opens fs disk c cs
          (and_then (open_entry left fresh buffer at fs) (λ file. returned (file, rdir')))
  unfolding open_entry
  open_entry-Opens left buffer rdir' at enough room named =
      let data' : Block fs disk cs (get_block left fresh c fs) =
        get_block-Block sound serves left fresh chain two enough (omega arith) in
      let got : get_block left fresh (cluster_at buffer.bytes at) fs
          ≡ returned (fs.clustersize * length cs, data'.block) =
        ap (λ (d : ℕ). get_block left fresh d fs) named ∙ data'.comes_back in
      let inside : ltb (at + 31) buffer.size ≡ true = ground (arith, room) in
      let valid : (fs.clustersize * length cs == minus_one) ≡ false = ground arith in
      record {
        file = record {
          data_bytes = data'.block.bytes;
          dataptr = 0;
          buffersize = fs.clustersize * length cs;
          filesize = word32 buffer.bytes (at + 28);
          basecluster = cluster_at buffer.bytes at;
        };
        rdir' = rdir';
        comes_back = rw inside (rw got (rw valid refl));
        start = refl;
        buffersize = refl;
        cluster = named;
        filled = data'.filled;
      }

-- A root directory of the clusters `rs` in which the file `fname`, with the clusters `cs` from `c`
-- on, has the short entry `k`.
pub record InRoot (fs : FatFs) (disk : ℕ → ℕ) (rs : List ℕ) (fname : Text) (k c : ℕ) (cs : List ℕ)
    : Type 0 where
  pub root : Chain fs fs.ebr.cluster_root_num rs
  pub root_two : FromTwo rs
  pub chain : Chain fs c cs
  pub two : FromTwo cs
  pub room : 32 * k + 32 ≤ fs.clustersize * length rs
  pub root_small : fs.clustersize * length rs < 2147483648
  pub small : fs.clustersize * length cs < 4294967295
  pub listed :
      (b : ℕ → ℕ) → Filled fs disk rs 0 b → Listed b fname 0 k × (cluster_at b (32 * k) ≡ c)

module _ {fs : FatFs} {disk : ℕ → ℕ} (sound : IsSound fs) (serves : Serves fs.dev disk)
    {rs : List ℕ} {fname : Text} {k c : ℕ} {cs : List ℕ} (h : InRoot fs disk rs fname k c cs)
    (fuel : ℕ) (fresh : ℕ → ℕ) (dir rdir : Dirent) where
  module _ (enough : length rs ≤ fuel) where
    root_lem : Block fs disk rs (get_block fuel fresh fs.ebr.cluster_root_num fs)
    root_lem =
        get_block-Block sound serves fuel fresh h.root h.root_two enough
          (omega (arith, h.root_small))

    abbrev root_dir : FatDir
    root_dir = reading root_lem.block (fs.clustersize * length rs) 0

    opendir_lem : fat_opendir fuel fresh dir (some (b'/' ∷ [])) fs ≡ returned (some root_dir)
    unfolding fat_opendir open_cluster strcmp
    opendir_lem =
        ap
          (λ (o : Outcome (ℕ × HeapBlock)). and_then o (λ got.
            returned (some (record { data_block = some got.1; readptr = 0; size = got.0 }))))
          root_lem.comes_back

    fopen_lem :
        fat_getfilename fname ≡ some fname
        → fat_fopen fuel fresh dir (some fname) (some fs) rdir
          ≡ find_file fuel fresh fs fname root_dir rdir
    unfolding fat_fopen open_named open_in
    fopen_lem plain =
        let at_root : path_to fname fname ≡ b'/' ∷ [] = ground (arith, strcmp_refl fname) in
        ap (open_named fuel fresh dir fname fs rdir) plain
        ∙ ap
            (λ (path : Text).
              and_then (fat_opendir fuel fresh dir (some path) fs)
                (λ fdir. open_in fuel fresh fname fdir fs rdir))
            at_root
        ∙ ap
            (λ (o : Outcome (Option FatDir)).
              and_then o (λ fdir. open_in fuel fresh fname fdir fs rdir))
            opendir_lem

  -- On a sound volume whose device serves a disk, a path of one word that is the name of a short
  -- entry in the root directory, with only short entries before it, is opened, if the `d_name` of the
  -- static entry has a 0 behind the name and with fuel for both chains and the entries: the file has the
  -- clusters of its chain as data, and its pointer is at their start.
  pub fat_fopen-Opens :
      fat_getfilename fname ≡ some fname
      → rdir.d_name 11 ≡ 0
      → length rs ≤ fuel
      → k + 1 + length cs ≤ fuel
      → Opens fs disk c cs (fat_fopen fuel fresh dir (some fname) (some fs) rdir)
  fat_fopen-Opens plain end enough more =
      let root = root_lem enough in
      let at : 0 + 32 * k ≡ 32 * k = omega arith in
      let (listed, named) = h.listed root.block.bytes root.filled in
      let finds =
        find_file-Finds fresh fs fname root.block (fs.clustersize * length rs)
          (omega (arith, root.size)) h.root_small fuel k 0 (length cs) rdir listed end
          (omega (arith, h.room)) more in
      subst (Opens fs disk c cs) (sym (fopen_lem enough plain ∙ finds.comes_back)) (
        open_entry-Opens sound serves h.chain h.two h.small fresh finds.left root.block finds.rdir'
          (0 + 32 * k) finds.enough (omega (arith, h.room, root.size))
          (ap (cluster_at root.block.bytes) at ∙ named))
