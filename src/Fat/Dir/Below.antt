-- ===== src/Fat/Dir/Below.antt =====
-- `fat_fopen` of kernel/src/fat32.c on a file in a folder of the root directory.
use mnes_hrel.Common.{
  ℕ, ◌+◌, ◌-◌, ◌*◌, ◌≤◌, ◌<◌, ◌≡◌, refl, sym, subst, ap, ◌∙◌, Bool, false, Option, some, List,
  if◌then◌else◌, Text, [], ◌∷◌, strcmp, length, arith, Outcome, returned, and_then,
}
use mnes_hrel.Fat.Volume.{FatFs}
use mnes_hrel.Fat.Volume.Device.{Serves}
use mnes_hrel.Fat.Volume.Chain.{Chain}
use mnes_hrel.Fat.Volume.Data.{IsSound, FromTwo, Filled}
use mnes_hrel.Fat.Dir.{Dirent, HeapBlock, FatDir}
use mnes_hrel.Fat.Dir.Path.{
  strtok, prefix, fat_getfilename, get_block, open_cluster, cluster_at, nextread, fat_opendir,
  find_file, open_in, path_to, open_named, fat_fopen,
}
use mnes_hrel.Fat.Dir.Search.{Listed, reading, find_file-Finds}
use mnes_hrel.Fat.Dir.Opening.{InRoot, Opens, get_block-Block, open_entry-Opens, fat_fopen-Opens}
use mnes_hrel.Fat.Dir.Descent.{FolderAt, nextread-Descends}

-- A root directory of the clusters `rs` with a folder `word`, its short entry `f`, of the clusters `ds`
-- from `d` on, in which the file `fname`, with the clusters `cs` from `c` on, has the short entry `k`.
pub record InFolder (fs : FatFs) (disk : ℕ → ℕ) (rs : List ℕ) (word : Text) (f d : ℕ) (ds : List ℕ)
    (fname : Text) (k c : ℕ) (cs : List ℕ) : Type 0 where
  pub root : Chain fs fs.ebr.cluster_root_num rs
  pub root_two : FromTwo rs
  pub root_room : 32 * f + 32 ≤ fs.clustersize * length rs
  pub root_small : fs.clustersize * length rs < 2147483648
  pub folder : Chain fs d ds
  pub folder_two : FromTwo ds
  pub room : 32 * k + 32 ≤ fs.clustersize * length ds
  pub folder_small : fs.clustersize * length ds < 2147483648
  pub chain : Chain fs c cs
  pub two : FromTwo cs
  pub small : fs.clustersize * length cs < 4294967295
  pub entry :
      (b : ℕ → ℕ) → Filled fs disk rs 0 b → FolderAt b word 0 f × (cluster_at b (32 * f) ≡ d)
  pub listed :
      (b : ℕ → ℕ) → Filled fs disk ds 0 b → Listed b fname 0 k × (cluster_at b (32 * k) ≡ c)

-- The path of a file in a folder: the words are those of the folder and of the file.
pub record IsPath (path word fname : Text) : Type 0 where
  pub last : fat_getfilename path ≡ some fname
  pub longer : strcmp path fname ≡ false
  pub folder : strtok (prefix (length path - length fname) path) ≡ word ∷ []
  pub inner : strcmp (prefix (length path - length fname) path) (b'/' ∷ []) ≡ false

module _ {fs : FatFs} {disk : ℕ → ℕ} (sound : IsSound fs) (serves : Serves fs.dev disk)
    {rs : List ℕ} {word : Text} {f d : ℕ} {ds : List ℕ} {fname : Text} {k c : ℕ} {cs : List ℕ}
    (h : InFolder fs disk rs word f d ds fname k c cs) (fuel : ℕ) (fresh : ℕ → ℕ)
    (dir rdir : Dirent) where
  -- The open folder.
  record OpensFolder (o : Outcome (Option FatDir)) : Type 0 where
    block : HeapBlock
    comes_back : o ≡ returned (some (reading block (fs.clustersize * length ds) 0))
    size : block.size ≡ fs.clustersize * length ds
    filled : Filled fs disk ds 0 block.bytes

  opendir-OpensFolder :
      (path : Text)
      → strcmp path (b'/' ∷ []) ≡ false
      → strtok path ≡ word ∷ []
      → dir.d_name 11 ≡ 0
      → length rs ≤ fuel
      → f + 1 + length ds ≤ fuel
      → OpensFolder (fat_opendir fuel fresh dir (some path) fs)
  unfolding fat_opendir open_cluster
  opendir-OpensFolder path inner words end enough more =
      let root =
        get_block-Block sound serves fuel fresh h.root h.root_two enough
          (omega (arith, h.root_small)) in
      let (folder, named) = h.entry root.block.bytes root.filled in
      let descends =
        nextread-Descends fresh fs word root.block (fs.clustersize * length rs)
          (omega (arith, root.size)) h.root_small fuel f 0 (length ds) dir folder end
          (omega (arith, h.root_room)) more in
      let data' =
        get_block-Block sound serves descends.left fresh h.folder h.folder_two descends.enough
          (omega (arith, h.folder_small)) in
      let at : 0 + 32 * f ≡ 32 * f = omega arith in
      record {
        block = data'.block;
        comes_back =
            ap
              (λ (t : Bool).
                if t
                then open_cluster fuel fresh fs.ebr.cluster_root_num fs
                else and_then (get_block fuel fresh fs.ebr.cluster_root_num fs)
                    (λ got. nextread fuel fresh fs (strtok path) got.1 got.0 0 dir))
              inner
            ∙ ap
                (λ (o : Outcome (ℕ × HeapBlock)).
                  and_then o (λ got. nextread fuel fresh fs (strtok path) got.1 got.0 0 dir))
                root.comes_back
            ∙ ap
                (λ (words' : List Text).
                  nextread fuel fresh fs words' root.block (fs.clustersize * length rs) 0 dir)
                words
            ∙ descends.comes_back
            ∙ ap (λ (q : ℕ). open_cluster descends.left fresh q fs)
                (ap (cluster_at root.block.bytes) at ∙ named)
            ∙ ap
                (λ (o : Outcome (ℕ × HeapBlock)). and_then o (λ got.
                  returned (some (record { data_block = some got.1; readptr = 0; size = got.0 }))))
                data'.comes_back;
        size = data'.size;
        filled = data'.filled;
      }

  -- On a sound volume whose device serves a disk, the path of a file in a folder of the root directory
  -- is opened: the file has the clusters of its chain as data, and its pointer is at their start. Both
  -- `d_name`s have a 0 behind the name, and the fuel is enough for the chains and the entries.
  pub fat_fopen-InFolder :
      (path : Text)
      → IsPath path word fname
      → dir.d_name 11 ≡ 0
      → rdir.d_name 11 ≡ 0
      → length rs ≤ fuel
      → f + 1 + length ds ≤ fuel
      → k + 1 + length cs ≤ fuel
      → Opens fs disk c cs (fat_fopen fuel fresh dir (some path) (some fs) rdir)
  unfolding fat_fopen open_named open_in
  fat_fopen-InFolder path is clean end enough more most =
      let folder =
        opendir-OpensFolder (prefix (length path - length fname) path) is.inner is.folder clean
          enough more in
      let (listed, named) = h.listed folder.block.bytes folder.filled in
      let at : 0 + 32 * k ≡ 32 * k = omega arith in
      let finds =
        find_file-Finds fresh fs fname folder.block (fs.clustersize * length ds)
          (omega (arith, folder.size)) h.folder_small fuel k 0 (length cs) rdir listed end
          (omega (arith, h.room)) most in
      let outside : path_to path fname ≡ prefix (length path - length fname) path =
        rw is.longer refl in
      let opens : fat_fopen fuel fresh dir (some path) (some fs) rdir
          ≡ find_file fuel fresh fs fname (reading folder.block (fs.clustersize * length ds) 0)
              rdir =
        ap (open_named fuel fresh dir path fs rdir) is.last
        ∙ ap
            (λ (p : Text).
              and_then (fat_opendir fuel fresh dir (some p) fs)
                (λ fdir. open_in fuel fresh fname fdir fs rdir))
            outside
        ∙ ap
            (λ (o : Outcome (Option FatDir)).
              and_then o (λ fdir. open_in fuel fresh fname fdir fs rdir))
            folder.comes_back in
      subst (Opens fs disk c cs) (sym (opens ∙ finds.comes_back)) (
        open_entry-Opens sound serves h.chain h.two h.small fresh finds.left folder.block
          finds.rdir' (0 + 32 * k) finds.enough (omega (arith, h.room, folder.size))
          (ap (cluster_at folder.block.bytes) at ∙ named))

-- A path to a file with the clusters `cs` from `c` on, in the root directory or in a folder of it, and
-- fuel for the chains and entries on the way.
pub data Reaches (fs : FatFs) (disk : ℕ → ℕ) (fuel : ℕ) (path : Text) (c : ℕ) (cs : List ℕ)
    : Type 0 where
  at_root :
      {rs : List ℕ} {k : ℕ}
      → InRoot fs disk rs path k c cs
      → fat_getfilename path ≡ some path
      → length rs ≤ fuel
      → k + 1 + length cs ≤ fuel
      → Reaches fs disk fuel path c cs
  below :
      {rs : List ℕ} {word : Text} {f d : ℕ} {ds : List ℕ} {fname : Text} {k : ℕ}
      → InFolder fs disk rs word f d ds fname k c cs
      → IsPath path word fname
      → length rs ≤ fuel
      → f + 1 + length ds ≤ fuel
      → k + 1 + length cs ≤ fuel
      → Reaches fs disk fuel path c cs

module _ {fs : FatFs} {disk : ℕ → ℕ} {fuel : ℕ} {path : Text} {c : ℕ} {cs : List ℕ} where
  pub Reaches-small : Reaches fs disk fuel path c cs → fs.clustersize * length cs < 4294967295
  Reaches-small (at_root h plain enough more) = h.small
  Reaches-small (below h is enough more most) = h.small

  pub Reaches-some :
      Reaches fs disk fuel path c cs → (fname : Text) × (fat_getfilename path ≡ some fname)
  Reaches-some (at_root h plain enough more) = (path, plain)
  Reaches-some (below h is enough more most) = (_, is.last)

  pub fat_fopen-Reaches :
      IsSound fs
      → Serves fs.dev disk
      → Reaches fs disk fuel path c cs
      → (fresh : ℕ → ℕ) (dir rdir : Dirent) → dir.d_name 11 ≡ 0
      → rdir.d_name 11 ≡ 0
      → Opens fs disk c cs (fat_fopen fuel fresh dir (some path) (some fs) rdir)
  fat_fopen-Reaches sound serves (at_root h plain enough more) fresh dir rdir clean end =
      fat_fopen-Opens sound serves h fuel fresh dir rdir plain end enough more
  fat_fopen-Reaches sound serves (below h is enough more most) fresh dir rdir clean end =
      fat_fopen-InFolder sound serves h fuel fresh dir rdir path is clean end enough more most
