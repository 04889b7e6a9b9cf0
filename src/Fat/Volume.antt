-- ===== src/Fat/Volume.antt =====
-- A mounted volume of kernel/src/fat32.c: the `fat_fs` structure, its table, and cluster chains.
pub mod Device
pub mod Chain
pub mod Data
pub mod File
use mnes_hrel.Common.{ℕ, zero, suc, ◌+◌, ◌*◌, Bool, bit_and, leb, ltb, if◌then◌else◌, u32}
pub use mnes_hrel.Common.{Outcome, returned, fault, runs_on}
use mnes_hrel.Fat.Records.{FatBpb, FatEbr}

-- The two reading functions of `block_device`. Each gets the buffer, the offset in it at which the
-- pointer stands, and a block address, and gives the number of bytes read and the buffer then.
pub record BlockDevice : Type 0 where
  pub read : (ℕ → ℕ) → ℕ → ℕ → ℕ × (ℕ → ℕ)
  pub readblocks : (ℕ → ℕ) → ℕ → ℕ → ℕ → ℕ × (ℕ → ℕ)

-- `fat_fs`; the table has `fat_entries` entries.
pub record FatFs : Type 0 where
  pub fattlb : ℕ → ℕ
  pub fat_entries : ℕ
  pub dev : BlockDevice
  pub bpb : FatBpb
  pub ebr : FatEbr
  pub firstdatalba : ℕ
  pub clustersize : ℕ

unfoldable pub fat_clustertolba : FatFs → ℕ → ℕ
fat_clustertolba fs clusternum =
    u32 (fs.firstdatalba + fs.bpb.sectors_per_cluster * u32 (clusternum + 4294967294))

-- `(fattlb[clusternum] & 0x0FFFFFFF) >= 0x0FFFFFF8`, over the entry.
abbrev pub end_of_chain : ℕ → Bool
end_of_chain v = leb 0x0FFFFFF8 (bit_and v 0x0FFFFFFF)

-- The rounds of the `while(1)` loop, as many as the fuel allows.
unfoldable pub count_clusters : ℕ → FatFs → ℕ → ℕ → Outcome ℕ
count_clusters zero fs count clusternum = runs_on
count_clusters (suc fuel) fs count clusternum =
    let next : ℕ = bit_and (fs.fattlb clusternum) 0x0FFFFFFF in
    let rest : Outcome ℕ = count_clusters fuel fs (count + 1) next in
    if ltb clusternum fs.fat_entries
    then (if end_of_chain (fs.fattlb clusternum) then returned count else rest)
    else fault

abbrev pub fat_getclustercount : ℕ → ℕ → FatFs → Outcome ℕ
fat_getclustercount fuel clusterroot fs = count_clusters fuel fs 1 clusterroot

-- The rounds of the loop that reads `count` clusters, into a buffer of `size` bytes; blocks read past
-- its end are a fault.
unfoldable pub read_clusters : ℕ → FatFs → ℕ → (ℕ → ℕ) → ℕ → ℕ → ℕ → Outcome (ℕ × (ℕ → ℕ))
read_clusters zero fs size data' bufptr clusternum readcount = fault
read_clusters (suc zero) fs size data' bufptr clusternum readcount =
    let spc : ℕ = fs.bpb.sectors_per_cluster in
    let (got, after) = fs.dev.readblocks data' bufptr (fat_clustertolba fs clusternum) spc in
    if leb (bufptr + 512 * spc) size then returned (u32 (readcount + got), after) else fault
read_clusters (suc (suc count)) fs size data' bufptr clusternum readcount =
    let spc : ℕ = fs.bpb.sectors_per_cluster in
    let (got, after) = fs.dev.readblocks data' bufptr (fat_clustertolba fs clusternum) spc in
    let rest : Outcome (ℕ × (ℕ → ℕ)) =
      read_clusters (suc count) fs size after (bufptr + fs.clustersize)
        (bit_and (fs.fattlb clusternum) 0x0FFFFFFF) (u32 (readcount + got)) in
    if leb (bufptr + 512 * spc) size
    then (if ltb clusternum fs.fat_entries then rest else fault)
    else fault

-- The rest of `fat_getdata` once the clusters are counted.
unfoldable pub read_counted : (ℕ → ℕ) → ℕ → FatFs → Outcome ℕ → Outcome (ℕ × (ℕ → ℕ))
read_counted fresh clusterroot fs (returned n) =
    read_clusters n fs (u32 (fs.clustersize * n)) fresh 0 clusterroot 0
read_counted fresh clusterroot fs fault = fault
read_counted fresh clusterroot fs runs_on = runs_on

-- The bytes read and the buffer; `fresh` is what `malloc` finds in the block.
unfoldable pub fat_getdata : ℕ → (ℕ → ℕ) → ℕ → FatFs → Outcome (ℕ × (ℕ → ℕ))
fat_getdata fuel fresh clusterroot fs =
    read_counted fresh clusterroot fs (fat_getclustercount fuel clusterroot fs)
