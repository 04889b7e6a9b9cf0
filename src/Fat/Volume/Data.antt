-- ===== src/Fat/Volume/Data.antt =====
-- What `fat_getdata` brings: the clusters of a chain, one behind the other.
use mnes_hrel.Common.{
  ℕ, zero, suc, ◌+◌, ◌-◌, ◌*◌, ◌≤◌, ◌<◌, ◌≡◌, refl, sym, ap, ◌∙◌, some, List, [], ◌∷◌, arith,
  length, get_elem?, u32,
}
use mnes_hrel.Fat.Volume.{
  Outcome, returned, FatFs, fat_clustertolba, read_clusters, read_counted, fat_getdata,
}
use mnes_hrel.Fat.Volume.Device.{stored, from_block, Serves}
use mnes_hrel.Fat.Volume.Chain.{Chain, last, link, next_cluster, fat_getclustercount-length}

-- Blocks have 512 bytes, and the data clusters lie within the 32-bit block addresses.
pub record IsSound (fs : FatFs) : Type 0 where
  pub cluster_bytes : fs.clustersize ≡ 512 * fs.bpb.sectors_per_cluster
  pub table : fs.fat_entries ≤ 268435456
  pub last_block : fs.firstdatalba + fs.bpb.sectors_per_cluster * fs.fat_entries < 4294967296

-- Data clusters are numbered from 2.
abbrev pub FromTwo : List ℕ → Type 0
FromTwo cs = (k d : ℕ) → get_elem? cs k ≡ some d → 2 ≤ d

-- From offset `p` on the buffer has the clusters `cs` of the disk.
abbrev pub Filled : FatFs → (ℕ → ℕ) → List ℕ → ℕ → (ℕ → ℕ) → Type 0
Filled fs disk cs p b =
    (k d j : ℕ)
    → get_elem? cs k ≡ some d
    → j < fs.clustersize
    → b (p + fs.clustersize * k + j) ≡ disk (fat_clustertolba fs d * 512 + j)

-- The next clusters fit: behind offset `p` in the buffer, and on top of `count` bytes.
record Room (fs : FatFs) (n p size count : ℕ) : Type 0 where
  buffer : p + fs.clustersize * n ≤ size
  total : count + fs.clustersize * n < 4294967296

mul-suc : (a n : ℕ) → a * suc n ≡ a + a * n
mul-suc a n = grind arith

mul_room : (s e n : ℕ) → e + 1 ≤ n → s * e + s ≤ s * n
mul_room s e n h = grind arith

block_bound :
    (fs : FatFs) (c : ℕ)
    → IsSound fs
    → 2 ≤ c
    → c < fs.fat_entries
    → fat_clustertolba fs c + fs.bpb.sectors_per_cluster < 4294967296
unfolding fat_clustertolba
block_bound fs c sound low high =
    let index : u32 (c + 4294967294) ≡ c - 2 = omega (arith, sound.table) in
    rw index (
      omega (
        arith,
        mul_room fs.bpb.sectors_per_cluster (c - 2) fs.fat_entries (omega arith),
        sound.last_block,
      ))

module _ {fs : FatFs} {disk : ℕ → ℕ} (sound : IsSound fs) (serves : Serves fs.dev disk) where
  read_lem :
      (b : ℕ → ℕ) (p c : ℕ)
      → 2 ≤ c
      → c < fs.fat_entries
      → fs.clustersize < 4294967296
      → fs.dev.readblocks b p (fat_clustertolba fs c) fs.bpb.sectors_per_cluster
        ≡ (fs.clustersize, stored b p fs.clustersize (from_block disk (fat_clustertolba fs c)))
  read_lem b p c low high small =
      serves.reads b p (fat_clustertolba fs c) fs.bpb.sectors_per_cluster
        (block_bound fs c sound low high) (omega (arith, sound.cluster_bytes))
      ∙ ap (λ (w : ℕ). (w, stored b p w (from_block disk (fat_clustertolba fs c))))
          (sym sound.cluster_bytes)

-- What the loop leaves: the number of bytes, the clusters from `p` on, and the buffer below `p`.
record Reads (fs : FatFs) (disk : ℕ → ℕ) (cs : List ℕ) (p count : ℕ) (b : ℕ → ℕ)
    (o : Outcome (ℕ × (ℕ → ℕ))) : Type 0 where
  buffer : ℕ → ℕ
  comes_back : o ≡ returned (count + fs.clustersize * length cs, buffer)
  filled : Filled fs disk cs p buffer
  below : (j : ℕ) → j < p → buffer j ≡ b j

module _ {fs : FatFs} {disk : ℕ → ℕ} (sound : IsSound fs) (serves : Serves fs.dev disk) (b : ℕ → ℕ)
    (p c size count : ℕ) (low : 2 ≤ c) (high : c < fs.fat_entries) where
  abbrev block : ℕ → ℕ
  block = stored b p fs.clustersize (from_block disk (fat_clustertolba fs c))

  -- The bytes of a cluster in the buffer that its read leaves.
  in_block :
      (d j : ℕ)
      → some c ≡ some d
      → j < fs.clustersize
      → block (p + fs.clustersize * 0 + j) ≡ disk (fat_clustertolba fs d * 512 + j)
  in_block d j e h =
      let index : p + fs.clustersize * 0 + j - p ≡ j = omega arith in
      let same : c ≡ d = ground (arith, e) in
      ground (
        arith,
        ap (λ (i : ℕ). disk (fat_clustertolba fs c * 512 + i)) index,
        ap (λ (d : ℕ). disk (fat_clustertolba fs d * 512 + j)) same,
      )

  last-Filled : Filled fs disk (c ∷ []) p block
  last-Filled zero d j e h = in_block d j e h
  last-Filled (suc k) d j e h = absurd (ground (arith, e))

  last_Reads :
      Room fs 1 p size count
      → Reads fs disk (c ∷ []) p count b (read_clusters 1 fs size b p c count)
  unfolding read_clusters
  last_Reads room = record {
    buffer = block;
    comes_back =
        ground (
          arith,
          read_lem sound serves b p c low high,
          room.buffer,
          room.total,
          sound.cluster_bytes,
        );
    filled = last-Filled;
    below = λ j h. ground arith;
  }

  link_Reads :
      (n : ℕ) (cs : List ℕ)
      → length cs ≡ suc n
      → Room fs (suc (suc n)) p size count
      → Reads fs disk cs (p + fs.clustersize) (count + fs.clustersize) block (
          read_clusters
            (suc n)
            fs
            size
            block
            (p + fs.clustersize)
            (next_cluster fs c)
            (count + fs.clustersize))
      → Reads fs disk (c ∷ cs) p count b (read_clusters (suc (suc n)) fs size b p c count)
  unfolding read_clusters
  link_Reads n cs size_eq room rest = record {
    buffer = rest.buffer;
    comes_back = ground (
      arith,
      read_lem sound serves b p c low high,
      room.buffer,
      room.total,
      mul-suc fs.clustersize (suc n),
      mul-suc fs.clustersize (length cs),
      sound.cluster_bytes,
      rest.comes_back,
    );
    filled = go;
    below = λ j h. rest.below j (omega arith) ∙ ground arith;
  }
    where
      go : Filled fs disk (c ∷ cs) p rest.buffer
      go zero d j e h = rest.below (p + fs.clustersize * 0 + j) (omega arith) ∙ in_block d j e h
      go (suc k) d j e h =
          let index : p + fs.clustersize * suc k + j ≡ p + fs.clustersize + fs.clustersize * k + j =
            omega (arith, mul-suc fs.clustersize k) in
          ap rest.buffer index ∙ rest.filled k d j e h

rest-Room :
    {fs : FatFs} {p size count : ℕ} (n : ℕ)
    → Room fs (suc (suc n)) p size count
    → Room fs (suc n) (p + fs.clustersize) size (count + fs.clustersize)
rest-Room {fs} n room = record {
  buffer = omega (arith, room.buffer, mul-suc fs.clustersize (suc n));
  total = omega (arith, room.total, mul-suc fs.clustersize (suc n));
}

read_clusters-Reads :
    {fs : FatFs} {disk : ℕ → ℕ}
    → IsSound fs
    → Serves fs.dev disk
    → {c : ℕ} {cs : List ℕ} → Chain fs c cs
    → FromTwo cs
    → (b : ℕ → ℕ) (p size count : ℕ) → Room fs (length cs) p size count
    → Reads fs disk cs p count b (read_clusters (length cs) fs size b p c count)
read_clusters-Reads sound serves (last inside stop) two b p size count room =
    last_Reads sound serves b p _ size count (two 0 _ refl) inside room
read_clusters-Reads {fs} {disk} sound serves {c} (link inside more (last inside' stop)) two b p size
      count room =
    link_Reads sound serves b p c size count (two 0 c refl) inside 0 _ refl room (
      read_clusters-Reads sound serves (last inside' stop) (λ k d e. two (suc k) d e) _ _ size _
        (rest-Room 0 room))
read_clusters-Reads {fs} {disk} sound serves {c} (link inside more (link inside' more' rest)) two b
      p size count room =
    link_Reads sound serves b p c size count (two 0 c refl) inside _ _ refl room (
      read_clusters-Reads sound serves (link inside' more' rest) (λ k d e. two (suc k) d e) _ _ size
        _ (rest-Room _ room))

-- What a read of a whole chain gives: the number of its bytes, and a buffer with its clusters in
-- their order.
pub record Brings (fs : FatFs) (disk : ℕ → ℕ) (cs : List ℕ) (o : Outcome (ℕ × (ℕ → ℕ)))
    : Type 0 where
  pub buffer : ℕ → ℕ
  pub comes_back : o ≡ returned (fs.clustersize * length cs, buffer)
  pub filled : Filled fs disk cs 0 buffer

-- On a sound volume whose device serves a disk, the data of a chain of clusters comes back, with
-- fuel for the count of its clusters and if its size fits in 32 bits: the buffer holds the
-- clusters of the chain in their order, no access is out of bounds, and the size is exact.
pub fat_getdata-Brings :
    {fs : FatFs} {disk : ℕ → ℕ} {c : ℕ} {cs : List ℕ} (fuel : ℕ) (fresh : ℕ → ℕ)
    → IsSound fs
    → Serves fs.dev disk
    → Chain fs c cs
    → FromTwo cs
    → length cs ≤ fuel
    → fs.clustersize * length cs < 4294967296
    → Brings fs disk cs (fat_getdata fuel fresh c fs)
unfolding fat_getdata read_counted
fat_getdata-Brings {fs} {disk} {c} {cs} fuel fresh sound serves chain two enough fits =
    let whole : u32 (fs.clustersize * length cs) ≡ fs.clustersize * length cs = omega arith in
    let sum : 0 + fs.clustersize * length cs ≡ fs.clustersize * length cs = omega arith in
    let reads : Reads fs disk cs 0 0 fresh
        (read_clusters (length cs) fs (fs.clustersize * length cs) fresh 0 c 0) =
      read_clusters-Reads sound serves chain two fresh 0 (fs.clustersize * length cs) 0
        (record { buffer = omega arith; total = omega arith }) in
    record {
      buffer = reads.buffer;
      comes_back =
          ap (read_counted fresh c fs) (fat_getclustercount-length fuel fs c cs chain enough)
          ∙ ap (λ (size : ℕ). read_clusters (length cs) fs size fresh 0 c 0) whole
          ∙ reads.comes_back
          ∙ ap (λ (n : ℕ). returned (n, reads.buffer)) sum;
      filled = reads.filled;
    }
