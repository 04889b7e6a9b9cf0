-- ===== src/Fat/Volume/Chain.antt =====
-- Cluster chains: what `fat_getclustercount` counts, and where it does not come back.
use mnes_hrel.Common.{
  ℕ, zero, suc, ◌+◌, ◌≤◌, ◌<◌, ◌≡◌, refl, true, false, List, [], ◌∷◌, arith, bit_and, length, ltb,
  Bool-cases, inl, inr,
}
use mnes_hrel.Fat.Volume.{
  returned, runs_on, FatFs, end_of_chain, count_clusters, fat_getclustercount,
}

-- The cluster that an entry of the table names.
abbrev pub next_cluster : FatFs → ℕ → ℕ
next_cluster fs c = bit_and (fs.fattlb c) 0x0FFFFFFF

-- From cluster `c` the table leads through the listed clusters to an end mark.
pub data Chain (fs : FatFs) : ℕ → List ℕ → Type 0 where
  last : {c : ℕ} → c < fs.fat_entries → end_of_chain (fs.fattlb c) ≡ true → Chain fs c (c ∷ [])
  link :
      {c : ℕ} {cs : List ℕ}
      → c < fs.fat_entries
      → end_of_chain (fs.fattlb c) ≡ false
      → Chain fs (next_cluster fs c) cs
      → Chain fs c (c ∷ cs)

pub Chain-length : {fs : FatFs} {c : ℕ} {cs : List ℕ} → Chain fs c cs → 1 ≤ length cs
Chain-length (last p e) = omega arith
Chain-length (link p e rest) = omega arith

count_clusters-Chain :
    (fuel : ℕ) (fs : FatFs) (n c : ℕ) (cs : List ℕ)
    → Chain fs c cs
    → length cs ≤ fuel
    → count_clusters fuel fs (n + 1) c ≡ returned (n + length cs)
unfolding count_clusters
count_clusters-Chain zero fs n c cs chain h = absurd (omega (arith, Chain-length chain))
count_clusters-Chain (suc fuel) fs n c cs (last p e) h = ground (arith, e)
count_clusters-Chain (suc fuel) fs n c (d ∷ ds) (link p e rest) h =
    ground
      (arith, e, count_clusters-Chain fuel fs (n + 1) (next_cluster fs c) ds rest (omega arith))

-- On a chain, with fuel for each of its clusters, the count is its length.
pub fat_getclustercount-length :
    (fuel : ℕ) (fs : FatFs) (c : ℕ) (cs : List ℕ)
    → Chain fs c cs
    → length cs ≤ fuel
    → fat_getclustercount fuel c fs ≡ returned (length cs)
fat_getclustercount-length fuel fs c cs chain h =
    ground (arith, count_clusters-Chain fuel fs 0 c cs chain h)

-- A chain from `c` that counts up from `n` to `r`.
pub record Counted (fs : FatFs) (n c r : ℕ) : Type 0 where
  pub clusters : List ℕ
  pub chain : Chain fs c clusters
  pub size : n + length clusters ≡ r + 1

module _ (fuel : ℕ) (fs : FatFs) (n c r : ℕ)
    (rest : count_clusters fuel fs (n + 1) (next_cluster fs c) ≡ returned r
      → Counted fs (n + 1) (next_cluster fs c) r) where
  Counted-step : count_clusters (suc fuel) fs n c ≡ returned r → Counted fs n c r
  unfolding count_clusters
  Counted-step h = elim (Bool-cases (ltb c fs.fat_entries)) [
    | inr out ↦ absurd (ground arith)
    | inl inside ↦ elim (Bool-cases (end_of_chain (fs.fattlb c))) [
      | inl stop ↦ record {
        clusters = c ∷ [];
        chain = last (ground arith) stop;
        size = ground arith;
      }
      | inr more ↦
          let tail : Counted fs (n + 1) (next_cluster fs c) r = rest (ground arith) in
          record {
            clusters = c ∷ tail.clusters;
            chain = link (ground arith) more tail.chain;
            size = omega (arith, tail.size);
          }
    ]
  ]

count_clusters-Counted :
    (fuel : ℕ) (fs : FatFs) (n c r : ℕ) → count_clusters fuel fs n c ≡ returned r → Counted fs n c r
unfolding count_clusters
count_clusters-Counted zero fs n c r h = absurd (ground (arith, h))
count_clusters-Counted (suc fuel) fs n c r h =
    Counted-step fuel fs n c r (count_clusters-Counted fuel fs (n + 1) (next_cluster fs c) r) h

-- A count that comes back, with whatever fuel, is the length of a chain of the table.
pub fat_getclustercount-Counted :
    (fuel : ℕ) (fs : FatFs) (c r : ℕ)
    → fat_getclustercount fuel c fs ≡ returned r
    → Counted fs 1 c r
fat_getclustercount-Counted fuel fs c r h = count_clusters-Counted fuel fs 1 c r h

-- Clusters that the table never leads out of, and none of which is an end of a chain.
pub record IsCycle (fs : FatFs) (S : ℕ → Type 0) : Type 0 where
  pub inside : (c : ℕ) → S c → c < fs.fat_entries
  pub goes_on : (c : ℕ) → S c → end_of_chain (fs.fattlb c) ≡ false
  pub closed : (c : ℕ) → S c → S (next_cluster fs c)

count_clusters-IsCycle :
    {fs : FatFs} {S : ℕ → Type 0}
    → IsCycle fs S
    → (fuel n c : ℕ) → S c
    → count_clusters fuel fs n c ≡ runs_on
unfolding count_clusters
count_clusters-IsCycle cycle zero n c s = refl
count_clusters-IsCycle {fs} cycle (suc fuel) n c s = ground (
  arith,
  cycle.inside c s,
  cycle.goes_on c s,
  count_clusters-IsCycle cycle fuel (n + 1) (next_cluster fs c) (cycle.closed c s),
)

-- From a cluster of a cycle no number of rounds comes to an end.
pub fat_getclustercount-IsCycle :
    {fs : FatFs} {S : ℕ → Type 0}
    → IsCycle fs S
    → (fuel c : ℕ) → S c
    → fat_getclustercount fuel c fs ≡ runs_on
fat_getclustercount-IsCycle cycle fuel c s = count_clusters-IsCycle cycle fuel 1 c s
