-- ===== src/Pmm/Alloc.antt =====
-- Allocation from a list of one chunk, the only list that `init_pmm`, `allocPage` and `freePage` make.
use mnes_hrel.Common.{
  ℕ, zero, suc, ◌+◌, ◌-◌, ◌*◌, ◌/◌, ◌≤◌, ◌<◌, ◌≡◌, ◌≢◌, refl, ap, subst, ◌∙◌, List, [], ◌∷◌, arith,
  u32, update,
}
use mnes_hrel.Pmm.{
  MemChunk, Pmm, Result, returned, runs_on, unlink, split, init_pmm, alloc_from, alloc_page,
}

-- One free chunk of `k` pages at `r`, within 32-bit addresses.
pub record Single (r k : ℕ) (s : Pmm) : Type 0 where
  pub root : s.root_mem_node ≡ r
  pub not_null : r ≢ 0
  pub header : s.chunk r ≡ record { page_count = k; prev = 0; next = 0 }
  pub range : r + k * 4096 < 4294967296

-- No free chunk.
abbrev pub Full : Pmm → Type 0
Full s = s.root_mem_node ≡ 0

-- What an allocation of `n` pages does to a chunk of `k > n` pages.
pub record Takes (r k n : ℕ) (s : Pmm) (o : Result (ℕ × Pmm)) : Type 0 where
  pub after : Pmm
  pub comes_back : o ≡ returned (r, after)
  pub left : Single (r + n * 4096) (k - n) after
  pub used : after.mem_used ≡ u32 (s.mem_used + n * 4096)

module _ {r k : ℕ} {s : Pmm} (h : Single r k s) where
  count_lem : (s.chunk r).page_count ≡ k
  count_lem = ap (λ (c : MemChunk). c.page_count) h.header

  pub prev_lem : (s.chunk r).prev ≡ 0
  prev_lem = ap (λ (c : MemChunk). c.prev) h.header

  next_lem : (s.chunk r).next ≡ 0
  next_lem = ap (λ (c : MemChunk). c.next) h.header

  -- The state after the first `n` pages were given out.
  abbrev without : ℕ → Pmm
  without n = record {
    root_mem_node = r + n * 4096;
    mem_free = s.mem_free;
    mem_used = u32 (s.mem_used + n * 4096);
    chunk = update s.chunk (r + n * 4096) (record { page_count = k - n; prev = 0; next = 0 });
  }

module _ {r k : ℕ} {s : Pmm} (h : Single r k s) (n : ℕ) where
  split_lem : n < k → split n r s ≡ record (without h n) { mem_used = s.mem_used }
  unfolding split
  split_lem small =
      let break_eq : u32 (r + u32 (n * 4096)) ≡ r + n * 4096 = omega (arith, h.range) in
      ground (arith, break_eq, count_lem h, prev_lem h, next_lem h)

module _ {r k : ℕ} {s : Pmm} (h : Single r k s) (fuel n : ℕ) where
  -- With one free chunk, a request for fewer pages than it has returns its start; the rest of it,
  -- right behind the pages given out, is the free chunk then, and the pages count as used.
  pub alloc_page-Takes : n < k → Takes r k n s (alloc_page (suc fuel) n s)
  unfolding alloc_from
  alloc_page-Takes small = record {
    after = without h n;
    comes_back =
        ap (λ (p : ℕ). alloc_from (suc fuel) n p s) h.root
        ∙ ground (arith, count_lem h, split_lem h n small, h.not_null, h.range);
    left = record {
      root = refl;
      not_null = omega (arith, h.not_null);
      header = ground arith;
      range = omega (arith, h.range);
    };
    used = refl;
  }

  -- With one free chunk, a request for as many pages as it has returns its start, and nothing is
  -- free then.
  pub alloc_page-Full :
      n ≡ k → (after : Pmm) × (alloc_page (suc fuel) n s ≡ returned (r, after)) × Full after
  unfolding alloc_from unlink
  alloc_page-Full all = (
    record s { root_mem_node = 0; mem_used = u32 (s.mem_used + u32 (n * 4096)) },
    ap (λ (p : ℕ). alloc_from (suc fuel) n p s) h.root
        ∙ ground (arith, count_lem h, prev_lem h, next_lem h, h.not_null),
    refl,
  )

too_large :
    {r k : ℕ} {s : Pmm} → Single r k s → (fuel n : ℕ) → k < n → alloc_from fuel n r s ≡ runs_on
unfolding alloc_from
too_large h zero n more = refl
too_large h (suc fuel) n more = ground (arith, count_lem h, h.not_null, too_large h fuel n more)

-- With one free chunk, a request for more pages than it has never comes back, neither with pages
-- nor with NULL.
pub alloc_page-runs_on :
    {r k : ℕ} {s : Pmm} → Single r k s → (fuel n : ℕ) → k < n → alloc_page fuel n s ≡ runs_on
alloc_page-runs_on {r} {k} {s} h fuel n more =
    ap (λ (p : ℕ). alloc_from fuel n p s) h.root ∙ too_large h fuel n more

-- If the kernel ends inside a memory that ends below 4 GB, and not at 0, the allocator starts with
-- one free chunk: the whole pages from there to the end of the memory.
pub init_pmm-Single :
    (sys_mem kstart : ℕ) (chunk : ℕ → MemChunk)
    → kstart ≢ 0
    → kstart ≤ sys_mem * 1048576
    → sys_mem * 1048576 < 4294967296
    → Single kstart ((sys_mem * 1048576 - kstart) / 4096) (init_pmm sys_mem kstart chunk)
unfolding init_pmm
init_pmm-Single sys_mem kstart chunk not_null inside small =
    let mem : u32 (sys_mem * 1024 * 1024 + 4294967296 - kstart) ≡ sys_mem * 1048576 - kstart =
      omega arith in
    record { root = refl; not_null = not_null; header = ground (arith, mem); range = omega arith }

abbrev pub total : List ℕ → ℕ
total [] = 0
total (n ∷ ns) = n + total ns

-- Ranges of pages one behind the other: where the requests `ns` start from `r` on.
abbrev pub starts : ℕ → List ℕ → List ℕ
starts r [] = []
starts r (n ∷ ns) = r ∷ starts (r + n * 4096) ns

-- A call and what follows it.
abbrev and_then : {A : Type 0} → Result (ℕ × Pmm) → (ℕ → Pmm → Result A) → Result A
and_then runs_on next = runs_on
and_then (returned (p, after)) next = next p after

abbrev with_first : ℕ → Result (List ℕ × Pmm) → Result (List ℕ × Pmm)
with_first p runs_on = runs_on
with_first p (returned (ps, after)) = returned (p ∷ ps, after)

-- Calls of `allocPage` in sequence, and the addresses they return.
unfoldable pub alloc_pages : List ℕ → Pmm → Result (List ℕ × Pmm)
alloc_pages [] s = returned ([], s)
alloc_pages (n ∷ ns) s =
    and_then (alloc_page 1 n s) (λ p after. with_first p (alloc_pages ns after))

moved : {r r' k k' : ℕ} {s : Pmm} → r ≡ r' → k ≡ k' → Single r k s → Single r' k' s
moved {r'} {k} {s} e d h = subst (λ (j : ℕ). Single r' j s) d (subst (λ (q : ℕ). Single q k s) e h)

-- What successive allocations of `ns` pages come back with.
pub record TakesAll (r k : ℕ) (ns : List ℕ) (o : Result (List ℕ × Pmm)) : Type 0 where
  pub after : Pmm
  pub comes_back : o ≡ returned (starts r ns, after)
  pub left : Single (r + total ns * 4096) (k - total ns) after

-- With one free chunk, allocations in sequence, together of fewer pages than it has, all succeed:
-- the ranges they get lie one behind the other from its start on, and the rest stays free.
pub alloc_pages-TakesAll :
    (ns : List ℕ) {r k : ℕ} {s : Pmm}
    → Single r k s
    → total ns < k
    → TakesAll r k ns (alloc_pages ns s)
unfolding alloc_pages
alloc_pages-TakesAll [] {s} h fits = record {
  after = s;
  comes_back = refl;
  left = moved (omega arith) (omega arith) h;
}
alloc_pages-TakesAll (n ∷ ns) {r} {k} {s} h fits =
    let first : Takes r k n s (alloc_page 1 n s) = alloc_page-Takes h 0 n (omega arith) in
    let rest : TakesAll (r + n * 4096) (k - n) ns (alloc_pages ns first.after) =
      alloc_pages-TakesAll ns first.left (omega arith) in
    record {
      after = rest.after;
      comes_back =
          ap (λ (o : Result (ℕ × Pmm)). and_then o (λ p after. with_first p (alloc_pages ns after)))
            first.comes_back
          ∙ ap (with_first r) rest.comes_back;
      left = moved (omega arith) (omega arith) rest.left;
    }
