-- ===== src/Pmm/Free.antt =====
-- `freePage`: what comes back to the allocator, what is lost, and where the loop does not end.
use mnes_hrel.Common.{
  ℕ, zero, suc, ◌+◌, ◌-◌, ◌*◌, ◌≤◌, ◌<◌, ◌≡◌, ◌≢◌, refl, ap, ◌∙◌, arith, u32, update,
}
use mnes_hrel.Pmm.{
  MemChunk, Pmm, returned, runs_on, alloc_page, merge_prior, merge_chunks, free_before, free_page,
}
use mnes_hrel.Pmm.Alloc.{Single, Full, prev_lem, alloc_page-Full}

-- With nothing free, the pages that are given back are the free chunk.
pub free_page-Single :
    (s : Pmm)
    → Full s
    → (fuel addr n : ℕ) → addr ≢ 0
    → n ≢ 0
    → addr + n * 4096 < 4294967296
    → (after : Pmm) × (free_page fuel addr n s ≡ returned after) × Single addr n after
unfolding free_page
free_page-Single s full fuel addr n not_null some_pages range = (
  record {
    root_mem_node = addr;
    mem_free = s.mem_free;
    mem_used = u32 (s.mem_used + 4294967296 - u32 (n * 4096));
    chunk = update s.chunk addr (record { page_count = n; prev = 0; next = 0 });
  },
  ground arith,
  record { root = refl; not_null = not_null; header = ground arith; range = range },
)

-- All the pages of the one free chunk, allocated at once and given back: the free chunk is the one
-- before.
pub free_page-alloc_page :
    {r k : ℕ} {s : Pmm}
    → Single r k s
    → (fuel : ℕ) → k ≢ 0
    → (taken after : Pmm) × (alloc_page (suc fuel) k s ≡ returned (r, taken))
      × (free_page fuel r k taken ≡ returned after)
      × Single r k after
free_page-alloc_page {r} {k} h fuel some_pages =
    let (taken, runs, full) = alloc_page-Full h fuel k refl in
    let (after, frees, single) =
      free_page-Single taken full fuel r k h.not_null some_pages h.range in
    (taken, after, runs, frees, single)

stays :
    {r k : ℕ} {s : Pmm}
    → Single r k s
    → (fuel addr n : ℕ) → r ≤ addr
    → free_before fuel addr n r s ≡ runs_on
unfolding free_before
stays h zero addr n above = refl
stays h (suc fuel) addr n above = ground (arith, h.not_null, stays h fuel addr n above)

-- With one free chunk, a call that gives pages back from its start or from behind it never comes
-- back.
pub free_page-runs_on :
    {r k : ℕ} {s : Pmm}
    → Single r k s
    → (fuel addr n : ℕ) → n ≢ 0
    → r ≤ addr
    → free_page fuel addr n s ≡ runs_on
unfolding free_page
free_page-runs_on {r} {k} {s} h fuel addr n some_pages above = ground (
  arith,
  h.not_null,
  h.root,
  ap (λ (p : ℕ). free_before fuel addr n p s) h.root,
  stays h fuel addr n above,
)

-- Merging behind nothing leaves the other chunks alone.
merge_keeps :
    (addr r : ℕ) (chunk : ℕ → MemChunk) → addr < r → merge_chunks 0 addr r chunk r ≡ chunk r
unfolding merge_chunks merge_prior
merge_keeps addr r chunk below = ground arith

module _ {r k : ℕ} {s : Pmm} (h : Single r k s) (addr n : ℕ) (below : addr < r) where
  abbrev freed : MemChunk
  freed = record { page_count = n; prev = (s.chunk r).prev; next = r }

  abbrev merged : ℕ → MemChunk
  merged = merge_chunks (s.chunk r).prev addr r (update s.chunk addr freed)

  free_before_lem :
      (fuel : ℕ) → free_before (suc fuel) addr n r s ≡ returned (record s { chunk = merged })
  unfolding free_before
  free_before_lem fuel = ground (arith, h.not_null)

  merged-header : merged r ≡ record { page_count = k; prev = 0; next = 0 }
  merged-header =
      let kept : update s.chunk addr freed r ≡ s.chunk r = ground arith in
      ap (λ (q : ℕ). merge_chunks q addr r (update s.chunk addr freed) r) (prev_lem h)
      ∙ merge_keeps addr r (update s.chunk addr freed) below
      ∙ kept
      ∙ h.header

  -- With one free chunk, pages given back from before it are lost, unless their number or address
  -- is 0: the call comes back, and the free chunk is what it was, without them.
  pub free_page-lost :
      (fuel : ℕ)
      → addr ≢ 0
      → n ≢ 0
      → (after : Pmm) × (free_page (suc fuel) addr n s ≡ returned after) × Single r k after
  unfolding free_page
  free_page-lost fuel not_null some_pages = (
    record s { chunk = merged; mem_used = u32 (s.mem_used + 4294967296 - u32 (n * 4096)) },
    ground (
      arith,
      h.root,
      h.not_null,
      ap (λ (p : ℕ). free_before (suc fuel) addr n p s) h.root,
      free_before_lem fuel,
    ),
    record { root = h.root; not_null = h.not_null; header = merged-header; range = h.range },
  )
