-- ===== src/Pmm.antt =====
-- The page allocator, kernel/src/pmm.c: a list of free chunks whose headers lie in the free pages.
pub mod Alloc
pub mod Free
mod Hooks
mod Tests
use mnes_hrel.Common.{
  ℕ, zero, suc, ◌+◌, ◌-◌, ◌*◌, ◌/◌, Bool, not, ◌&&◌, ◌||◌, ◌==◌, leb, ltb, if◌then◌else◌, u32,
  update,
}

-- `struct MemChunk`; a pointer is an address, and 0 is NULL.
pub record MemChunk : Type 0 where
  pub page_count : ℕ
  pub prev : ℕ
  pub next : ℕ

-- The globals, and the chunk header that memory holds at each address. Chunks start pages, so that
-- no two headers overlap.
pub record Pmm : Type 0 where
  pub root_mem_node : ℕ
  pub mem_free : ℕ
  pub mem_used : ℕ
  pub chunk : ℕ → MemChunk

-- What a call comes to: a result, or a loop that is still going on when the fuel ends.
pub data Result {ℓ} (A : Type ℓ) : Type ℓ where
  returned : A → Result A
  runs_on : Result A

-- `SYS_MEM` megabytes with the kernel up to `kstart`; `chunk` is what memory held.
unfoldable pub init_pmm : ℕ → ℕ → (ℕ → MemChunk) → Pmm
init_pmm sys_mem kstart chunk =
    let mem : ℕ = u32 (sys_mem * 1024 * 1024 + 4294967296 - kstart) in
    record {
      root_mem_node = kstart;
      mem_free = mem;
      mem_used = u32 (sys_mem + 4294967296 - mem);
      chunk = update chunk kstart (record { page_count = mem / 4096; prev = 0; next = 0 });
    }

-- `p->next = q`.
abbrev pub set_next : (ℕ → MemChunk) → ℕ → ℕ → ℕ → MemChunk
set_next chunk p q = update chunk p (record (chunk p) { next = q })

-- The chunk `p` is taken out of the list.
unfoldable pub unlink : ℕ → Pmm → Pmm
unlink p s =
    let c : MemChunk = s.chunk p in
    if not (c.prev == 0)
    then record s { chunk = set_next s.chunk c.prev (if not (c.next == 0) then c.next else 0) }
    else record s { root_mem_node = if not (c.next == 0) then c.next else 0 }

-- The first `n` pages of the chunk `p` are taken, and a new chunk stands behind them.
unfoldable pub split : ℕ → ℕ → Pmm → Pmm
split n p s =
    let c : MemChunk = s.chunk p in
    let break_addr : ℕ = u32 (p + u32 (n * 4096)) in
    let new_chunk : MemChunk = record {
      page_count = c.page_count - n;
      prev = c.prev;
      next = c.next;
    } in
    let chunk : ℕ → MemChunk = update s.chunk break_addr new_chunk in
    if not ((chunk p).prev == 0)
    then record s { chunk = set_next chunk (chunk p).prev break_addr }
    else record s { chunk = chunk; root_mem_node = break_addr }

-- The rounds of the loop at the chunk `p`. The step to another chunk stands inside the test for a
-- large enough one, behind its two returns: a smaller chunk is looked at again.
unfoldable pub alloc_from : ℕ → ℕ → ℕ → Pmm → Result (ℕ × Pmm)
unfolding unlink split
alloc_from zero n p s = runs_on
alloc_from (suc fuel) n p s =
    let again : Result (ℕ × Pmm) = alloc_from fuel n p s in
    let used : ℕ = u32 (s.mem_used + u32 (n * 4096)) in
    if p == 0
    then returned (0, s)
    else if not (leb n (s.chunk p).page_count)
    then again
    else if (s.chunk p).page_count == n
    then returned (p, record (unlink p s) { mem_used = used })
    else returned (p, record (split n p s) { mem_used = used })

abbrev pub alloc_page : ℕ → ℕ → Pmm → Result (ℕ × Pmm)
alloc_page fuel n s = alloc_from fuel n s.root_mem_node s

-- `MergeChunks` up to the change of `freed`: the memory and the chunk that is `freed` then.
unfoldable pub merge_prior : ℕ → ℕ → ℕ → (ℕ → MemChunk) → ℕ × (ℕ → MemChunk)
merge_prior prior freed post chunk =
    if not (prior == 0) && (u32 (prior + u32 ((chunk prior).page_count * 4096)) == freed)
    then (
      prior,
      update chunk prior (record (chunk prior) {
        page_count = u32 ((chunk prior).page_count + (chunk freed).page_count);
        next = post;
      }),
    )
    else (freed, chunk)

unfoldable pub merge_chunks : ℕ → ℕ → ℕ → (ℕ → MemChunk) → ℕ → MemChunk
unfolding merge_prior
merge_chunks prior freed post chunk =
    let (joined, after) = merge_prior prior freed post chunk in
    if not (post == 0) && (u32 (joined + u32 ((after joined).page_count * 4096)) == post)
    then update after joined (record (after joined) {
      page_count = u32 ((after joined).page_count + (after post).page_count);
      next = (after post).next;
    })
    else after

-- The rounds of the loop of `freePage` at the chunk `p`, which no round changes.
unfoldable pub free_before : ℕ → ℕ → ℕ → ℕ → Pmm → Result Pmm
unfolding merge_chunks
free_before zero addr n p s = runs_on
free_before (suc fuel) addr n p s =
    let again : Result Pmm = free_before fuel addr n p s in
    let freed : MemChunk = record { page_count = n; prev = (s.chunk p).prev; next = p } in
    if p == 0
    then returned s
    else if ltb addr p
    then returned
        (record s { chunk = merge_chunks (s.chunk p).prev addr p (update s.chunk addr freed) })
    else again

-- `MemUsed -= numOfPages * 4096` at the end.
abbrev pub less_used : ℕ → Result Pmm → Result Pmm
less_used n (returned s) =
    returned (record s { mem_used = u32 (s.mem_used + 4294967296 - u32 (n * 4096)) })
less_used n runs_on = runs_on

unfoldable pub free_page : ℕ → ℕ → ℕ → Pmm → Result Pmm
unfolding free_before
free_page fuel addr n s =
    if (addr == 0) || (n == 0)
    then returned s
    else if not (s.root_mem_node == 0)
    then less_used n (free_before fuel addr n s.root_mem_node s)
    else less_used n (
        returned (record s {
          root_mem_node = addr;
          chunk = update s.chunk addr (record { page_count = n; prev = 0; next = 0 });
        }))
