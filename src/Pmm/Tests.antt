-- ===== src/Pmm/Tests.antt =====
-- The page allocator on 16 pages behind a kernel that ends at 0xF0000.
use mnes_hrel.Common.{ℕ, ◌≡◌, [], ◌∷◌, arith}
use mnes_hrel.Pmm.{MemChunk, Pmm, returned, runs_on, init_pmm, alloc_page, free_page}
use mnes_hrel.Pmm.Alloc.{
  Single, TakesAll, alloc_pages, alloc_page-runs_on, alloc_pages-TakesAll, init_pmm-Single,
}
use mnes_hrel.Pmm.Free.{free_page-alloc_page}

abbrev memory : ℕ → MemChunk
memory a = record { page_count = 7; prev = 8; next = 9 }

abbrev start : Pmm
start = init_pmm 1 0xF0000 memory

start-Single : Single 0xF0000 16 start
start-Single = init_pmm-Single 1 0xF0000 memory (omega arith) (omega arith) (omega arith)

alloc_page-runs_on_example : alloc_page 100 17 start ≡ runs_on
alloc_page-runs_on_example = alloc_page-runs_on start-Single 100 17 (omega arith)

alloc_pages-TakesAll_example :
    TakesAll 0xF0000 16 (3 ∷ 1 ∷ 4 ∷ []) (alloc_pages (3 ∷ 1 ∷ 4 ∷ []) start)
alloc_pages-TakesAll_example = alloc_pages-TakesAll (3 ∷ 1 ∷ 4 ∷ []) start-Single (omega arith)

free_page-alloc_page_example :
    (taken after : Pmm) × (alloc_page 1 16 start ≡ returned (0xF0000, taken))
    × (free_page 0 0xF0000 16 taken ≡ returned after)
    × Single 0xF0000 16 after
free_page-alloc_page_example = free_page-alloc_page start-Single 0 (omega arith)
