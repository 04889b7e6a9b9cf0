-- ===== src/Pmm/Hooks.antt =====
-- The hooks of the heap in kernel/src/malloc.c, over the page allocator.
use mnes_hrel.Common.{ℕ, suc, ◌≡◌, ◌≢◌, ap}
use mnes_hrel.Pmm.{Pmm, Result, returned, runs_on, alloc_page, free_page}
use mnes_hrel.Pmm.Alloc.{Single}
use mnes_hrel.Pmm.Free.{free_page-alloc_page}

-- `liballoc_lock`.
unfoldable liballoc_lock : Pmm → ℕ × Pmm
liballoc_lock s = (0, s)

-- `liballoc_unlock`.
unfoldable liballoc_unlock : Pmm → ℕ × Pmm
liballoc_unlock s = (0, s)

unfoldable liballoc_alloc : ℕ → ℕ → Pmm → Result (ℕ × Pmm)
liballoc_alloc fuel pages s = alloc_page fuel pages s

-- The result 0, where `freePage` comes back.
abbrev with_zero : Result Pmm → Result (ℕ × Pmm)
with_zero (returned s) = returned (0, s)
with_zero runs_on = runs_on

unfoldable liballoc_free : ℕ → ℕ → ℕ → Pmm → Result (ℕ × Pmm)
unfolding free_page
liballoc_free fuel ptr pages s = with_zero (free_page fuel ptr pages s)

-- All the pages of the one free chunk, taken by the heap and given back under the lock: every call
-- succeeds, and the free chunk is the one before.
liballoc_free-liballoc_alloc :
    {r k : ℕ} {s : Pmm}
    → Single r k s
    → (fuel : ℕ) → k ≢ 0
    → (taken after : Pmm) × (liballoc_alloc (suc fuel) k (liballoc_lock s).1 ≡ returned (r, taken))
      × (liballoc_free fuel r k (liballoc_unlock taken).1 ≡ returned (0, after))
      × Single r k after
unfolding liballoc_lock liballoc_unlock liballoc_alloc liballoc_free
liballoc_free-liballoc_alloc h fuel some_pages =
    let (taken, after, takes, frees, single) = free_page-alloc_page h fuel some_pages in
    (taken, after, takes, ap with_zero frees, single)
