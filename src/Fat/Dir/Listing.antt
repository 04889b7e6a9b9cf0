-- ===== src/Fat/Dir/Listing.antt =====
-- Calls of `fat_readdir` of kernel/src/fat32.c one after the other: the end of a directory, and the
-- way back with `fat_rewinddir`.
use mnes_hrel.Common.{
  ℕ, zero, suc, ◌+◌, ◌*◌, ◌≤◌, ◌≡◌, refl, sym, ap, ◌∙◌, Bool, false, ltb, Outcome, returned, fault,
  runs_on, Ends, and_then, arith, Bool-cases, Option-cases, inl, inr, ◌⊎◌, subst,
}
use mnes_hrel.Fat.Dir.{
  Dirent, HeapBlock, FatDir, fat_getdirent, next_entry, fat_readdir, fat_rewinddir, fat_closedir,
}
use mnes_hrel.Fat.Dir.Reading.{InOrder, Advances, end_lem, fat_readdir-Advances}

-- Calls of `fat_readdir` one after the other, whatever they give.
unfoldable pub readdirs : ℕ → FatDir → Dirent → Outcome (FatDir × Dirent)
unfolding fat_readdir
readdirs zero dir rdir = returned (dir, rdir)
readdirs (suc n) dir rdir = and_then (fat_readdir dir rdir) (λ r. readdirs n r.1 r.2)

-- What `n` calls leave: the pointer at least `n` entries further, or at the end.
pub record EndsAt (buffer : HeapBlock) (dir : FatDir) (n : ℕ) (o : Outcome (FatDir × Dirent))
    : Type 0 where
  pub after : FatDir
  pub rdir' : Dirent
  pub comes_back : o ≡ returned (after, rdir')
  pub order : InOrder buffer after
  pub same_size : after.size ≡ dir.size
  pub further : (after.readptr ≡ after.size) ⊎ (dir.readptr + 32 * n ≤ after.readptr)

pub readdirs-EndsAt :
    (n : ℕ) (buffer : HeapBlock) (dir : FatDir) (rdir : Dirent)
    → InOrder buffer dir
    → EndsAt buffer dir n (readdirs n dir rdir)
unfolding readdirs
readdirs-EndsAt zero buffer dir rdir h = record {
  after = dir;
  rdir' = rdir;
  comes_back = refl;
  order = h;
  same_size = refl;
  further = inr (omega arith);
}
readdirs-EndsAt (suc n) buffer dir rdir h =
    let first : Advances buffer dir (fat_readdir dir rdir) =
      fat_readdir-Advances buffer dir rdir h in
    let rest : EndsAt buffer first.after n (readdirs n first.after first.rdir') =
      readdirs-EndsAt n buffer first.after first.rdir' first.order in
    record {
      after = rest.after;
      rdir' = rest.rdir';
      comes_back =
          ap (λ (o : Outcome (Bool × FatDir × Dirent)). and_then o (λ r. readdirs n r.1 r.2))
            first.comes_back
          ∙ rest.comes_back;
      order = rest.order;
      same_size = rest.same_size ∙ first.same_size;
      further = elim (Bool-cases (ltb dir.readptr dir.size)) [
        | inl before ↦
            let one : dir.readptr + 32 ≤ first.after.readptr =
              first.further (ground (arith, before)) in
            elim rest.further [ inl end ↦ inl end | inr more ↦ inr (omega (arith, one, more)) ]
        | inr past ↦
            let end : dir.readptr ≡ dir.size = ground (arith, past, h.inside) in
            let same : first.after ≡ dir = (first.at_end end).1 in
            let ptr : first.after.readptr ≡ dir.readptr = ap (λ (d : FatDir). d.readptr) same in
            elim rest.further [
              | inl stop ↦ inl stop
              | inr more ↦ inl (
                  omega (arith, more, ptr, end, rest.order.inside, rest.same_size, first.same_size))
            ]
      ];
    }

-- An open directory of whole entries that lies in its block and does not end with a long-name
-- entry is read to its end: as many calls of `fat_readdir` as it has entries all come back, and
-- the call after them gives NULL and changes nothing.
pub readdirs-end :
    (n : ℕ) (buffer : HeapBlock) (dir : FatDir) (rdir : Dirent)
    → InOrder buffer dir
    → dir.size ≤ 32 * n
    → Ends (λ r. fat_readdir r.0 r.1 ≡ returned (false, r.0, r.1)) (readdirs n dir rdir)
readdirs-end n buffer dir rdir h enough =
    let all : EndsAt buffer dir n (readdirs n dir rdir) = readdirs-EndsAt n buffer dir rdir h in
    let end : all.after.readptr ≡ all.after.size = elim all.further [
      | inl e ↦ e
      | inr more ↦ omega (arith, more, enough, all.same_size, all.order.inside)
    ] in
    subst (Ends (λ (r : FatDir × Dirent). fat_readdir r.0 r.1 ≡ returned (false, r.0, r.1)))
      (sym all.comes_back) (end_lem buffer all.after all.rdir' all.order end)

next_entry-block :
    (dir : FatDir) (rdir : Dirent) (o : Outcome (ℕ × Dirent)) (found : Bool) (after : FatDir)
    (rdir' : Dirent)
    → next_entry dir rdir o ≡ returned (found, after, rdir')
    → (after.data_block ≡ dir.data_block) × (after.size ≡ dir.size)
unfolding next_entry
next_entry-block dir rdir (returned (next, entry)) found after rdir' e = ground (arith, e)
next_entry-block dir rdir fault found after rdir' e = ground (arith, e)
next_entry-block dir rdir runs_on found after rdir' e = ground (arith, e)

fat_readdir-block :
    (dir : FatDir) (rdir : Dirent) (found : Bool) (after : FatDir) (rdir' : Dirent)
    → fat_readdir dir rdir ≡ returned (found, after, rdir')
    → (after.data_block ≡ dir.data_block) × (after.size ≡ dir.size)
unfolding fat_readdir
fat_readdir-block dir rdir found after rdir' e = elim (Option-cases dir.data_block) [
  | inl closed ↦ ground (arith, e, closed)
  | inr (buffer, is) ↦ ground (
    arith,
    e,
    is,
    next_entry-block dir rdir (fat_getdirent buffer dir.readptr rdir) found after rdir',
  )
]

-- The rest of the calls behind the first.
rest-block :
    (n : ℕ) (dir : FatDir) (rdir : Dirent) (after : FatDir) (rdir' : Dirent)
    (o : Outcome (Bool × FatDir × Dirent))
    → ((next : FatDir) (entry : Dirent)
        → readdirs n next entry ≡ returned (after, rdir')
        → (after.data_block ≡ next.data_block) × (after.size ≡ next.size))
    → fat_readdir dir rdir ≡ o
    → and_then o (λ r. readdirs n r.1 r.2) ≡ returned (after, rdir')
    → (after.data_block ≡ dir.data_block) × (after.size ≡ dir.size)
rest-block n dir rdir after rdir' (returned (found, next, entry)) rest first e =
    let kept = fat_readdir-block dir rdir found next entry first in
    let onward = rest next entry e in (onward.0 ∙ kept.0, onward.1 ∙ kept.1)
rest-block n dir rdir after rdir' fault rest first e = absurd (ground (arith, e))
rest-block n dir rdir after rdir' runs_on rest first e = absurd (ground (arith, e))

readdirs-block :
    (n : ℕ) (dir : FatDir) (rdir : Dirent) (after : FatDir) (rdir' : Dirent)
    → readdirs n dir rdir ≡ returned (after, rdir')
    → (after.data_block ≡ dir.data_block) × (after.size ≡ dir.size)
unfolding readdirs
readdirs-block zero dir rdir after rdir' e = ground (arith, e)
readdirs-block (suc n) dir rdir after rdir' e =
    rest-block n dir rdir after rdir' (fat_readdir dir rdir)
      (λ next entry. readdirs-block n next entry after rdir') refl e

-- After any calls of `fat_readdir` on a directory that was at its start, `fat_rewinddir` gives that
-- directory back.
pub fat_rewinddir-readdirs :
    (n : ℕ) (dir : FatDir) (rdir : Dirent) (after : FatDir) (rdir' : Dirent)
    → dir.readptr ≡ 0
    → readdirs n dir rdir ≡ returned (after, rdir')
    → fat_rewinddir after ≡ dir
fat_rewinddir-readdirs n dir rdir after rdir' start e =
    let kept = readdirs-block n dir rdir after rdir' e in
    λ t. record { data_block = kept.0 t; readptr = sym start t; size = kept.1 t }

-- A closed directory has no entries: every call of `fat_readdir` gives NULL.
pub fat_readdir-fat_closedir :
    (dir : FatDir) (rdir : Dirent)
    → fat_readdir (fat_closedir dir).1 rdir ≡ returned (false, (fat_closedir dir).1, rdir)
unfolding fat_readdir
fat_readdir-fat_closedir dir rdir = refl
