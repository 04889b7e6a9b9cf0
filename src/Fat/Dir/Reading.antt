-- ===== src/Fat/Dir/Reading.antt =====
-- Reading through a directory of kernel/src/fat32.c: every call comes back, and the end is reached.
use mnes_hrel.Common.{
  ℕ, ◌+◌, ◌%◌, ◌≤◌, ◌<◌, ◌≡◌, ◌≢◌, refl, ap, ◌∙◌, Bool, true, false, ◌||◌, some, ◌==◌, ltb,
  minus_one, Outcome, returned, arith, Bool-cases, eq_of_==, inl, inr, ◌⊎◌,
}
use mnes_hrel.Fat.Dir.{
  Dirent, HeapBlock, FatDir, is_long, long_name, short_name, dirent_of, fat_getdirent, next_entry,
  fat_readdir,
}

-- What an entry with 32 bytes in the buffer, 64 with a long name, comes to.
record Entry (buffer : HeapBlock) (at : ℕ) (o : Outcome (ℕ × Dirent)) : Type 0 where
  next : ℕ
  entry : Dirent
  comes_back : o ≡ returned (next, entry)
  step : (next ≡ 32) ⊎ ((next ≡ minus_one) ⊎ ((next ≡ 64) × (is_long buffer.bytes at ≡ true)))

fat_getdirent-Entry :
    (buffer : HeapBlock) (at : ℕ) (out : Dirent)
    → at + 32 ≤ buffer.size
    → (is_long buffer.bytes at ≡ true → at + 64 ≤ buffer.size)
    → Entry buffer at (fat_getdirent buffer at out)
unfolding fat_getdirent
fat_getdirent-Entry buffer at out fits long =
    let b : ℕ → ℕ = buffer.bytes in
    elim (Bool-cases (is_long b at)) [
      | inl is ↦ elim (Bool-cases (b (at + 32 + 11) == 0x10 || b (at + 32 + 11) == 0x20)) [
        | inl found ↦ record {
          next = 64;
          entry = dirent_of (b (at + 32 + 11)) (long_name b at out.d_name);
          comes_back = ground (arith, is, found, long is);
          step = inr (inr (refl, is));
        }
        | inr other ↦ record {
          next = minus_one;
          entry = out;
          comes_back = ground (arith, is, other, long is);
          step = inr (inl refl);
        }
      ]
      | inr not_long ↦ elim (Bool-cases (b (at + 11) == 0x10 || b (at + 11) == 0x20)) [
        | inl found ↦ record {
          next = 32;
          entry = dirent_of (b (at + 11)) (short_name b at out.d_name);
          comes_back = ground (arith, not_long, found, fits);
          step = inl refl;
        }
        | inr other ↦ record {
          next = minus_one;
          entry = out;
          comes_back = ground (arith, not_long, other, fits);
          step = inr (inl refl);
        }
      ]
    ]

-- An open directory of whole entries that does not end with a long one, with the pointer at one of
-- them or at the end.
pub record InOrder (buffer : HeapBlock) (dir : FatDir) : Type 0 where
  pub block : dir.data_block ≡ some buffer
  pub fits : dir.size ≤ buffer.size
  pub whole : dir.size % 32 ≡ 0
  pub at_entry : dir.readptr % 32 ≡ 0
  pub inside : dir.readptr ≤ dir.size
  pub last : (at : ℕ) → at + 32 ≡ dir.size → is_long buffer.bytes at ≡ false

-- What a call of `fat_readdir` leaves.
pub record Advances (buffer : HeapBlock) (dir : FatDir) (o : Outcome (Bool × FatDir × Dirent))
    : Type 0 where
  pub found : Bool
  pub after : FatDir
  pub rdir' : Dirent
  pub comes_back : o ≡ returned (found, after, rdir')
  pub order : InOrder buffer after
  pub same_size : after.size ≡ dir.size
  pub further : dir.readptr < dir.size → dir.readptr + 32 ≤ after.readptr
  pub at_end : dir.readptr ≡ dir.size → (found ≡ false) × (after ≡ dir)

moved-InOrder :
    (buffer : HeapBlock) (dir : FatDir) (at : ℕ)
    → InOrder buffer dir
    → at % 32 ≡ 0
    → at ≤ dir.size
    → InOrder buffer (record dir { readptr = at })
moved-InOrder buffer dir at h entry inside = record {
  block = h.block;
  fits = h.fits;
  whole = h.whole;
  at_entry = entry;
  inside = inside;
  last = h.last;
}

module _ (buffer : HeapBlock) (dir : FatDir) (rdir : Dirent) (h : InOrder buffer dir) where
  long_fits :
      dir.readptr < dir.size → is_long buffer.bytes dir.readptr ≡ true → dir.readptr + 64 ≤ dir.size
  long_fits before is = elim (Bool-cases (dir.readptr + 32 == dir.size)) [
    | inl end ↦
        absurd (ground (arith, is, h.last dir.readptr (eq_of_== (dir.readptr + 32) dir.size end)))
    | inr more ↦
        let other : dir.readptr + 32 ≢ dir.size = ground (arith, more) in
        omega (arith, h.whole, h.at_entry, other)
  ]

  read_lem :
      dir.readptr < dir.size
      → fat_readdir dir rdir ≡ next_entry dir rdir (fat_getdirent buffer dir.readptr rdir)
  unfolding fat_readdir
  read_lem before = ground (arith, h.block)

  pub end_lem : dir.readptr ≡ dir.size → fat_readdir dir rdir ≡ returned (false, dir, rdir)
  unfolding fat_readdir
  end_lem end = ground (arith, h.block, end)

  entry_lem :
      dir.readptr < dir.size → Entry buffer dir.readptr (fat_getdirent buffer dir.readptr rdir)
  entry_lem before =
      fat_getdirent-Entry buffer dir.readptr rdir (omega (arith, h.whole, h.at_entry, h.fits))
        (λ is. omega (arith, long_fits before is, h.fits))

  stepped :
      dir.readptr < dir.size
      → (o : Outcome (ℕ × Dirent)) → fat_readdir dir rdir ≡ next_entry dir rdir o
      → Entry buffer dir.readptr o
      → Advances buffer dir (fat_readdir dir rdir)
  unfolding next_entry
  stepped before o e entry =
      let known : fat_readdir dir rdir ≡ next_entry dir rdir (returned (entry.next, entry.entry)) =
        e ∙ ap (next_entry dir rdir) entry.comes_back in
      let end_no : dir.readptr ≡ dir.size → ⊥ = λ end. omega (arith, end) in
      elim entry.step [
        | inl short ↦ record {
          found = true;
          after = record dir { readptr = dir.readptr + 32 };
          rdir' = entry.entry;
          comes_back = known ∙ ground (arith, short);
          order =
              moved-InOrder buffer dir (dir.readptr + 32) h (omega (arith, h.at_entry))
                (omega (arith, h.whole, h.at_entry));
          same_size = refl;
          further = λ b. omega arith;
          at_end = λ end. absurd (end_no end);
        }
        | inr (inl no_entry) ↦ record {
          found = false;
          after = record dir { readptr = dir.readptr + 32 };
          rdir' = entry.entry;
          comes_back = known ∙ ground (arith, no_entry);
          order =
              moved-InOrder buffer dir (dir.readptr + 32) h (omega (arith, h.at_entry))
                (omega (arith, h.whole, h.at_entry));
          same_size = refl;
          further = λ b. omega arith;
          at_end = λ end. absurd (end_no end);
        }
        | inr (inr (long, is)) ↦ record {
          found = true;
          after = record dir { readptr = dir.readptr + 64 };
          rdir' = entry.entry;
          comes_back = known ∙ ground (arith, long);
          order =
              moved-InOrder buffer dir (dir.readptr + 64) h (omega (arith, h.at_entry))
                (long_fits before is);
          same_size = refl;
          further = λ b. omega arith;
          at_end = λ end. absurd (end_no end);
        }
      ]

  -- A call on such a directory comes back: it gives NULL at the end, and before that it steps over
  -- at least one entry.
  pub fat_readdir-Advances : Advances buffer dir (fat_readdir dir rdir)
  fat_readdir-Advances = elim (Bool-cases (ltb dir.readptr dir.size)) [
    | inl before ↦
        let inside : dir.readptr < dir.size = ground (arith, before) in
        stepped inside (fat_getdirent buffer dir.readptr rdir) (read_lem inside) (entry_lem inside)
    | inr past ↦
        let end : dir.readptr ≡ dir.size = ground (arith, past, h.inside) in
        record {
          found = false;
          after = dir;
          rdir' = rdir;
          comes_back = end_lem end;
          order = h;
          same_size = refl;
          further = λ b. absurd (omega (arith, end));
          at_end = λ e. (refl, refl);
        }
  ]
