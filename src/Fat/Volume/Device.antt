-- ===== src/Fat/Volume/Device.antt =====
-- Block devices: what a reading device promises, and that the multi-block read of
-- kernel/src/pl181.c keeps the promise if single blocks are read right.
use mnes_hrel.Common.{
  ℕ, zero, suc, ◌+◌, ◌-◌, ◌*◌, ◌≤◌, ◌<◌, ◌≡◌, ap, ◌∙◌, arith, leb, ltb, ◌&&◌, if◌then◌else◌, u32,
}
use mnes_hrel.Fat.Volume.{BlockDevice}

-- The buffer after `n` bytes of `src` were stored from offset `i`.
abbrev pub stored : (ℕ → ℕ) → ℕ → ℕ → (ℕ → ℕ) → ℕ → ℕ
stored b i n src j = if leb i j && ltb j (i + n) then src (j - i) else b j

-- The bytes of a disk from block `lba` on.
abbrev pub from_block : (ℕ → ℕ) → ℕ → ℕ → ℕ
from_block disk lba j = disk (lba * 512 + j)

-- The calls that stay within 32 bits store the bytes of the disk and return their number.
pub record Serves (dev : BlockDevice) (disk : ℕ → ℕ) : Type 0 where
  pub reads :
      (b : ℕ → ℕ) (i lba n : ℕ)
      → lba + n < 4294967296
      → 512 * n < 4294967296
      → dev.readblocks b i lba n ≡ (512 * n, stored b i (512 * n) (from_block disk lba))

-- The loop of `mmci_read_blocks`, over `mmci_read_block`.
unfoldable pub read_each : ((ℕ → ℕ) → ℕ → ℕ → ℕ × (ℕ → ℕ)) → ℕ → (ℕ → ℕ) → ℕ → ℕ → ℕ → ℕ × (ℕ → ℕ)
read_each read zero readbuffer i addr bytesread = (bytesread, readbuffer)
read_each read (suc n) readbuffer i addr bytesread =
    let (got, after) = read readbuffer i addr in
    read_each read n after (i + 512) (u32 (addr + 1)) (u32 (bytesread + got))

unfoldable pub mmci_read_blocks :
    ((ℕ → ℕ) → ℕ → ℕ → ℕ × (ℕ → ℕ)) → (ℕ → ℕ) → ℕ → ℕ → ℕ → ℕ × (ℕ → ℕ)
mmci_read_blocks read buffer i addr numblocks = read_each read numblocks buffer i addr 0

-- What `pl181_get_block_device` fills in, over `mmci_read_block`.
abbrev pub pl181_get_block_device : ((ℕ → ℕ) → ℕ → ℕ → ℕ × (ℕ → ℕ)) → BlockDevice
pl181_get_block_device read = record { read = read; readblocks = mmci_read_blocks read }

-- A function that reads single blocks of a disk.
abbrev pub ReadsBlocks : ((ℕ → ℕ) → ℕ → ℕ → ℕ × (ℕ → ℕ)) → (ℕ → ℕ) → Type 0
ReadsBlocks read disk =
    (b : ℕ → ℕ) (i lba : ℕ)
    → lba < 4294967296
    → read b i lba ≡ (512, stored b i 512 (from_block disk lba))

shifted :
    (disk : ℕ → ℕ) (lba i j : ℕ)
    → i + 512 ≤ j
    → disk ((lba + 1) * 512 + (j - (i + 512))) ≡ disk (lba * 512 + (j - i))
shifted disk lba i j h = ap disk (omega arith)

module _ (b disk : ℕ → ℕ) (i lba n : ℕ) where
  stored_at :
      (j : ℕ)
      → stored
          (stored b i 512 (from_block disk lba))
          (i + 512)
          (512 * n)
          (from_block disk (lba + 1))
          j
        ≡ stored b i (512 * (n + 1)) (from_block disk lba) j
  stored_at j = ground (arith, shifted disk lba i j)

  -- One block and then `n` blocks.
  stored-stored :
      stored (stored b i 512 (from_block disk lba)) (i + 512) (512 * n) (from_block disk (lba + 1))
      ≡ stored b i (512 * (n + 1)) (from_block disk lba)
  stored-stored = λ t j. stored_at j t

nothing_at : (b src : ℕ → ℕ) (i j : ℕ) → b j ≡ stored b i (512 * 0) src j
nothing_at b src i j = ground arith

read_each-stored :
    {read : (ℕ → ℕ) → ℕ → ℕ → ℕ × (ℕ → ℕ)} (disk : ℕ → ℕ)
    → ReadsBlocks read disk
    → (n : ℕ) (b : ℕ → ℕ) (i lba bytes : ℕ) → lba + n < 4294967296
    → bytes + 512 * n < 4294967296
    → read_each read n b i lba bytes ≡ (bytes + 512 * n, stored b i (512 * n) (from_block disk lba))
unfolding read_each
read_each-stored {read} disk reads zero b i lba bytes p q = λ t. (
  (let e : bytes ≡ bytes + 512 * 0 = omega arith in e) t,
  λ j. nothing_at b (from_block disk lba) i j t,
)
read_each-stored {read} disk reads (suc n) b i lba bytes p q =
    let block : ℕ → ℕ = stored b i 512 (from_block disk lba) in
    let next : u32 (lba + 1) ≡ lba + 1 = omega arith in
    let sum : u32 (bytes + 512) ≡ bytes + 512 = omega arith in
    let total : bytes + 512 + 512 * n ≡ bytes + 512 * suc n = omega arith in
    let rounds : n + 1 ≡ suc n = omega arith in
    ap (λ (g : ℕ × (ℕ → ℕ)). read_each read n g.1 (i + 512) (u32 (lba + 1)) (u32 (bytes + g.0)))
      (reads b i lba (omega arith))
    ∙ ap (λ (a : ℕ). read_each read n block (i + 512) a (u32 (bytes + 512))) next
    ∙ ap (λ (a : ℕ). read_each read n block (i + 512) (lba + 1) a) sum
    ∙ read_each-stored disk reads n block (i + 512) (lba + 1) (bytes + 512) (omega arith)
        (omega arith)
    ∙ ap (λ (f : ℕ → ℕ). (bytes + 512 + 512 * n, f)) (stored-stored b disk i lba n)
    ∙ ap (λ (k : ℕ). (bytes + 512 + 512 * n, stored b i (512 * k) (from_block disk lba))) rounds
    ∙ ap (λ (k : ℕ). (k, stored b i (512 * suc n) (from_block disk lba))) total

-- If `mmci_read_block` reads the single blocks of a disk, `mmci_read_blocks` serves that disk:
-- within 32 bits it stores the asked blocks one behind the other and returns 512 for each.
pub mmci_read_blocks-Serves :
    {read : (ℕ → ℕ) → ℕ → ℕ → ℕ × (ℕ → ℕ)} {disk : ℕ → ℕ}
    → ReadsBlocks read disk
    → Serves (pl181_get_block_device read) disk
unfolding mmci_read_blocks
mmci_read_blocks-Serves {read} {disk} reads = record {
  reads = λ b i lba n p q.
      let total : 0 + 512 * n ≡ 512 * n = omega arith in
      read_each-stored disk reads n b i lba 0 p (omega arith)
      ∙ ap (λ (k : ℕ). (k, stored b i (512 * n) (from_block disk lba))) total;
}
