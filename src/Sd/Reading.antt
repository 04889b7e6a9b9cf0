-- ===== src/Sd/Reading.antt =====
-- kernel/src/pl181.c: the reads of blocks, and the writes, which do nothing.
use mnes_hrel.Common.{
  ℕ, zero, suc, ◌+◌, ◌*◌, ◌/◌, ◌%◌, ◌<<◌, bit_and, bit_or, Option, none, some, ◌==◌, nonzero,
  if◌then◌else◌, update, u32, fault, runs_on,
}
use mnes_hrel.Sd.{
  data_length, data_ctrl, Mmci, SdCard, Action, exe, resp, done, ◌>>=◌, ◌>>◌, status, fifo, write,
  mmci_send_cmd,
}

-- `*readBuffer = word`: the four bytes of a word, the lowest one first.
abbrev pub store_word : (ℕ → ℕ) → ℕ → ℕ → ℕ → ℕ
store_word b i word =
    update
      (update (update (update b i (word % 256)) (i + 1) (word / 256 % 256)) (i + 2)
        (word / 65536 % 256))
      (i + 3) (word / 16777216 % 256)

module _ {W : Type 0} (dev : Mmci W) where
  -- The loop of `mmci_read_block`, while the FIFO has data.
  unfoldable pub read_words : ℕ → (ℕ → ℕ) → ℕ → ℕ → Action W (ℕ × (ℕ → ℕ))
  unfolding status fifo ◌>>=◌
  read_words zero b i bytes_read w = runs_on
  read_words (suc n) b i bytes_read w =
      (do
        s ← status dev
        if nonzero (bit_and s (1 << 21))
            then (do
              word ← fifo dev
              read_words n (store_word b i word) (i + 4) (u32 (bytes_read + 4)))
            else done (bytes_read, b))
        w

  -- What `mmci_read_block` does once the command is sent. The test of the error bit compares the
  -- bit, which is 0 or 8, with `true`, which is 1.
  unfoldable pub after_command : ℕ → (ℕ → ℕ) → ℕ → Action W (ℕ × (ℕ → ℕ))
  unfolding read_words
  after_command fuel b i = do
    s ← status dev
    if bit_and s (1 << 3) == 1 then done (0, b) else read_words fuel b i 0

module _ {W : Type 0} (dev : Mmci W) (mmci_sd_card : Option SdCard) (fuel : ℕ) where
  -- A buffer is the memory from an offset on, as for the other drivers.
  unfoldable pub mmci_read_block : (ℕ → ℕ) → ℕ → ℕ → Action W (ℕ × (ℕ → ℕ))
  unfolding after_command write mmci_send_cmd
  mmci_read_block b i addr = do
    write dev data_length 512
    write dev data_ctrl 3
    elim mmci_sd_card [
      | none ↦ λ _. fault
      | some card ↦ do
        mmci_send_cmd dev fuel (bit_or (bit_or 17 exe) resp)
            (if card.ishc then addr else u32 (addr * 512))
        after_command dev fuel b i
    ]

  -- The loop of `mmci_read_blocks`.
  unfoldable pub read_each : ℕ → (ℕ → ℕ) → ℕ → ℕ → ℕ → Action W (ℕ × (ℕ → ℕ))
  unfolding mmci_read_block
  read_each zero b i addr bytesread w = done (bytesread, b) w
  read_each (suc n) b i addr bytesread w =
      (do
        r ← mmci_read_block b i addr
        read_each n r.1 (i + 512) (u32 (addr + 1)) (u32 (bytesread + r.0)))
        w

  unfoldable pub mmci_read_blocks : (ℕ → ℕ) → ℕ → ℕ → ℕ → Action W (ℕ × (ℕ → ℕ))
  unfolding read_each
  mmci_read_blocks b i addr numblocks = read_each numblocks b i addr 0

module _ {W : Type 0} where
  unfoldable pub mmci_write_block : (ℕ → ℕ) → ℕ → Action W ℕ
  mmci_write_block b addr = done 0

  unfoldable pub mmci_write_blocks : (ℕ → ℕ) → ℕ → ℕ → Action W ℕ
  mmci_write_blocks b addr numblocks = done 0
