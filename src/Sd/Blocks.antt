-- ===== src/Sd/Blocks.antt =====
-- The reads of kernel/src/pl181.c against the promise that the FAT32 driver relies on.
use mnes_hrel.Common.{
  ℕ, zero, suc, ◌+◌, ◌-◌, ◌*◌, ◌/◌, ◌%◌, ◌≤◌, ◌<◌, ◌≡◌, refl, ap, ◌∙◌, subst, sym, inr, bit_and,
  false, ◌==◌, u32, some, [], Comes, comes, Comes-map, arith,
}
use mnes_hrel.Common.Bits.{bit_and-even}
use mnes_hrel.Fat.Volume.{BlockDevice}
use mnes_hrel.Fat.Volume.Device.{stored, from_block, Serves, ReadsBlocks, mmci_read_blocks-Serves}
use mnes_hrel.Fat.Volume.Device
use mnes_hrel.Sd.{Mmci, SdCard, ◌>>=◌}
use mnes_hrel.Sd.Reading.{
  store_word, read_words, after_command, mmci_read_block, read_each, mmci_read_blocks,
}
use mnes_hrel.Sd.Card.{View, Card, Carries, Prompt, word_at, words_from, read_address, Delivers}
use mnes_hrel.Sd.Sending.{mmci_send_cmd-Idle}

module _ (src : ℕ → ℕ) (bytes : (j : ℕ) → src j < 256) where
  byte0 : (j : ℕ) → word_at src j % 256 ≡ src j
  byte0 j = omega (arith, bytes j)

  byte1 : (j : ℕ) → word_at src j / 256 % 256 ≡ src (j + 1)
  byte1 j = omega (arith, bytes j, bytes (j + 1))

  byte2 : (j : ℕ) → word_at src j / 65536 % 256 ≡ src (j + 2)
  byte2 j = omega (arith, bytes j, bytes (j + 1), bytes (j + 2))

  byte3 : (j : ℕ) → word_at src j / 16777216 % 256 ≡ src (j + 3)
  byte3 j = omega (arith, bytes j, bytes (j + 1), bytes (j + 2), bytes (j + 3))

  same_byte : (i j c k : ℕ) → i + j + c ≡ k → src (k - i) ≡ src (j + c)
  same_byte i j c k e = ap src (omega arith)

  store_at :
      (b : ℕ → ℕ) (i j k : ℕ)
      → store_word (stored b i j src) (i + j) (word_at src j) k ≡ stored b i (j + 4) src k
  store_at b i j k =
      rw (byte0 j, byte1 j, byte2 j, byte3 j)
        (ground (arith, same_byte i j 0 k, same_byte i j 1 k, same_byte i j 2 k, same_byte i j 3 k))

  -- A word behind the bytes that were stored before.
  store_word-stored :
      (b : ℕ → ℕ) (i j : ℕ)
      → store_word (stored b i j src) (i + j) (word_at src j) ≡ stored b i (j + 4) src
  store_word-stored b i j = λ t k. store_at b i j k t

from_start :
    (b : ℕ → ℕ) (i : ℕ) (src : ℕ → ℕ) → ◌≡◌ {A = (ℕ → ℕ) × ℕ} (stored b i 0 src, i + 0) (b, i)
from_start b i src = λ t. (
  λ k. (let e : stored b i 0 src k ≡ b k = ground arith in e) t,
  (let e : i + 0 ≡ i = omega arith in e) t,
)

module _ {W : Type 0} {dev : Mmci W} {card : Card} {delay : ℕ} (hw : Carries dev card delay)
    (prompt : Prompt hw) where
  -- The words that the FIFO holds all come into the buffer, with fuel for one more.
  read_words-stored :
      (src : ℕ → ℕ)
      → ((j : ℕ) → src j < 256)
      → (n fuel j : ℕ) (b : ℕ → ℕ) (i : ℕ) (v : View) (w : W) → n < fuel
      → j + 4 * n < 4294967296
      → v.words ≡ words_from src j n
      → hw.Idle v w
      → Comes
          (λ r.
            (r.0 ≡ (j + 4 * n, stored b i (j + 4 * n) src)) × hw.Idle (record v { words = [] }) r.1)
          (read_words dev fuel (stored b i j src) (i + j) j w)
  unfolding read_words words_from
  read_words-stored src bytes n zero j b i v w p q words idle = absurd (omega arith)
  read_words-stored src bytes zero (suc fuel) j b i v w p q words idle =
      rw (hw.empty v w idle words) (
        comes (
          ap (λ (k : ℕ). (k, stored b i k src)) (let e : j ≡ j + 4 * 0 = omega arith in e),
          subst (λ xs. hw.Idle (record v { words = xs }) (dev.status w).1) words
              (hw.looks v w idle),
        ))
  read_words-stored src bytes (suc n) (suc fuel) j b i v w p q words idle =
      let x = word_at src j in
      let xs = words_from src (j + 4) n in
      let flag = prompt.filled v w x xs idle words in
      let taken = hw.takes v w x xs idle words flag in
      let rest =
        read_words-stored src bytes n fuel (j + 4) b i (record v { words = xs }) _ (omega arith)
          (omega arith) refl taken in
      let e1 : u32 (j + 4) ≡ j + 4 = omega arith in
      let e2 : i + j + 4 ≡ i + (j + 4) = omega arith in
      let e3 : j + 4 * suc n ≡ j + 4 + 4 * n = omega arith in
      rw flag (
        rw (hw.gives v w x xs idle words flag)
          (rw (store_word-stored src bytes b i j) (rw e1 (rw e2 (rw e3 rest)))))

  after_command-stored :
      (src : ℕ → ℕ)
      → ((j : ℕ) → src j < 256)
      → (fuel : ℕ) (b : ℕ → ℕ) (i : ℕ) (v : View) (w : W) → 128 < fuel
      → v.words ≡ words_from src 0 128
      → hw.Idle v w
      → Comes
          (λ r. (r.0 ≡ (512, stored b i 512 src)) × hw.Idle (record v { words = [] }) r.1)
          (after_command dev fuel b i w)
  unfolding after_command ◌>>=◌
  after_command-stored src bytes fuel b i v w p words idle =
      let s = (dev.status w).0 in
      let even : bit_and s 8 ≡ bit_and (s / 2) 4 * 2 = bit_and-even s 4 in
      let no : bit_and s 8 == 1 ≡ false = ground (arith, even) in
      rw no (
        subst
          (λ (g : (ℕ → ℕ) × ℕ).
            Comes (λ r. (r.0 ≡ (512, stored b i 512 src)) × hw.Idle (record v { words = [] }) r.1)
              (read_words dev fuel g.0 g.1 0 (dev.status w).1))
          (from_start b i src)
          (read_words-stored src bytes 128 fuel 0 b i v _ p (omega arith) words
            (hw.looks v w idle)))

  -- An idle interface with nothing left of a transfer.
  pub data Resting (w : W) : Type 0 where
    resting : (v : View) → v.words ≡ [] → hw.Idle v w → Resting w

  module _ (disk : ℕ → ℕ) (bytes : (j : ℕ) → disk j < 256) (size : ℕ) (sd : SdCard)
      (delivers : Delivers card sd.ishc size disk) (fuel : ℕ) (in_time : delay < fuel)
      (enough : 128 < fuel) where
    mmci_read_block-stored :
        (b : ℕ → ℕ) (i lba : ℕ) (v : View) (w : W)
        → lba < size
        → v.words ≡ []
        → hw.Idle v w
        → Comes
            (λ r. (r.0 ≡ (512, stored b i 512 (from_block disk lba))) × Resting r.1)
            (mmci_read_block dev (some sd) fuel b i lba w)
    unfolding mmci_read_block ◌>>=◌
    mmci_read_block-stored b i lba v w p none_left idle =
        let ready = hw.keeps_ctrl (record v { length = 512 }) _ 3 (hw.keeps_length v w 512 idle) in
        let a = read_address sd.ishc lba in
        let sent =
          mmci_send_cmd-Idle hw fuel 1105 a (record v { length = 512; ctrl = 3 }) _ in_time refl
            (inr refl) ready in
        let read =
          after_command-stored (from_block disk lba) (λ j. bytes (lba * 512 + j)) fuel b i
            (card 1105 a (record v { length = 512; ctrl = 3 })) _ enough
            (delivers.brings (record v { length = 512; ctrl = 3 }) lba p refl refl none_left)
            sent.holds in
        rw sent.runs (Comes-map (λ r h. (h.0, resting _ refl h.1)) read)

    -- The reader of single blocks that the card amounts to.
    abbrev reader : (ℕ → ℕ) → ℕ → ℕ → ℕ × (ℕ → ℕ)
    reader b i lba = (512, stored b i 512 (from_block disk lba))

    read_each-reader :
        (n : ℕ) (b : ℕ → ℕ) (i lba got : ℕ) (v : View) (w : W)
        → lba + n ≤ size
        → lba + n < 4294967296
        → v.words ≡ []
        → hw.Idle v w
        → Comes
            (λ r. (r.0 ≡ Device.read_each reader n b i lba got) × Resting r.1)
            (read_each dev (some sd) fuel n b i lba got w)
    unfolding read_each Device.read_each ◌>>=◌
    read_each-reader zero b i lba got v w p q none_left idle =
        comes (refl, resting v none_left idle)
    read_each-reader (suc n) b i lba got v w p q none_left idle =
        let block = mmci_read_block-stored b i lba v w (omega arith) none_left idle in
        let next : u32 (lba + 1) ≡ lba + 1 = omega arith in
        rw block.runs (
          rw block.holds.0 (
            rw next (elim block.holds.1 [
              | resting u gone rest ↦
                  read_each-reader n _ (i + 512) (lba + 1) _ u _ (omega arith) (omega arith) gone
                    rest
            ])))

    -- A read of many blocks is the one of any device that serves the disk.
    pub mmci_read_blocks-readblocks :
        {serving : BlockDevice}
        → Serves serving disk
        → (b : ℕ → ℕ) (i lba n : ℕ) (v : View) (w : W) → lba + n ≤ size
        → lba + n < 4294967296
        → 512 * n < 4294967296
        → v.words ≡ []
        → hw.Idle v w
        → Comes
            (λ r. (r.0 ≡ serving.readblocks b i lba n) × Resting r.1)
            (mmci_read_blocks dev (some sd) fuel b i lba n w)
    unfolding mmci_read_blocks Device.mmci_read_blocks
    mmci_read_blocks-readblocks {serving} serves b i lba n v w p q fits none_left idle =
        let same : Device.mmci_read_blocks reader b i lba n ≡ serving.readblocks b i lba n =
          (mmci_read_blocks-Serves {read = reader} {disk = disk} (λ _ _ _ _. refl)).reads b i lba n
            q fits
          ∙ sym (serves.reads b i lba n q fits) in
        Comes-map (λ r h. (h.0 ∙ same, h.1)) (read_each-reader n b i lba 0 v w p q none_left idle)
