-- ===== src/Sd/Card.antt =====
-- What the driver relies on of the interface and of a card: documented behaviour of the hardware,
-- as laws of the registers, for the theorems about kernel/src/pl181.c.
use mnes_hrel.Common.{
  ℕ, zero, suc, ◌+◌, ◌*◌, ◌<◌, ◌≡◌, bit_and, Bool, true, false, List, [], ◌∷◌, u32, if◌then◌else◌,
}
use mnes_hrel.Fat.Volume.Device.{from_block}
use mnes_hrel.Sd.{arg, cmd, data_length, data_ctrl, clear, Mmci}

-- What an idle interface has: the response to the last command, and whether there was one; what was
-- written to the two registers of the data path; and the words of a transfer that are not read yet,
-- in the FIFO or on the way to it.
pub record View : Type 0 where
  pub response : ℕ
  pub answered : Bool
  pub length : ℕ
  pub ctrl : ℕ
  pub words : List ℕ

-- What a card does to the view at a command with an argument.
abbrev pub Card : Type 0
Card = ℕ → ℕ → View → View

-- The end flags of command `c`, in the status `s`: the command is not active any more; it is sent,
-- or its response has come, or the wait for the response has timed out.
pub record EndFlags (c : ℕ) (v : View) (s : ℕ) : Type 0 where
  pub inactive : bit_and s 2048 ≡ 0
  pub sent : bit_and c 64 ≡ 0 → bit_and s 128 ≡ 128
  pub came : bit_and c 64 ≡ 64 → v.answered ≡ true → bit_and s 64 ≡ 64
  pub late : bit_and c 64 ≡ 64 → v.answered ≡ false → bit_and s 64 ≡ 0
  pub timed_out : bit_and c 64 ≡ 64 → v.answered ≡ false → bit_and s 4 ≡ 4

-- No end flag is set yet.
pub record NoFlags (s : ℕ) : Type 0 where
  pub not_sent : bit_and s 128 ≡ 0
  pub not_come : bit_and s 64 ≡ 0
  pub not_timed_out : bit_and s 4 ≡ 0

-- The interface carries out the commands of a card: after a start bit has gone out with a command,
-- at most `delay` reads of the status later its end flags are set and the view is the card's. The data
-- flag is set only if the FIFO holds a word, and then a read of the FIFO takes the next one.
pub record Carries {W : Type 0} (dev : Mmci W) (card : Card) (delay : ℕ) : Type 1 where
  pub Idle : View → W → Type 0
  pub Told : ℕ → View → W → Type 0
  pub Busy : ℕ → ℕ → View → W → Type 0
  pub keeps_length :
      (v : View) (w : W) (x : ℕ)
      → Idle v w
      → Idle (record v { length = x }) (dev.write data_length x w)
  pub keeps_ctrl :
      (v : View) (w : W) (x : ℕ) → Idle v w → Idle (record v { ctrl = x }) (dev.write data_ctrl x w)
  pub clears : (v : View) (w : W) → Idle v w → Idle v (dev.write clear 0x5FF w)
  pub tells : (v : View) (w : W) (a : ℕ) → Idle v w → Told a v (dev.write arg a w)
  pub stays : (v : View) (w : W) (a : ℕ) → Told a v w → Told a v (dev.status w).1
  pub starts :
      (v : View) (w : W) (c a : ℕ)
      → bit_and c 1024 ≡ 1024
      → Told a v w
      → Busy delay c (card c a v) (dev.write cmd c w)
  pub polls : (v : View) (w : W) (c n : ℕ) → Busy (suc n) c v w → Busy n c v (dev.status w).1
  pub no_flags : (v : View) (w : W) (c n : ℕ) → Busy (suc n) c v w → NoFlags (dev.status w).0
  pub rests : (v : View) (w : W) (c : ℕ) → Busy 0 c v w → Busy 0 c v (dev.status w).1
  pub end_flags : (v : View) (w : W) (c : ℕ) → Busy 0 c v w → EndFlags c v (dev.status w).0
  pub idles : (v : View) (w : W) (c : ℕ) → Busy 0 c v w → Idle v w
  pub looks : (v : View) (w : W) → Idle v w → Idle v (dev.status w).1
  pub empty : (v : View) (w : W) → Idle v w → v.words ≡ [] → bit_and (dev.status w).0 2097152 ≡ 0
  pub gives :
      (v : View) (w : W) (x : ℕ) (xs : List ℕ)
      → Idle v w
      → v.words ≡ x ∷ xs
      → bit_and (dev.status w).0 2097152 ≡ 2097152
      → (dev.fifo (dev.status w).1).0 ≡ x
  pub takes :
      (v : View) (w : W) (x : ℕ) (xs : List ℕ)
      → Idle v w
      → v.words ≡ x ∷ xs
      → bit_and (dev.status w).0 2097152 ≡ 2097152
      → Idle (record v { words = xs }) (dev.fifo (dev.status w).1).1
  pub responds : (v : View) (w : W) → Idle v w → (dev.response0 w).0 ≡ v.response
  pub answers : (v : View) (w : W) → Idle v w → Idle v (dev.response0 w).1

-- The words of a transfer come faster than the driver reads them: the FIFO is never found empty while
-- there are words left. Nothing in the driver waits for them.
pub record Prompt {W : Type 0} {dev : Mmci W} {card : Card} {delay : ℕ}
    (hw : Carries dev card delay) : Type 0 where
  pub filled :
      (v : View) (w : W) (x : ℕ) (xs : List ℕ)
      → hw.Idle v w
      → v.words ≡ x ∷ xs
      → bit_and (dev.status w).0 2097152 ≡ 2097152

-- The word of four bytes from offset `j` on, the lowest one first, and `n` words in sequence.
abbrev pub word_at : (ℕ → ℕ) → ℕ → ℕ
word_at src j = src j + 256 * src (j + 1) + 65536 * src (j + 2) + 16777216 * src (j + 3)

unfoldable pub words_from : (ℕ → ℕ) → ℕ → ℕ → List ℕ
words_from src j zero = []
words_from src j (suc n) = word_at src j ∷ words_from src (j + 4) n

-- The argument of the read command: the number of the block on a card of high capacity, and the
-- number of its first byte on the others.
abbrev pub read_address : Bool → ℕ → ℕ
read_address ishc lba = if ishc then lba else u32 (lba * 512)

-- A card of `size` blocks answers the read command 17. The 128 words of the block come if the data path
-- was enabled for 512 bytes from the card, by bits 0 and 1 of its control register, and nothing is left
-- of another transfer.
pub record Delivers (card : Card) (ishc : Bool) (size : ℕ) (disk : ℕ → ℕ) : Type 0 where
  pub replies :
      (v : View) (lba : ℕ) → lba < size → (card 1105 (read_address ishc lba) v).answered ≡ true
  pub brings :
      (v : View) (lba : ℕ)
      → lba < size
      → v.length ≡ 512
      → bit_and v.ctrl 3 ≡ 3
      → v.words ≡ []
      → (card 1105 (read_address ishc lba) v).words ≡ words_from (from_block disk lba) 0 128
