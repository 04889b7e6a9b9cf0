-- ===== src/Bmp.antt =====
-- kernel/src/bmp.c: the pixels of a 16-bit bitmap file.
pub mod Pixels
mod Tests
use mnes_hrel.Common.{
  ℕ, zero, suc, ◌+◌, ◌-◌, ◌*◌, Bool, true, false, not, ◌&&◌, ◌||◌, Option, none, some, ◌==◌, ltb,
  leb, if◌then◌else◌, u32, Outcome, returned, fault, and_then,
}
use mnes_hrel.Fat.Bytes.{word16, word32}

-- The members of the two packed headers in use.
pub record BmpHeaders : Type 0 where
  pub parrayoffset : ℕ
  pub header_size : ℕ
  pub img_width : ℕ
  pub img_height : ℕ
  pub bits_per_pixel : ℕ
  pub compression : ℕ
  pub img_size : ℕ
  pub total_colors : ℕ

abbrev pub headers : (ℕ → ℕ) → BmpHeaders
headers b = record {
  parrayoffset = word32 b 10;
  header_size = word32 b 14;
  img_width = word32 b 18;
  img_height = word32 b 22;
  bits_per_pixel = word16 b 28;
  compression = word32 b 30;
  img_size = word32 b 34;
  total_colors = word32 b 46;
}

-- `RAW_BMP`, with its block of pixels as bytes; `bpp` is never set.
pub record Bitmap : Type 0 where
  pub pixels : ℕ → ℕ
  pub size : ℕ
  pub width : ℕ
  pub height : ℕ

-- The rounds of the loop for `i` rows, from the one at `i` from the end on. Both pointers are at the
-- same offset, in 32 bits; `size` is that of the buffer.
unfoldable pub copy_rows : ℕ → BmpHeaders → (ℕ → ℕ) → ℕ → (ℕ → ℕ) → Outcome (ℕ → ℕ)
copy_rows zero h buffer size pixels = returned pixels
copy_rows (suc i) h buffer size pixels =
    let offset : ℕ = u32 (2 * ((h.img_height - suc i) * h.img_width)) in
    let count : ℕ = u32 (2 * h.img_width) in
    let copied : ℕ → ℕ = λ j.
      if leb offset j && ltb j (offset + count) then buffer (h.parrayoffset + j) else pixels j in
    let rest : Outcome (ℕ → ℕ) = copy_rows i h buffer size copied in
    if count == 0 || (leb (offset + count) h.img_size && leb (h.parrayoffset + offset + count) size)
    then rest
    else fault

-- The bitmap of a supported compression; a height with the sign bit is negative and has no rows.
unfoldable pub raw_bmp : (ℕ → ℕ) → BmpHeaders → (ℕ → ℕ) → ℕ → Outcome (Option Bitmap)
unfolding copy_rows
raw_bmp fresh h buffer size =
    and_then
      (copy_rows (if ltb h.img_height 2147483648 then h.img_height else 0) h buffer size fresh)
      (λ pixels. returned (
        some (record {
          pixels = pixels;
          size = h.img_size;
          width = h.img_width;
          height = h.img_height;
        })))

-- The tests of the headers. The message behind the first two reads up to `total_colors`, the bytes 46 to
-- 49, and is not a part of the result.
unfoldable pub with_headers : (ℕ → ℕ) → BmpHeaders → (ℕ → ℕ) → ℕ → Outcome (Option Bitmap)
unfolding raw_bmp
with_headers fresh h buffer size =
    if not (ltb 17 size)
    then fault
    else if h.header_size == 0
    then returned none
    else if not (ltb 29 size)
    then fault
    else if not (h.bits_per_pixel == 16)
    then returned none
    else if not (ltb 49 size)
    then fault
    else if h.compression == 0 || h.compression == 3
    then raw_bmp fresh h buffer size
    else returned none

-- A buffer that is `none` is NULL, and a read behind the `size` bytes of the buffer is a fault; `fresh` is
-- what `malloc` finds in the block of the pixels.
unfoldable pub bmp_to16bitarray : (ℕ → ℕ) → Option (ℕ → ℕ) → ℕ → Outcome (Option Bitmap)
unfolding with_headers
bmp_to16bitarray fresh none size = returned none
bmp_to16bitarray fresh (some buffer) size =
    if not (ltb 1 size)
    then fault
    else if buffer 0 == b'B' && buffer 1 == b'M'
    then with_headers fresh (headers buffer) buffer size
    else returned none
