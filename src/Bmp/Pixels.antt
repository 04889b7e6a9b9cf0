-- ===== src/Bmp/Pixels.antt =====
-- Which pixels `bmp_to16bitarray` of kernel/src/bmp.c brings.
use mnes_hrel.Common.{
  ℕ, zero, suc, ◌+◌, ◌-◌, ◌*◌, ◌≤◌, ◌<◌, ◌≡◌, ◌≢◌, refl, ap, ◌∙◌, true, ◌&&◌, ◌||◌, Option, some,
  ◌==◌, ltb, leb, if◌then◌else◌, u32, Outcome, returned, arith, ◌⊎◌, inl, inr, Bool-cases,
}
use mnes_hrel.Bmp.{BmpHeaders, headers, Bitmap, copy_rows, raw_bmp, with_headers, bmp_to16bitarray}

-- The pixel bytes of the headers' width and height are in the block and in the file of `size` bytes.
pub record Holds (h : BmpHeaders) (size : ℕ) : Type 0 where
  pub block : 2 * (h.img_height * h.img_width) ≤ h.img_size
  pub file : h.parrayoffset + 2 * (h.img_height * h.img_width) ≤ size
  pub small : size < 4294967296
  pub height : h.img_height < 2147483648

row_step : (r h w : ℕ) → r + 1 ≤ h → r * w + w ≤ h * w
row_step r h w below = grind arith

zero_rows : (w : ℕ) → 0 * w ≡ 0
zero_rows w = omega arith

row_next : (r w : ℕ) → (r + 1) * w ≡ r * w + w
row_next r w = grind arith

-- The bytes behind those of the rows before the last `i`.
record Copies (i : ℕ) (h : BmpHeaders) (buffer pixels : ℕ → ℕ) (o : Outcome (ℕ → ℕ)) : Type 0 where
  after : ℕ → ℕ
  comes_back : o ≡ returned after
  copied :
      (j : ℕ)
      → 2 * ((h.img_height - i) * h.img_width) ≤ j
      → j < 2 * (h.img_height * h.img_width)
      → after j ≡ buffer (h.parrayoffset + j)
  kept :
      (j : ℕ)
      → (j < 2 * ((h.img_height - i) * h.img_width)) ⊎ (2 * (h.img_height * h.img_width) ≤ j)
      → after j ≡ pixels j

-- The pixels after the row `r` was copied.
abbrev with_row : BmpHeaders → ℕ → (ℕ → ℕ) → (ℕ → ℕ) → ℕ → ℕ
with_row h r buffer pixels j =
    if leb (2 * (r * h.img_width)) j && ltb j (2 * (r * h.img_width) + 2 * h.img_width)
    then buffer (h.parrayoffset + j)
    else pixels j

module _ (i : ℕ) (h : BmpHeaders) (buffer : ℕ → ℕ) (size : ℕ) (pixels : ℕ → ℕ)
    (holds : Holds h size) (few : suc i ≤ h.img_height) where
  abbrev r : ℕ
  r = h.img_height - suc i

  fits_lem : r * h.img_width + h.img_width ≤ h.img_height * h.img_width
  fits_lem = row_step r h.img_height h.img_width (omega (arith, few))

  next_lem : (h.img_height - i) * h.img_width ≡ r * h.img_width + h.img_width
  next_lem =
      let e : h.img_height - i ≡ r + 1 = omega (arith, few) in
      ap (λ (n : ℕ). n * h.img_width) e ∙ row_next r h.img_width

  row_lem :
      copy_rows (suc i) h buffer size pixels
      ≡ copy_rows i h buffer size (with_row h r buffer pixels)
  unfolding copy_rows
  row_lem =
      let w : ℕ = h.img_width in
      let offset : u32 (2 * (r * w)) ≡ 2 * (r * w) =
        omega (arith, fits_lem, holds.file, holds.small) in
      let count : u32 (2 * w) ≡ 2 * w = omega (arith, fits_lem, holds.file, holds.small) in
      let inside : (2 * w == 0
            || (leb (2 * (r * w) + 2 * w) h.img_size
                && leb (h.parrayoffset + 2 * (r * w) + 2 * w) size))
          ≡ true =
        ground (arith, fits_lem, holds.file, holds.block) in
      rw offset (rw count (rw inside refl))

copy_rows-Copies :
    (i : ℕ) (h : BmpHeaders) (buffer : ℕ → ℕ) (size : ℕ) (pixels : ℕ → ℕ)
    → Holds h size
    → i ≤ h.img_height
    → Copies i h buffer pixels (copy_rows i h buffer size pixels)
unfolding copy_rows
copy_rows-Copies zero h buffer size pixels holds few =
    let all : h.img_height - 0 ≡ h.img_height = omega arith in
    record {
      after = pixels;
      comes_back = refl;
      copied = λ j low high. absurd (omega (arith, ap (λ (n : ℕ). 2 * (n * h.img_width)) all));
      kept = λ j out. refl;
    }
copy_rows-Copies (suc i) h buffer size pixels holds few =
    let w : ℕ = h.img_width in
    let next = next_lem i h buffer size pixels holds few in
    let fits = fits_lem i h buffer size pixels holds few in
    let less : i ≤ h.img_height = omega (arith, few) in
    let row : ℕ → ℕ = with_row h (h.img_height - suc i) buffer pixels in
    let rest : Copies i h buffer row (copy_rows i h buffer size row) =
      copy_rows-Copies i h buffer size row holds less in
    record {
      after = rest.after;
      comes_back = row_lem i h buffer size pixels holds few ∙ rest.comes_back;
      copied = λ j low high. elim (Bool-cases (ltb j (2 * ((h.img_height - suc i) * w) + 2 * w))) [
        | inl here ↦ rest.kept j (inl (ground (arith, here, next))) ∙ ground (arith, here, low)
        | inr later ↦ rest.copied j (ground (arith, later, next)) high
      ];
      kept = λ j out. elim out [
        | inl before ↦ rest.kept j (inl (omega (arith, before, next))) ∙ ground (arith, before)
        | inr behind ↦ rest.kept j (inr behind) ∙ ground (arith, behind, fits)
      ];
    }

start_lem : (h : BmpHeaders) (j : ℕ) → 2 * ((h.img_height - h.img_height) * h.img_width) ≤ j
start_lem h j =
    let none_before : (h.img_height - h.img_height) * h.img_width ≡ 0 =
      ap (λ (n : ℕ). n * h.img_width) (omega arith) ∙ zero_rows h.img_width in
    omega (arith, none_before)

supported :
    (fresh : ℕ → ℕ) (h : BmpHeaders) (b : ℕ → ℕ) (size : ℕ)
    → 50 ≤ size
    → h.header_size ≢ 0
    → h.bits_per_pixel ≡ 16
    → (h.compression ≡ 0) ⊎ (h.compression ≡ 3)
    → with_headers fresh h b size ≡ raw_bmp fresh h b size
unfolding with_headers
supported fresh h b size long set depth (inl plain) = ground (arith, long, set, depth, plain)
supported fresh h b size long set depth (inr fields) = ground (arith, long, set, depth, fields)

raw_bmp_lem :
    (fresh : ℕ → ℕ) (h : BmpHeaders) (b : ℕ → ℕ) (size : ℕ) (pixels : ℕ → ℕ)
    → h.img_height < 2147483648
    → copy_rows h.img_height h b size fresh ≡ returned pixels
    → raw_bmp fresh h b size
      ≡ returned (
          some (record {
            pixels = pixels;
            size = h.img_size;
            width = h.img_width;
            height = h.img_height;
          }))
unfolding raw_bmp
raw_bmp_lem fresh h b size pixels short copied =
    let rows : (if ltb h.img_height 2147483648 then h.img_height else 0) ≡ h.img_height =
      ground (arith, short) in
    rw rows (rw copied refl)

file_lem :
    (fresh b : ℕ → ℕ) (size : ℕ)
    → 50 ≤ size
    → b 0 ≡ b'B'
    → b 1 ≡ b'M'
    → bmp_to16bitarray fresh (some b) size ≡ with_headers fresh (headers b) b size
unfolding bmp_to16bitarray
file_lem fresh b size long first second =
    let inside : ltb 1 size ≡ true = ground (arith, long) in rw inside (rw first (rw second refl))

-- What the loader brings of a supported bitmap: its size, and its pixel bytes in their order.
pub record Brings (b : ℕ → ℕ) (o : Outcome (Option Bitmap)) : Type 0 where
  pub bitmap : Bitmap
  pub comes_back : o ≡ returned (some bitmap)
  pub width : bitmap.width ≡ (headers b).img_width
  pub height : bitmap.height ≡ (headers b).img_height
  pub pixels :
      (j : ℕ)
      → j < 2 * ((headers b).img_height * (headers b).img_width)
      → bitmap.pixels j ≡ b ((headers b).parrayoffset + j)

-- A file of at least 50 bytes that begins with "BM", whose second header has a size, 16 bits a pixel and
-- one of the two compressions, with a height that is not negative and its pixels in the file, of a 32-bit size, and
-- in the size that the header gives, is loaded without an access outside: the bitmap has its width and
-- height and the bytes of its pixels, in the order of the file.
pub bmp_to16bitarray-Brings :
    (fresh b : ℕ → ℕ) (size : ℕ)
    → 50 ≤ size
    → b 0 ≡ b'B'
    → b 1 ≡ b'M'
    → (headers b).header_size ≢ 0
    → (headers b).bits_per_pixel ≡ 16
    → ((headers b).compression ≡ 0) ⊎ ((headers b).compression ≡ 3)
    → Holds (headers b) size
    → Brings b (bmp_to16bitarray fresh (some b) size)
bmp_to16bitarray-Brings fresh b size long first second set depth kind holds =
    let h : BmpHeaders = headers b in
    let rows : Copies h.img_height h b fresh (copy_rows h.img_height h b size fresh) =
      copy_rows-Copies h.img_height h b size fresh holds (omega arith) in
    record {
      bitmap = record {
        pixels = rows.after;
        size = h.img_size;
        width = h.img_width;
        height = h.img_height;
      };
      comes_back =
          file_lem fresh b size long first second
          ∙ supported fresh h b size long set depth kind
          ∙ raw_bmp_lem fresh h b size rows.after holds.height rows.comes_back;
      width = refl;
      height = refl;
      pixels = λ j inside. rows.copied j (start_lem h j) inside;
    }
