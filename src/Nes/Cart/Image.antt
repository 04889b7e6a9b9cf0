-- ===== src/Nes/Cart/Image.antt =====
-- A file in the iNES format, and the cartridge that `nes_load_cart` makes of it.
use mnes_hrel.Common.{
  ℕ, zero, suc, ◌+◌, ◌≤◌, ◌<◌, ◌≡◌, ◌≢◌, ◌∙◌, refl, ap, true, some, none, arith, Text, [], ◌∷◌,
}
use mnes_hrel.Nes.Machine.{mapper_zero, CartPointer, null_cart, freed_cart, cart_at, Machine}
use mnes_hrel.Nes.Safety.Ready.{IsBytes, IsPlayable}
use mnes_hrel.Nes.Cart.{
  CLibrary, nes_get_mapper, same_text, same_bytes, prg_offset, prg_length, chr_length, mapper_of,
  cart_of, in_block, free_cart, load_ines, load_image, load_file, nes_load_cart,
}
use mnes_hrel.Nes.Keeps.{bind-some}

-- The bytes "NES", 16 KB program banks and 8 KB character banks within the file, and in the unused
-- bytes of the header what memory holds at address 0.
pub record IsImage (null_text : ℕ → ℕ) (size : ℕ) (bytes : ℕ → ℕ) : Type 0 where
  pub n : bytes 0 ≡ b'N'
  pub e : bytes 1 ≡ b'E'
  pub s : bytes 2 ≡ b'S'
  pub header : 16 ≤ size
  pub unused : (i : ℕ) → i < 4 → bytes (11 + i) ≡ null_text i
  pub room : prg_offset bytes + prg_length bytes + chr_length bytes ≤ size

-- What the C library gives for a file: the pointer, its size, its bytes, and its states after
-- opening, `fstat` and reading.
pub record Gives {W : Type 0} (lib : CLibrary W) (filepath : Text) (w : W) (cartfile size : ℕ)
    (bytes : ℕ → ℕ) (read : W) : Type 0 where
  pub opened : W
  pub stated : W
  pub set : cartfile ≢ 0
  pub opens : lib.fopen filepath w ≡ (cartfile, opened)
  pub stats : lib.fstat cartfile opened ≡ ((0, size), stated)
  pub reads : lib.fread cartfile size stated ≡ (bytes, read)

-- There is no cartridge, or a whole one.
abbrev pub Usable : CartPointer → Type 0
Usable c = c ≢ freed_cart

-- The machine without its cartridge.
abbrev pub without_cart : Machine → Machine
without_cart m = record m {
  loaded_cart = elim m.loaded_cart [ cart_at c ↦ freed_cart | other ↦ other ];
}

pub free_cart_lem :
    (m : Machine) (p : CartPointer)
    → m.loaded_cart ≡ p
    → Usable p
    → free_cart p m ≡ some (tt, without_cart m)
unfolding free_cart
free_cart_lem m null_cart e h = ground (arith, e)
free_cart_lem m freed_cart e h = absurd (h refl)
free_cart_lem m (cart_at c) e h = ground (arith, e)

same_bytes-true :
    (n size : ℕ) (bytes : ℕ → ℕ) (at : ℕ) (other : ℕ → ℕ) (i : ℕ) (m : Machine)
    → ((j : ℕ) → j < n → bytes (at + j) ≡ other (i + j))
    → at + n ≤ size
    → same_bytes n size bytes at other i m ≡ some (true, m)
unfolding same_bytes
same_bytes-true zero size bytes at other i m same h = refl
same_bytes-true (suc n) size bytes at other i m same h =
    let rest : same_bytes n size bytes (at + 1) other (i + 1) m ≡ some (true, m) =
      same_bytes-true n size bytes (at + 1) other (i + 1) m
        (λ j below. ground (arith, same (j + 1))) (omega arith) in
    ground (arith, same 0, rest)

-- The states of the C library at the end of the load: after `free` was called with a pointer to the
-- character banks in the buffer, whatever that does, and the file was closed.
abbrev pub after_load : {W : Type 0} → CLibrary W → ℕ → (ℕ → ℕ) → W → W
after_load lib cartfile bytes w =
    lib.fclose cartfile (lib.free_inside (prg_offset bytes + prg_length bytes) w)

block_lem : (at len size : ℕ) → at + len ≤ size → in_block size at len ≡ true
block_lem at len size h = ground arith

get_mapper_zero : (id : ℕ) → id ≡ 0 → nes_get_mapper id ≡ some mapper_zero
unfolding nes_get_mapper
get_mapper_zero id e = ground (arith, e)

get_mapper_none : (id : ℕ) → id ≢ 0 → nes_get_mapper id ≡ none
unfolding nes_get_mapper
get_mapper_none id e = ground (arith, e)

module _ {W : Type 0} (lib : CLibrary W) {size : ℕ} {bytes : ℕ → ℕ}
    (h : IsImage lib.null_text size bytes) (cartfile : ℕ) (w : W) (m : Machine) where
  ident_lem : same_text size bytes 0 (b'N' ∷ b'E' ∷ b'S' ∷ []) m ≡ some (true, m)
  unfolding same_text
  ident_lem = ground (arith, h.n, h.e, h.s, h.header)

  unused_lem : same_bytes 4 size bytes 11 lib.null_text 0 m ≡ some (true, m)
  unused_lem =
      same_bytes-true 4 size bytes 11 lib.null_text 0 m (λ i below. ground (arith, h.unused i))
        (omega (arith, h.header))

  load_image-ines : load_image lib cartfile size bytes w m ≡ load_ines lib cartfile size bytes w m
  unfolding load_image
  load_image-ines =
      bind-some (same_text size bytes 0 (b'N' ∷ b'E' ∷ b'S' ∷ [])) _ m ident_lem
      ∙ bind-some (same_bytes 4 size bytes 11 lib.null_text 0) _ m unused_lem

  prg_block : in_block size (prg_offset bytes) (prg_length bytes) ≡ true
  prg_block = block_lem (prg_offset bytes) (prg_length bytes) size (omega (arith, h.room))

  chr_block : in_block size (prg_offset bytes + prg_length bytes) (chr_length bytes) ≡ true
  chr_block = block_lem (prg_offset bytes + prg_length bytes) (chr_length bytes) size h.room

  load_ines-freed :
      mapper_of bytes ≢ 0
      → load_ines lib cartfile size bytes w m
        ≡ some
            ((4294967294, after_load lib cartfile bytes w), record m { loaded_cart = freed_cart })
  unfolding load_ines
  load_ines-freed unknown =
      rw prg_block (rw chr_block (rw (get_mapper_none (mapper_of bytes) unknown) refl))

-- Up to the file's contents: what is left of the load is what its image leads to.
module _ {W : Type 0} (lib : CLibrary W) {filepath : Text} {w : W} {cartfile size : ℕ}
    {bytes : ℕ → ℕ} {read : W} (g : Gives lib filepath w cartfile size bytes read) (m : Machine)
    (usable : Usable m.loaded_cart) where
  load_file_lem :
      (m' : Machine)
      → load_file lib cartfile g.opened m' ≡ load_image lib cartfile size bytes read m'
  unfolding load_file
  load_file_lem m' = ground (arith, g.stats, g.reads, g.set)

  pub load_lem :
      nes_load_cart lib filepath w m ≡ load_image lib cartfile size bytes read (without_cart m)
  unfolding nes_load_cart
  load_lem =
      bind-some (free_cart m.loaded_cart) _ m (free_cart_lem m m.loaded_cart refl usable)
      ∙ ap (λ (o : ℕ × W). load_file lib o.0 o.1 (without_cart m)) g.opens
      ∙ load_file_lem (without_cart m)

  -- If the C library opens and reads an image of another mapper, and the cartridge from before, if
  -- there is one, is not freed, the result is -2, and the pointer to the cartridge dangles.
  pub nes_load_cart-freed :
      IsImage lib.null_text size bytes
      → mapper_of bytes ≢ 0
      → nes_load_cart lib filepath w m
        ≡ some (
          (4294967294, after_load lib cartfile bytes read),
          record m { loaded_cart = freed_cart },
        )
  nes_load_cart-freed image unknown =
      load_lem
      ∙ load_image-ines lib image cartfile read (without_cart m)
      ∙ load_ines-freed lib image cartfile read (without_cart m) unknown

pub cart_of-IsPlayable :
    (bytes : ℕ → ℕ) → IsBytes bytes → mapper_of bytes ≡ 0 → 1 ≤ bytes 4 → IsPlayable (cart_of bytes)
unfolding IsBytes cart_of
cart_of-IsPlayable bytes range known some_bank = record {
  mapper = get_mapper_zero (mapper_of bytes) known;
  bank = λ few. omega arith;
  prg = λ i. range (prg_offset bytes + i);
}
