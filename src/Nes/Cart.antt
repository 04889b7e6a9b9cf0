-- ===== src/Nes/Cart.antt =====
-- kernel/src/nescart.c and `nes_get_mapper` of nes_mapper.c: a cartridge from a file in the iNES
-- format, and the start of the console by `kmain`.
pub mod Image
pub mod Boot
pub mod Errors
use mnes_hrel.Common.{
  ℕ, zero, suc, ◌+◌, ◌*◌, ◌/◌, Bool, true, false, not, ◌||◌, Option, none, some, ◌==◌, leb, ltb,
  if◌then◌else◌, bit_and, bit_or, minus_one, Text, [], ◌∷◌,
}
use mnes_hrel.Nes.Machine.{
  mapper_zero, NesMapper, Cartridge, CartPointer, null_cart, freed_cart, cart_at, Machine, Action,
  pure, fault, get, modify, ◌>>=◌, ◌>>◌,
}
use mnes_hrel.Nes.Clock.{nes_reset, clocks}

-- The functions of the C library that `nes_load_cart` calls, on a state of theirs. A FILE pointer is
-- a number and 0 is NULL. `fstat` gives its result and `st_size`; `fread` gives what the buffer of
-- that size holds then. `free_inside n` is the call of `free` with the pointer `n` bytes behind the
-- buffer's start. `null_text` are the bytes that memory holds from address 0 on.
pub record CLibrary (W : Type 0) : Type 0 where
  pub fopen : Text → W → ℕ × W
  pub fstat : ℕ → W → (ℕ × ℕ) × W
  pub fread : ℕ → ℕ → W → (ℕ → ℕ) × W
  pub fclose : ℕ → W → W
  pub free_inside : ℕ → W → W
  pub null_text : ℕ → ℕ

unfoldable pub nes_get_mapper : ℕ → Option NesMapper
nes_get_mapper mapperid = if mapperid == 0 then some mapper_zero else none

-- `strncmp` with a text of its full length, on the bytes of a block of `size` from `at` on.
unfoldable pub same_text : ℕ → (ℕ → ℕ) → ℕ → Text → Action Bool
unfolding pure fault
same_text size bytes at [] = pure true
same_text size bytes at (c ∷ t) =
    let rest : Action Bool = same_text size bytes (at + 1) t in
    if not (ltb at size) then fault else if bytes at == c then rest else pure false

-- `strncmp` of `n` bytes with those at another place.
unfoldable pub same_bytes : ℕ → ℕ → (ℕ → ℕ) → ℕ → (ℕ → ℕ) → ℕ → Action Bool
unfolding pure fault
same_bytes zero size bytes at other i = pure true
same_bytes (suc n) size bytes at other i =
    let rest : Action Bool = same_bytes n size bytes (at + 1) other (i + 1) in
    if not (ltb at size)
    then fault
    else if not (bytes at == other i)
    then pure false
    else if other i == 0
    then pure true
    else rest

-- Whether `memcpy` of `len` bytes from offset `at` stays in the block.
abbrev pub in_block : ℕ → ℕ → ℕ → Bool
in_block size at len = len == 0 || leb (at + len) size

-- Where the program banks begin: behind the header, and the trainer if there is one.
abbrev pub prg_offset : (ℕ → ℕ) → ℕ
prg_offset bytes = 16 + (if bit_and (bytes 6) 0x4 == 0x4 then 512 else 0)

abbrev pub prg_length : (ℕ → ℕ) → ℕ
prg_length bytes = bytes 4 * 16384

abbrev pub chr_length : (ℕ → ℕ) → ℕ
chr_length bytes = bytes 5 * 8192

abbrev pub mapper_of : (ℕ → ℕ) → ℕ
mapper_of bytes = bit_or (bit_and (bytes 7) 0xF0) (bytes 6 / 16)

-- The cartridge that the header and the banks of the buffer make.
unfoldable pub cart_of : (ℕ → ℕ) → Cartridge
unfolding nes_get_mapper
cart_of bytes = record {
  prg_mem = λ i. bytes (prg_offset bytes + i);
  prg_size = prg_length bytes;
  chr_mem = λ i. bytes (prg_offset bytes + prg_length bytes + i);
  chr_size = chr_length bytes;
  mapper_id = mapper_of bytes;
  prg_banks = bytes 4;
  chr_banks = bytes 5;
  mapper = nes_get_mapper (mapper_of bytes);
}

-- The cartridge from before is given back to the heap; the pointer to it stays.
unfoldable pub free_cart : CartPointer → Action (Unit {0})
unfolding pure fault modify
free_cart null_cart = pure tt
free_cart freed_cart = fault
free_cart (cart_at c) = modify (λ m. record m { loaded_cart = freed_cart })

module _ {W : Type 0} (lib : CLibrary W) where
  -- The branch of the iNES header and what follows it.
  unfoldable pub load_ines : ℕ → ℕ → (ℕ → ℕ) → W → Action (ℕ × W)
  unfolding pure fault modify ◌>>=◌
  load_ines cartfile size bytes w =
      let released : W =
        lib.fclose cartfile (lib.free_inside (prg_offset bytes + prg_length bytes) w) in
      if not (in_block size (prg_offset bytes) (prg_length bytes))
      then fault
      else if not (in_block size (prg_offset bytes + prg_length bytes) (chr_length bytes))
      then fault
      else elim (nes_get_mapper (mapper_of bytes)) [
        | none ↦ do modify (λ m. record m { loaded_cart = freed_cart }); pure (4294967294, released)
        | some mapper ↦ do
          modify (λ m. record m { loaded_cart = cart_at (cart_of bytes) })
          pure (0, released)
      ]

  -- What the header leads to. With other bytes than those at address 0 in `unused` there is no
  -- cartridge, and its mapper is read through NULL.
  unfoldable pub load_image : ℕ → ℕ → (ℕ → ℕ) → W → Action (ℕ × W)
  unfolding load_ines same_text same_bytes pure fault ◌>>=◌
  load_image cartfile size bytes w = do
    ident ← same_text size bytes 0 (b'N' ∷ b'E' ∷ b'S' ∷ [])
    if not ident then pure (4294967294, w) else do
      unused ← same_bytes 4 size bytes 11 lib.null_text 0
      if unused then load_ines cartfile size bytes w else fault

  -- -1 for a file that does not open, -2 for a bad one and for an unknown mapper.
  unfoldable pub load_file : ℕ → W → Action (ℕ × W)
  unfolding load_image pure
  load_file cartfile w =
      let ((statres, size), after) = lib.fstat cartfile w in
      let (bytes, filled) = lib.fread cartfile size after in
      if cartfile == 0
      then pure (minus_one, w)
      else if not (statres == 0)
      then pure (4294967294, lib.fclose cartfile after)
      else load_image cartfile size bytes filled

  unfoldable pub nes_load_cart : Text → W → Action (ℕ × W)
  unfolding free_cart load_file get ◌>>=◌
  nes_load_cart filepath w =
      let (cartfile, after) = lib.fopen filepath w in
      do m ← get; free_cart m.loaded_cart; load_file cartfile after

  -- `kmain` from the load to the end of its loop, which makes 10 clock cycles, without the display.
  -- The result of the load is not looked at.
  unfoldable pub run_rom : Text → W → Action (Unit {0})
  unfolding nes_load_cart nes_reset clocks ◌>>=◌
  run_rom filepath w = do result ← nes_load_cart filepath w; nes_reset; clocks 10
