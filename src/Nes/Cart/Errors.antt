-- ===== src/Nes/Cart/Errors.antt =====
-- The errors of `nes_load_cart`, which `kmain` does not look at.
use mnes_hrel.Common.{
  ℕ, ◌≤◌, ◌≡◌, ◌≢◌, ◌∙◌, refl, ap, true, false, some, none, arith, minus_one, Text, [], ◌∷◌,
}
use mnes_hrel.Nes.Machine.{
  Cartridge, CartPointer, null_cart, freed_cart, cart_at, Machine, ◌>>=◌, set_addr_abs,
}
use mnes_hrel.Nes.Bus.{nes_cpu_read}
use mnes_hrel.Nes.Ops.Stack.{read_vector}
use mnes_hrel.Nes.Clock.{nes_reset, clocks}
use mnes_hrel.Nes.Keeps.{bind-some, bind-none}
use mnes_hrel.Nes.Cart.{
  CLibrary, same_text, free_cart, load_file, load_image, same_bytes, nes_load_cart, run_rom,
}
use mnes_hrel.Nes.Cart.Image.{Gives, Usable, without_cart, free_cart_lem, load_lem}

reset-fault :
    (p : CartPointer) (m' : Machine)
    → m'.loaded_cart ≡ p
    → ((c : Cartridge) → p ≢ cart_at c)
    → nes_reset m' ≡ none
unfolding nes_reset set_addr_abs read_vector nes_cpu_read
reset-fault null_cart m' e h = ground (arith, e)
reset-fault freed_cart m' e h = ground (arith, e)
reset-fault (cart_at c) m' e h = absurd (h c refl)

no_cart :
    (p : CartPointer) (c : Cartridge)
    → (elim p [ cart_at c ↦ freed_cart | other ↦ other ]) ≢ cart_at c
no_cart null_cart c e = absurd (ground (arith, e))
no_cart freed_cart c e = absurd (ground (arith, e))
no_cart (cart_at d) c e = absurd (ground (arith, e))

module _ {W : Type 0} (lib : CLibrary W) (filepath : Text) (w opened : W) (m : Machine)
    (usable : Usable m.loaded_cart) (missing : lib.fopen filepath w ≡ (0, opened)) where
  -- A file that does not open gives -1, if the cartridge from before was not freed. That cartridge
  -- is gone then, and its pointer dangles.
  pub nes_load_cart-missing :
      nes_load_cart lib filepath w m ≡ some ((minus_one, opened), without_cart m)
  unfolding nes_load_cart load_file
  nes_load_cart-missing =
      bind-some (free_cart m.loaded_cart) _ m (free_cart_lem m m.loaded_cart refl usable)
      ∙ ap (λ (o : ℕ × W). load_file lib o.0 o.1 (without_cart m)) missing

  -- If the file of the cartridge does not open, and the cartridge from before, if there is one, is
  -- not freed, `kmain` goes on to the reset, which reads its vector through a pointer that is NULL
  -- or dangles: a fault.
  pub run_rom-missing : run_rom lib filepath w m ≡ none
  unfolding run_rom
  run_rom-missing =
      bind-some (nes_load_cart lib filepath w) (λ result. nes_reset >>= λ _. clocks 10) m
        nes_load_cart-missing
      ∙ bind-none nes_reset (λ _. clocks 10) (without_cart m)
          (reset-fault (without_cart m).loaded_cart (without_cart m) refl (no_cart m.loaded_cart))

module _ {W : Type 0} (lib : CLibrary W) {filepath : Text} {w : W} {cartfile size : ℕ}
    {bytes : ℕ → ℕ} {read : W} (g : Gives lib filepath w cartfile size bytes read) (m : Machine)
    (usable : Usable m.loaded_cart) (header : 16 ≤ size) where
  ident-false :
      (m' : Machine)
      → (bytes 0 ≡ b'N' → bytes 1 ≡ b'E' → bytes 2 ≢ b'S')
      → same_text size bytes 0 (b'N' ∷ b'E' ∷ b'S' ∷ []) m' ≡ some (false, m')
  unfolding same_text
  ident-false m' other = ground (arith, other, header)

  -- If the C library opens and reads a file of at least 16 bytes that does not begin with "NES",
  -- and the cartridge from before, if there is one, is not freed, the result is -2. After the
  -- reading neither the file nor its buffer is given back.
  pub nes_load_cart-other :
      (bytes 0 ≡ b'N' → bytes 1 ≡ b'E' → bytes 2 ≢ b'S')
      → nes_load_cart lib filepath w m ≡ some ((4294967294, read), without_cart m)
  unfolding load_image
  nes_load_cart-other other =
      load_lem lib g m usable
      ∙ bind-some (same_text size bytes 0 (b'N' ∷ b'E' ∷ b'S' ∷ [])) _ (without_cart m)
          (ident-false (without_cart m) other)

  unused-false :
      (m' : Machine)
      → bytes 11 ≢ lib.null_text 0
      → same_bytes 4 size bytes 11 lib.null_text 0 m' ≡ some (false, m')
  unfolding same_bytes
  unused-false m' other = ground (arith, other, header)

  -- If the C library opens and reads a file of at least 16 bytes that begins with "NES", with
  -- another first unused byte in the header than the byte at address 0, and the cartridge from
  -- before, if there is one, is not freed, the load reads the mapper through NULL: a fault.
  pub nes_load_cart-fault :
      bytes 0 ≡ b'N'
      → bytes 1 ≡ b'E'
      → bytes 2 ≡ b'S'
      → bytes 11 ≢ lib.null_text 0
      → nes_load_cart lib filepath w m ≡ none
  unfolding load_image same_text
  nes_load_cart-fault n e s other =
      let ident : same_text size bytes 0 (b'N' ∷ b'E' ∷ b'S' ∷ []) (without_cart m)
          ≡ some (true, without_cart m) =
        ground (arith, n, e, s, header) in
      load_lem lib g m usable
      ∙ bind-some (same_text size bytes 0 (b'N' ∷ b'E' ∷ b'S' ∷ [])) _ (without_cart m) ident
      ∙ bind-some (same_bytes 4 size bytes 11 lib.null_text 0) _ (without_cart m)
          (unused-false (without_cart m) other)
