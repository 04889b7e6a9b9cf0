-- ===== src/Nes/Registers/Flags.antt =====
-- What `nes_setflag` does to each flag.
use mnes_hrel.Common.{
  ℕ, ◌<◌, ◌≡◌, refl, Bool, true, false, ◌&&◌, ◌||◌, some, arith, bit, bit_and, bit_or, ◌==◌, u8,
  nonzero, if◌then◌else◌, eq_of_==,
}
use mnes_hrel.Common.Bits.{all_below, all_below-true}
use mnes_hrel.Nes.Machine.{Machine, set_p, ◌>>=◌}
use mnes_hrel.Nes.Registers.{
  Flag, flag_c, flag_z, flag_i, flag_d, flag_b, flag_u, flag_v, flag_n, mask, flag_of, nes_setflag,
}
use mnes_hrel.Nes.Keeps.{Returns}

abbrev pub same : Flag → Flag → Bool
same f g = mask f == mask g

-- The status register that `nes_setflag` writes.
abbrev pub status_after : Flag → Bool → ℕ → ℕ
status_after f clear p = u8 (if clear then bit_or p (mask f) else bit_and p (mask f))

-- Flag `g` of a status register.
abbrev flag_in : Flag → ℕ → Bool
flag_in g p = nonzero (bit_and (bit_and p (mask g)) 0xFF)

set_table :
    (f g : Flag)
    → all_below 256 (λ p. bit (flag_in g (status_after f true p)) == bit (same f g || flag_in g p))
      ≡ true
unfolding all_below
set_table flag_c flag_c = refl
set_table flag_c g = refl
set_table flag_z flag_c = refl
set_table flag_z g = refl
set_table flag_i flag_c = refl
set_table flag_i g = refl
set_table flag_d flag_c = refl
set_table flag_d g = refl
set_table flag_b flag_c = refl
set_table flag_b g = refl
set_table flag_u flag_c = refl
set_table flag_u g = refl
set_table flag_v flag_c = refl
set_table flag_v g = refl
set_table flag_n flag_c = refl
set_table flag_n g = refl

clear_table :
    (f g : Flag)
    → all_below 256 (λ p. bit (flag_in g (status_after f false p)) == bit (same f g && flag_in g p))
      ≡ true
unfolding all_below
clear_table flag_c flag_c = refl
clear_table flag_c g = refl
clear_table flag_z flag_c = refl
clear_table flag_z g = refl
clear_table flag_i flag_c = refl
clear_table flag_i g = refl
clear_table flag_d flag_c = refl
clear_table flag_d g = refl
clear_table flag_b flag_c = refl
clear_table flag_b g = refl
clear_table flag_u flag_c = refl
clear_table flag_u g = refl
clear_table flag_v flag_c = refl
clear_table flag_v g = refl
clear_table flag_n flag_c = refl
clear_table flag_n g = refl

eq_of_bit : (a b : Bool) → bit a ≡ bit b → a ≡ b
eq_of_bit a b h = ground arith

pub nes_setflag-status :
    (f : Flag) (b : Bool) (m : Machine)
    → nes_setflag f b m ≡ some (tt, record m { p = status_after f b m.p })
unfolding nes_setflag set_p ◌>>=◌
nes_setflag-status f true m = refl
nes_setflag-status f false m = refl

flag_in-status_after :
    (f g : Flag) (b : Bool) (p : ℕ)
    → p < 256
    → flag_in g (status_after f b p)
      ≡ (if b then same f g || flag_in g p else same f g && flag_in g p)
flag_in-status_after f g true p h = eq_of_bit _ _ (
    eq_of_== _ _ (
      all_below-true 256
        (λ p. bit (flag_in g (status_after f true p)) == bit (same f g || flag_in g p)) p
        (set_table f g) h))
flag_in-status_after f g false p h = eq_of_bit _ _ (
    eq_of_== _ _ (
      all_below-true 256
        (λ p. bit (flag_in g (status_after f false p)) == bit (same f g && flag_in g p)) p
        (clear_table f g) h))

-- With a status of 8 bits, `nes_setflag(f, true)` sets `f` and leaves the other flags, and
-- `nes_setflag(f, false)` clears every flag but `f`, which it leaves as it was.
pub nes_setflag-flag_of :
    (f g : Flag) (b : Bool) (m : Machine)
    → m.p < 256
    → Returns
        (λ _ m'. flag_of g m' ≡ (if b then same f g || flag_of g m else same f g && flag_of g m))
        (nes_setflag f b m)
nes_setflag-flag_of f g b m h = rw (nes_setflag-status f b m) (flag_in-status_after f g b m.p h)
