-- ===== src/Nes/Laws/Arith.antt =====
-- What ADC, SBC and EOR leave in the accumulator, and what writing N after Z does to the zero flag.
use mnes_hrel.Common.{
  ℕ, ◌+◌, ◌-◌, ◌*◌, ◌%◌, ◌≤◌, ◌<◌, ◌≡◌, refl, ◌∙◌, Bool, true, false, some, arith, bit, bit_and,
  bit_xor, get_elem?, ◌==◌, nonzero, u16, u8, eq_of_==,
}
use mnes_hrel.Common.Bits.{byte_table, all_below, all_below-true}
use mnes_hrel.Nes.Machine.{Cartridge, Machine, pure, ◌>>=◌, set_a}
use mnes_hrel.Nes.Registers.{flag_c, flag_z, flag_n, flag_v, flag_of, nes_getflag, nes_setflag}
use mnes_hrel.Nes.Registers.Flags.{status_after, nes_setflag-status}
use mnes_hrel.Nes.Instruction.{Instruction, nes_instructions}
use mnes_hrel.Nes.AddrMode.{nes_fetch}
use mnes_hrel.Nes.Ops.Arith.{nes_adc, nes_sbc}
use mnes_hrel.Nes.Ops.Logic.{nes_eor}
use mnes_hrel.Nes.Ops.Transfer.{nes_lda}
use mnes_hrel.Nes.Keeps.{Returns, bind-some}
use mnes_hrel.Nes.Safety.Ready.{IsPlayable, IsReady}
use mnes_hrel.Nes.Laws.Fetch.{operand, operand-lt, status_zn, nes_fetch_lem, set_zn_then}
use mnes_hrel.Nes.Laws.Loads.{loads-operand}

-- The end of ADC and SBC: the carry, zero, overflow and negative flags, then the accumulator.
flags_then_a :
    (carry zero overflow negative : Bool) (v : ℕ) (m : Machine)
    → (nes_setflag flag_c carry >>= λ _. nes_setflag flag_z zero >>= λ _.
          nes_setflag flag_v overflow >>= λ _.
          nes_setflag flag_n negative >>= λ _. set_a v >>= λ _. pure {A = ℕ} 1)
        m
      ≡ some (
        1,
        record m {
          a = u8 v;
          p = status_after flag_n negative (
              status_after flag_v overflow
                (status_after flag_z zero (status_after flag_c carry m.p)));
        },
      )
unfolding set_a ◌>>=◌
flags_then_a carry zero overflow negative v m =
    let p₁ : ℕ = status_after flag_c carry m.p in
    let p₂ : ℕ = status_after flag_z zero p₁ in
    let p₃ : ℕ = status_after flag_v overflow p₂ in
    bind-some (nes_setflag flag_c carry) _ m (nes_setflag-status flag_c carry m)
    ∙ bind-some (nes_setflag flag_z zero) _ (record m { p = p₁ })
        (nes_setflag-status flag_z zero (record m { p = p₁ }))
    ∙ bind-some (nes_setflag flag_v overflow) _ (record m { p = p₂ })
        (nes_setflag-status flag_v overflow (record m { p = p₂ }))
    ∙ bind-some (nes_setflag flag_n negative) _ (record m { p = p₃ })
        (nes_setflag-status flag_n negative (record m { p = p₃ }))

xor_table : all_below 256 (λ x. bit_xor x 0xFF == 255 - x) ≡ true
unfolding all_below
xor_table = refl

bit-le : (b : Bool) → bit b ≤ 1
bit-le b = ground arith

-- What SBC stores, as a number.
negated :
    (a v carry : ℕ)
    → a < 256
    → v < 256
    → carry ≤ 1
    → (u8 (u16 (a + bit_xor v 0xFF + carry) * 0x0FF) + a + carry) % 256 ≡ (v + 1) % 256
negated a v carry small byte one =
    omega (arith, byte_table (λ x. bit_xor x 0xFF) (λ x. 255 - x) v xor_table byte)

sign_table : all_below 128 (λ v. bit_and v 0x80 == 0) ≡ true
unfolding all_below
sign_table = refl

cleared_table : all_below 256 (λ p. bit_and (bit_and (u8 (bit_and p 0x80)) 0x02) 0xFF == 0) ≡ true
unfolding all_below
cleared_table = refl

-- With a value below 128 the negative flag is written as false, which clears the zero flag.
zero_flag_after :
    (v p : ℕ) → v < 128 → p < 256 → nonzero (bit_and (bit_and (status_zn v p) 0x02) 0xFF) ≡ false
zero_flag_after v p small byte =
    let p₁ : ℕ = status_after flag_z (v == 0) p in
    ground (
      arith,
      eq_of_== _ _ (all_below-true 128 (λ v. bit_and v 0x80 == 0) v sign_table small),
      eq_of_== _ _ (
          all_below-true 256 (λ p. bit_and (bit_and (u8 (bit_and p 0x80)) 0x02) 0xFF == 0) p₁
            cleared_table (omega arith)),
    )

module _ {c : Cartridge} (play : IsPlayable c) (i : Instruction) (m : Machine) (h : IsReady c m)
    (at : get_elem? nes_instructions m.opcode ≡ some i) where
  -- ADC, on a ready machine whose cartridge is playable and whose opcode is that of instruction
  -- `i`, leaves 0 in the accumulator, whatever it holds and whatever the operand is; besides, it
  -- changes the status and the fetched byte alone.
  pub nes_adc-a :
      (p' : ℕ) × (nes_adc m ≡ some (1, record m { fetched = operand c i m; a = 0; p = p' }))
  unfolding nes_adc nes_getflag ◌>>=◌
  nes_adc-a = (
    _,
    bind-some nes_fetch _ m (nes_fetch_lem play i m h at)
        ∙ flags_then_a _ _ _ _ 0 (record m { fetched = operand c i m }),
  )

  -- SBC, on a ready machine whose cartridge is playable and whose opcode is that of instruction
  -- `i`, leaves the negated difference: new accumulator, old accumulator and carry add up to the
  -- operand plus one, modulo 256. Besides, it changes the status and the fetched byte alone.
  pub nes_sbc-a :
      (a' p' : ℕ) × (nes_sbc m ≡ some (1, record m { fetched = operand c i m; a = a'; p = p' }))
      × ((a' + m.a + bit (flag_of flag_c m)) % 256 ≡ (operand c i m + 1) % 256)
  unfolding nes_sbc nes_getflag ◌>>=◌
  nes_sbc-a = (
    _,
    _,
    bind-some nes_fetch _ m (nes_fetch_lem play i m h at)
        ∙ flags_then_a _ _ _ _ _ (record m { fetched = operand c i m }),
    negated m.a (operand c i m) (bit (flag_of flag_c m)) h.a (operand-lt play i m h at)
        (bit-le (flag_of flag_c m)),
  )

  -- EOR, on a ready machine whose cartridge is playable and whose opcode is that of instruction
  -- `i`, leaves the accumulator alone: it writes the status of the exclusive or, and the fetched
  -- byte.
  pub nes_eor-a :
      nes_eor m
      ≡ some
          (1, record m { fetched = operand c i m; p = status_zn (bit_xor (operand c i m) m.a) m.p })
  unfolding nes_eor ◌>>=◌
  nes_eor-a =
      bind-some nes_fetch _ m (nes_fetch_lem play i m h at)
      ∙ set_zn_then (bit_xor (operand c i m) m.a) 1 (record m { fetched = operand c i m })

  -- LDA, on a ready machine whose cartridge is playable and whose opcode is that of instruction
  -- `i`, leaves the zero flag clear if the operand is below 128, a 0 included.
  pub nes_lda-flag_z : operand c i m < 128 → Returns (λ _ m'. flag_of flag_z m' ≡ false) (nes_lda m)
  nes_lda-flag_z small =
      rw ((loads-operand play i m h at).0) (zero_flag_after (operand c i m) m.p small h.p)
