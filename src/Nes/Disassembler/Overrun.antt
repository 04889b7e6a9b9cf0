-- ===== src/Nes/Disassembler/Overrun.antt =====
-- The second line of `nes_dissasemble_display` of kernel/src/nes6502.c clears memory behind its block.
use mnes_hrel.Common.{
  ℕ, suc, ◌+◌, ◌<◌, ◌≡◌, ◌≢◌, refl, true, Option, ltb, if◌then◌else◌, Outcome, returned, fault,
  runs_on, and_then, u16, get_elem?, Text, length, String, arith, Bool-cases, Option-cases, inl,
  inr,
}
use mnes_hrel.Nes.Machine.{Machine}
use Prim.Native.String.{len}
use mnes_hrel.Nes.Bus.{nes_cpu_read}
use mnes_hrel.Nes.Instruction.{Instruction, nes_instructions}
use mnes_hrel.Nes.AddrMode.{entry}
use mnes_hrel.Nes.Disassembler.{label, read_operand, ran, lines, nes_dissasemble_display}
use mnes_hrel.Console.{Console, console_writestr}

-- A run that does not come back with a result.
abbrev Never : {A : Type 0} → Outcome A → Type 0
Never {A} o = (r : A) → o ≢ returned r

fault-Never : {A : Type 0} → Never {A = A} fault
fault-Never r e = absurd (ground (arith, e))

module _ {A B : Type 0} where
  next-Never :
      (o : Outcome A) (next : A → Outcome B) → ((r : A) → Never (next r)) → Never (and_then o next)
  next-Never (returned r) next never = never r
  next-Never fault next never = fault-Never
  next-Never runs_on next never = λ r e. absurd (ground (arith, e))

  first-Never : (o : Outcome A) (next : A → Outcome B) → Never o → Never (and_then o next)
  first-Never (returned r) next never = absurd (never r refl)
  first-Never fault next never = fault-Never
  first-Never runs_on next never = λ r e. absurd (ground (arith, e))

module _ (font8x8_basic : ℕ → ℕ → ℕ) (one_shifted_back : ℕ)
    (sprintf : String → Option ℕ → String → Text) (free : ℕ → Outcome (Unit {0})) where
  -- Behind the start of the block there is no room to clear it.
  behind-Never :
      (n offset addr y : ℕ) (m : Machine) (s : Console)
      → 0 < offset
      → Never (lines font8x8_basic one_shifted_back sprintf free (suc n) offset addr y m s)
  unfolding lines
  behind-Never n offset addr y m s moved =
      let past : ltb 256 (offset + 256) ≡ true = ground arith in
      elim (Option-cases (nes_cpu_read addr true m)) [
        | inl e ↦ rw e fault-Never
        | inr ((opcode, m1), e) ↦ rw e (rw past fault-Never)
      ]

  -- The first line, once its instruction is known.
  start_line :
      (n addr y : ℕ) (i : Instruction) (m : Machine) (s : Console)
      → Never (
          ran (read_operand i.addr_mode (u16 (addr + 1)) m) (λ (value, next) m3.
            let text = sprintf i.name value (label i.addr_mode) in
            if ltb 256 (0 + len i.name + 1 + length text + 1)
            then fault
            else and_then (console_writestr font8x8_basic one_shifted_back 288 y text s) (λ after.
              lines font8x8_basic one_shifted_back sprintf free
                (suc n)
                (0 + len i.name + 1)
                next
                (y + 12)
                m3
                after)))
  unfolding ran
  start_line n addr y i m s = elim (Option-cases (read_operand i.addr_mode (u16 (addr + 1)) m)) [
    | inl e ↦ rw e fault-Never
    | inr (((value, next), m3), e) ↦
        rw e
          (elim (Bool-cases (
            ltb 256 (0 + len i.name + 1 + length (sprintf i.name value (label i.addr_mode)) + 1))) [
              | inl long ↦ rw long fault-Never
              | inr short ↦ rw short (
                  next-Never
                    (console_writestr font8x8_basic one_shifted_back 288 y
                      (sprintf i.name value (label i.addr_mode)) s)
                    _ (λ after. behind-Never n _ next (y + 12) m3 after (omega arith)))
            ])
  ]

  start-Never :
      (n addr y : ℕ) (m : Machine) (s : Console)
      → Never (lines font8x8_basic one_shifted_back sprintf free (suc (suc n)) 0 addr y m s)
  unfolding lines
  start-Never n addr y m s = elim (Option-cases (nes_cpu_read addr true m)) [
    | inl e ↦ rw e fault-Never
    | inr ((opcode, m1), e) ↦
        rw e (elim (Option-cases (entry (get_elem? nes_instructions opcode) m1)) [
          | inl f ↦ rw f fault-Never
          | inr ((i, m2), f) ↦ rw f (start_line n addr y i m2 s)
        ])
  ]

  -- The display of the disassembler never comes back, from any machine and console, whatever the C
  -- library formats and frees: the second of its lines clears 256 bytes from behind the start of a
  -- block of 256, if the first does not fault before.
  pub nes_dissasemble_display-returned :
      (m : Machine) (s : Console) (r : Machine × Console)
      → nes_dissasemble_display font8x8_basic one_shifted_back sprintf free m s ≢ returned r
  unfolding nes_dissasemble_display
  nes_dissasemble_display-returned m s = first-Never _ _ (start-Never 8 m.pc 64 m s)
