-- ===== src/Nes/Tests/Laws.antt =====
-- The theorems on the bus, the addressing modes and the operations at the sample machine.
use mnes_hrel.Common.{
  ℕ, ◌+◌, ◌<◌, ◌≡◌, refl, true, false, some, arith, bit, leb, ◌&&◌, u16, get_elem?,
}
use mnes_hrel.Nes.Machine.{Machine, ◌>>=◌}
use mnes_hrel.Nes.Bus.{nes_cpu_read, nes_cpu_write}
use mnes_hrel.Nes.Bus.MemoryMap.{byte_at, ram_after, nes_cpu_read-byte_at, nes_cpu_write-ram_after}
use mnes_hrel.Nes.Instruction.{Instruction, lda, imm, nes_instructions}
use mnes_hrel.Nes.AddrMode.{nes_abx, nes_aby, nes_rel}
use mnes_hrel.Nes.Ops.Arith.{nes_adc}
use mnes_hrel.Nes.Ops.Branch.{branch_if}
use mnes_hrel.Nes.Ops.Stack.{nes_rts}
use mnes_hrel.Nes.Ops.Stack.{nes_nmirq, nes_irq, nes_rti}
use mnes_hrel.Nes.Ops.Stack.RoundTrip.{HasStack}
use mnes_hrel.Nes.Ops.Stack.Interrupts.{entered, interrupts-enter, nes_rti-nes_nmirq}
use mnes_hrel.Nes.Clock.{nes_reset}
use mnes_hrel.Nes.Laws.Reset.{reset, nes_reset-IsReady}
use mnes_hrel.Nes.Ops.Stack.Calls.{KeepsTop, called, nes_jsr_lem, nes_rts-nes_jsr}
use mnes_hrel.Nes.Safety.Ready.{IsReady}
use mnes_hrel.Nes.Keeps.{Returns}
use mnes_hrel.Nes.Registers.{nes_setflag, flag_of, flag_c, flag_z}
use mnes_hrel.Nes.Registers.Flags.{same, nes_setflag-flag_of}
use mnes_hrel.Nes.Laws.Fetch.{operand}
use mnes_hrel.Nes.Laws.Arith.{nes_adc-a}
use mnes_hrel.Nes.Laws.Address.{
  byte_0, word, branch_target, branch_cost, indexed-word, branch-signed,
}
use mnes_hrel.Nes.Tests.Sample.{
  sample_cart, sample, sample_cart-IsPlayable, sample-IsReady, sample-IsReady_at,
}

nes_cpu_read-byte_at_example :
    nes_cpu_read 0xC003 false sample ≡ some (byte_at sample_cart sample.cpu_ram 0xC003, sample)
nes_cpu_read-byte_at_example = nes_cpu_read-byte_at sample_cart-IsPlayable sample false 0xC003 refl

nes_cpu_write-ram_after_example :
    nes_cpu_write 0x1810 0x142 sample
    ≡ some (tt, record sample { cpu_ram = ram_after sample.cpu_ram 0x1810 0x42 })
nes_cpu_write-ram_after_example =
    nes_cpu_write-ram_after sample_cart-IsPlayable sample 0x1810 0x142 refl

stack : HasStack sample
stack = record { page = omega arith; sp = omega arith; pc = omega arith }

-- The subroutine at $8010 changed the accumulator.
abbrev back : Machine
back = record (called (record sample { addr_abs = 0x8010 })) { a = 9 }

abbrev before : Machine
before = record sample { addr_abs = 0x8010 }

before_stack : HasStack before
before_stack = record { page = omega arith; sp = omega arith; pc = omega arith }

nes_rts-nes_jsr_example : nes_rts back ≡ some (0, record back { sp = 0xFD; pc = 0x8000 })
nes_rts-nes_jsr_example =
    nes_rts-nes_jsr before (called before) back before_stack (nes_jsr_lem before before_stack)
      (record { sp = refl; base = refl; pc = omega arith; top = λ i h. refl })

-- LDA immediate, with its operand at $8001.
abbrev loading : Machine
loading = record sample { opcode = 0xA9; addr_abs = 0x8001 }

loading-IsReady : IsReady sample_cart loading
loading-IsReady = sample-IsReady_at 0x8000 0xA9 0x8001 (omega arith) (omega arith) (omega arith)

abbrev lda_imm : Instruction
lda_imm = record { name = "LDA"; operation = lda; addr_mode = imm; cycles = 2 }

loading_at : get_elem? nes_instructions 0xA9 ≡ some lda_imm
unfolding nes_instructions
loading_at = refl

abbrev loaded : ℕ
loaded = operand sample_cart lda_imm loading

nes_adc-a_example :
    (p' : ℕ) × (nes_adc loading ≡ some (1, record loading { fetched = loaded; a = 0; p = p' }))
nes_adc-a_example = nes_adc-a sample_cart-IsPlayable lda_imm loading loading-IsReady loading_at

loaded-lt : loaded < 128
unfolding byte_at
loaded-lt = omega arith

-- The operand of the call at $8004.
abbrev at_operand : Machine
at_operand = record sample { pc = 0x8005 }

at_operand-IsReady : IsReady sample_cart at_operand
at_operand-IsReady = sample-IsReady_at 0x8005 0 0 (omega arith) (omega arith) (omega arith)

abbrev operand_word_at : ℕ
operand_word_at = word sample_cart-IsPlayable at_operand at_operand-IsReady

indexed-word_example :
    (nes_abx at_operand
      ≡ some (
        bit (leb 256 (byte_0 sample_cart at_operand + 1)),
        record at_operand { pc = 0x8007; addr_abs = u16 (operand_word_at + 1) },
      ))
    × (nes_aby at_operand
        ≡ some (
          bit (leb 256 (byte_0 sample_cart at_operand + 2)),
          record at_operand { pc = 0x8007; addr_abs = u16 (operand_word_at + 2) },
        ))
indexed-word_example = indexed-word sample_cart-IsPlayable at_operand at_operand-IsReady

abbrev target : ℕ
target = branch_target 0x8006 (byte_0 sample_cart at_operand)

branch-signed_example :
    (nes_rel >>= λ _. branch_if true) at_operand
    ≡ some (
      0,
      record at_operand {
        pc = target;
        addr_abs = target;
        addr_rel = byte_0 sample_cart at_operand;
        cycles = branch_cost 0x8006 target;
      },
    )
unfolding byte_at
branch-signed_example =
    branch-signed sample_cart-IsPlayable at_operand at_operand-IsReady true (omega arith)

abbrev waiting : Machine
waiting = record sample { cycles = 3; pc = 0x1234 }

-- The NMI handler of the sample cartridge starts at $0000; it changed the index registers.
abbrev handled : Machine
handled = record (entered sample_cart 0xFFFA 8 sample) { x = 3; y = 4 }

interrupts-enter_example :
    (nes_nmirq sample ≡ some (tt, entered sample_cart 0xFFFA 8 sample))
    × (nes_irq sample ≡ some (tt, entered sample_cart 0xFFFE 7 sample))
interrupts-enter_example =
    interrupts-enter sample_cart-IsPlayable sample stack refl sample-IsReady.ram (omega arith)

handled-KeepsTop : KeepsTop 3 (entered sample_cart 0xFFFA 8 sample) handled
unfolding byte_at
handled-KeepsTop = record { sp = refl; base = refl; pc = omega arith; top = λ i h. refl }

nes_rti-nes_nmirq_example :
    nes_rti handled ≡ some (0, record handled { sp = 0xFD; pc = 0x8000; p = 0x34 })
nes_rti-nes_nmirq_example =
    nes_rti-nes_nmirq sample_cart-IsPlayable sample stack refl sample-IsReady.ram
      (entered sample_cart 0xFFFA 8 sample) handled (omega arith) interrupts-enter_example.0
      handled-KeepsTop

nes_reset-IsReady_example :
    (nes_reset waiting ≡ some (tt, reset sample_cart waiting))
    × IsReady sample_cart (reset sample_cart waiting)
nes_reset-IsReady_example =
    nes_reset-IsReady sample_cart-IsPlayable waiting refl sample-IsReady.ram (omega arith)

-- Clearing C clears Z, here of a status with Z and C set, and keeps C.
nes_setflag-flag_of_example :
    Returns
      (λ _ m'. flag_of flag_z m' ≡ (same flag_c flag_z && flag_of flag_z (record sample { p = 3 })))
      (nes_setflag flag_c false (record sample { p = 3 }))
nes_setflag-flag_of_example =
    nes_setflag-flag_of flag_c flag_z false (record sample { p = 3 }) (omega arith)
