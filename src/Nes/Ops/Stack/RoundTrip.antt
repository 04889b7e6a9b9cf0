-- ===== src/Nes/Ops/Stack/RoundTrip.antt =====
-- What is pushed is pulled: subroutine calls and interrupts come back to where they left.
use mnes_hrel.Common.{
  ℕ, ◌+◌, ◌/◌, ◌%◌, ◌<◌, ◌≡◌, ◌∙◌, false, some, arith, bit_and, ◌>>>◌, u8, u16, u32, dec8, update,
}
use mnes_hrel.Common.Bits.{bit_and-ones, bit_or_word}
use mnes_hrel.Nes.Machine.{Machine, ◌>>=◌, set_sp, set_pc}
use mnes_hrel.Nes.Bus.MemoryMap.{nes_cpu_write_ram, nes_cpu_read_ram}
use mnes_hrel.Nes.Ops.Stack.{push, pull, push_pc, pull_pc}
use mnes_hrel.Nes.Keeps.{bind-some}

-- The stack page lies in RAM, and PC and SP are in range.
pub record HasStack (m : Machine) : Type 0 where
  pub page : m.stack_base + 255 < 0x2000
  pub sp : m.sp < 256
  pub pc : m.pc < 65536

-- The cell of RAM that stack position `s` falls on.
abbrev pub slot : ℕ → ℕ → ℕ
slot base s = (base + s) % 0x800

abbrev pub pushed : ℕ → Machine → Machine
pushed v m = record m { cpu_ram = update m.cpu_ram (slot m.stack_base m.sp) (u8 v); sp = dec8 m.sp }

pub push_lem : (v : ℕ) (m : Machine) → HasStack m → push v m ≡ some (tt, pushed v m)
unfolding push set_sp ◌>>=◌
push_lem v m h = ground (arith, nes_cpu_write_ram m (u32 (m.stack_base + m.sp)) v)

pub pull_lem :
    (m : Machine)
    → HasStack m
    → pull m ≡ some (m.cpu_ram (slot m.stack_base (u8 (m.sp + 1))), record m { sp = u8 (m.sp + 1) })
unfolding pull set_sp ◌>>=◌
pull_lem m h = ground (
  arith,
  nes_cpu_read_ram (record m { sp = u8 (m.sp + 1) }) false (u32 (m.stack_base + u8 (m.sp + 1))),
)

abbrev pub pc_pushed : Machine → Machine
pc_pushed m = pushed (bit_and m.pc 0x00FF) (pushed (bit_and (m.pc >>> 8) 0x00FF) m)

pub HasStack-pushed : (v : ℕ) {m : Machine} → HasStack m → HasStack (pushed v m)
HasStack-pushed v h = record { page = h.page; sp = omega arith; pc = h.pc }

pub push_pc_lem : (m : Machine) → HasStack m → push_pc m ≡ some (tt, pc_pushed m)
unfolding push_pc ◌>>=◌
push_pc_lem m h =
    bind-some (push (bit_and (m.pc >>> 8) 0x00FF)) _ m (push_lem _ m h)
    ∙ push_lem (bit_and m.pc 0x00FF) (pushed (bit_and (m.pc >>> 8) 0x00FF) m) (HasStack-pushed _ h)

-- The machine `m` has the two bytes of `pc` on top of its stack.
pub record Holds (pc : ℕ) (m : Machine) : Type 0 where
  pub stack : HasStack m
  pub lo : m.cpu_ram (slot m.stack_base (u8 (m.sp + 1))) ≡ pc % 256
  pub hi : m.cpu_ram (slot m.stack_base (u8 (u8 (m.sp + 1) + 1))) ≡ pc / 256

pub pull_pc_lem :
    (pc : ℕ) (m : Machine)
    → pc < 65536
    → Holds pc m
    → pull_pc m ≡ some (tt, record m { sp = u8 (u8 (m.sp + 1) + 1); pc = pc })
unfolding pull_pc set_pc ◌>>=◌
pull_pc_lem pc m small h =
    let first : ℕ = m.cpu_ram (slot m.stack_base (u8 (m.sp + 1))) in
    let m₂ : Machine = record m { sp = u8 (m.sp + 1); pc = u16 first } in
    let stack₂ : HasStack m₂ = record { page = h.stack.page; sp = omega arith; pc = omega arith } in
    bind-some pull _ m (pull_lem m h.stack)
    ∙ bind-some pull _ m₂ (pull_lem m₂ stack₂)
    ∙ ground (arith, h.lo, h.hi, bit_or_word (pc / 256) (pc % 256))

pub pc_pushed-Holds : (m : Machine) → HasStack m → Holds m.pc (pc_pushed m)
pc_pushed-Holds m h = record {
  stack = HasStack-pushed _ (HasStack-pushed _ h);
  lo = ground (arith, bit_and-ones 8 m.pc);
  hi = ground (arith, bit_and-ones 8 (m.pc / 256));
}
