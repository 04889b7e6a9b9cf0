-- ===== src/Nes/Ops/Stack/Calls.antt =====
-- JSR and RTS, and an interrupt and RTI: control comes back to where it left.
use mnes_hrel.Common.{ℕ, ◌+◌, ◌≤◌, ◌<◌, ◌≡◌, ap, sym, subst, ◌∙◌, some, arith, u8, u16, dec16}
use mnes_hrel.Nes.Machine.{Machine, Action, pure, get, ◌>>=◌, set_pc}
use mnes_hrel.Nes.Ops.Stack.{push_pc, pull_pc, nes_jsr, nes_rts}
use mnes_hrel.Nes.Ops.Stack.RoundTrip.{
  HasStack, slot, pc_pushed, push_pc_lem, Holds, pc_pushed-Holds, pull_pc_lem,
}
use mnes_hrel.Nes.Keeps.{bind-some}

-- From `m` to `n` the stack pointer came back and the `k` bytes above it were left alone.
pub record KeepsTop (k : ℕ) (m n : Machine) : Type 0 where
  pub sp : n.sp ≡ m.sp
  pub base : n.stack_base ≡ m.stack_base
  pub pc : n.pc < 65536
  pub top :
      (i : ℕ)
      → i < k
      → n.cpu_ram (slot m.stack_base (u8 (m.sp + (i + 1))))
        ≡ m.cpu_ram (slot m.stack_base (u8 (m.sp + (i + 1))))

Holds-KeepsTop : {k pc : ℕ} {m n : Machine} → 2 ≤ k → Holds pc m → KeepsTop k m n → Holds pc n
Holds-KeepsTop {m} many h t = record {
  stack = record {
    page = ground (arith, h.stack.page, t.base);
    sp = ground (arith, h.stack.sp, t.sp);
    pc = t.pc;
  };
  lo = ground (arith, h.lo, t.top 0, t.sp, t.base);
  hi = ground (arith, h.hi, t.top 1, t.sp, t.base);
}

abbrev pub called : Machine → Machine
called m = record (pc_pushed (record m { pc = dec16 m.pc })) { pc = u16 m.addr_abs }

pub nes_jsr_lem : (m : Machine) → HasStack m → nes_jsr m ≡ some (0, called m)
unfolding nes_jsr set_pc ◌>>=◌
nes_jsr_lem m h =
    ap (λ (v : ℕ). (push_pc >>= jump) (record m { pc = v })) truncated
    ∙ bind-some push_pc jump start (push_pc_lem start start_ok)
  where
    start : Machine
    start = record m { pc = dec16 m.pc }

    start_ok : HasStack start
    start_ok = record { page = h.page; sp = h.sp; pc = omega arith }

    truncated : u16 (dec16 m.pc) ≡ dec16 m.pc
    truncated = omega arith

    jump : Unit {0} → Action ℕ
    jump _ = get >>= λ m'. set_pc m'.addr_abs >>= λ _. pure {A = ℕ} 0

pub nes_rts_lem :
    (pc : ℕ) (m : Machine)
    → pc < 65536
    → Holds pc m
    → nes_rts m ≡ some (0, record m { sp = u8 (u8 (m.sp + 1) + 1); pc = u16 (pc + 1) })
unfolding nes_rts set_pc ◌>>=◌
nes_rts_lem pc m small h =
    bind-some pull_pc (λ _. get >>= λ m'. set_pc (m'.pc + 1) >>= λ _. pure {A = ℕ} 0) m
      (pull_pc_lem pc m small h)

-- With the stack page in RAM, a subroutine that leaves the stack pointer and the two bytes on top
-- of the stack as JSR left them returns behind its call: RTS brings back the program counter and
-- the stack pointer that JSR found, and changes nothing else.
pub nes_rts-nes_jsr :
    (m m₁ m₂ : Machine)
    → HasStack m
    → nes_jsr m ≡ some (0, m₁)
    → KeepsTop 2 m₁ m₂
    → nes_rts m₂ ≡ some (0, record m₂ { sp = m.sp; pc = m.pc })
nes_rts-nes_jsr m m₁ m₂ h call back =
    let there : m₁ ≡ called m = ground (arith, nes_jsr_lem m h) in
    let start : Machine = record m { pc = dec16 m.pc } in
    let start_ok : HasStack start = record { page = h.page; sp = h.sp; pc = omega arith } in
    let below : Holds start.pc (pc_pushed start) = pc_pushed-Holds start start_ok in
    let held : Holds start.pc (called m) = record {
      stack = record { page = h.page; sp = omega arith; pc = omega arith };
      lo = below.lo;
      hi = below.hi;
    } in
    nes_rts_lem start.pc m₂ (omega arith)
      (Holds-KeepsTop (omega arith) (subst (Holds start.pc) (sym there) held) back)
    ∙ ground (arith, back.sp, ap (λ (n : Machine). n.sp) there)
