-- ===== src/Nes/Ops/Stack/Interrupts.antt =====
-- NMI, IRQ and RTI: an interrupt handler comes back to the instruction it interrupted.
use mnes_hrel.Common.{
  ℕ, ◌+◌, ◌*◌, ◌/◌, ◌≤◌, ◌<◌, ◌≡◌, refl, sym, subst, ap, ◌∙◌, true, false, some, arith, bit_and,
  ◌>>>◌, ◌==◌, if◌then◌else◌, u8, u16,
}
use mnes_hrel.Common.Bits.{bit_and-ones, bit_or-word, all_below, byte_table}
use mnes_hrel.Nes.Machine.{
  Cartridge, cart_at, Machine, ◌>>=◌, set_p, set_pc, set_addr_abs, set_cycles,
}
use mnes_hrel.Nes.Bus.{nes_cpu_read}
use mnes_hrel.Nes.Bus.MemoryMap.{byte_at, nes_cpu_read-byte_at}
use mnes_hrel.Nes.Registers.{flag_b, flag_u, flag_i, nes_setflag, nes_getflag, flag_of}
use mnes_hrel.Nes.Registers.Flags.{status_after, nes_setflag-status}
use mnes_hrel.Nes.Ops.Stack.{
  push, pull, push_pc, pull_pc, read_vector, nes_rti, interrupt, nes_nmirq, nes_irq,
}
use mnes_hrel.Nes.Ops.Stack.RoundTrip.{
  HasStack, slot, pushed, push_lem, pull_lem, pc_pushed, push_pc_lem, Holds, pull_pc_lem,
}
use mnes_hrel.Nes.Ops.Stack.Calls.{KeepsTop}
use mnes_hrel.Nes.Keeps.{bind-some}
use mnes_hrel.Nes.Safety.Ready.{IsBytes, IsBytes-update, IsPlayable}
use mnes_hrel.Nes.Safety.Bus.{byte_at-lt}

-- The word of the map at `a`, low byte first.
abbrev pub word_at : Cartridge → Machine → ℕ → ℕ
word_at c m a = byte_at c m.cpu_ram (u16 (a + 1)) * 256 + byte_at c m.cpu_ram (u16 a)

pub read_vector_lem :
    {c : Cartridge}
    → IsPlayable c
    → (a : ℕ) (m : Machine) → m.loaded_cart ≡ cart_at c
    → IsBytes m.cpu_ram
    → read_vector a m ≡ some (word_at c m a, m)
unfolding read_vector ◌>>=◌
read_vector_lem {c} play a m cart ram =
    bind-some (nes_cpu_read a false) _ m (nes_cpu_read-byte_at play m false a cart)
    ∙ bind-some (nes_cpu_read (a + 1) false) _ m (nes_cpu_read-byte_at play m false (a + 1) cart)
    ∙ ground (
      arith,
      bit_or-word (byte_at c m.cpu_ram (u16 (a + 1))) (byte_at c m.cpu_ram (u16 a))
          (byte_at-lt play m.cpu_ram (u16 a) ram),
    )

-- The status that an interrupt pushes: I and U set, B as it was, and every other flag lost.
abbrev pub interrupted : ℕ → ℕ
interrupted p = bit_and p 0x10 + 0x24

interrupted_table :
    all_below 256 (λ p.
      status_after flag_i true (status_after flag_u true (status_after flag_b false p))
      == bit_and p 0x10 + 0x24)
    ≡ true
unfolding all_below
interrupted_table = refl

-- The status that RTI makes of a byte it pulls.
abbrev resumed : ℕ → ℕ
resumed v = status_after flag_u true (status_after flag_b true (u8 v))

resumed_table : all_below 256 (λ p. resumed (u8 (interrupted p)) == 0x34) ≡ true
unfolding all_below
resumed_table = refl

-- The machine that an interrupt has pushed: PC, then the status that is left of its flags.
abbrev saved : Machine → Machine
saved m = pushed (interrupted m.p) (record (pc_pushed m) { p = interrupted m.p })

abbrev pub entered : Cartridge → ℕ → ℕ → Machine → Machine
entered c vector duration m = record (saved m) {
  addr_abs = vector;
  pc = word_at c m vector;
  cycles = duration;
}

pushed-IsBytes : (v : ℕ) (m : Machine) → IsBytes m.cpu_ram → IsBytes (pushed v m).cpu_ram
pushed-IsBytes v m h = IsBytes-update m.cpu_ram (slot m.stack_base m.sp) (u8 v) (omega arith) h

saved-IsBytes : (m : Machine) → IsBytes m.cpu_ram → IsBytes (saved m).cpu_ram
saved-IsBytes m h =
    pushed-IsBytes _ (record (pc_pushed m) { p = interrupted m.p })
      (pushed-IsBytes _ (pushed (bit_and (m.pc >>> 8) 0x00FF) m) (pushed-IsBytes _ m h))

-- Above RAM the map does not depend on it.
rom_word :
    (c : Cartridge) (m n : Machine) (a : ℕ) → 0x2000 ≤ a → a < 65535 → word_at c n a ≡ word_at c m a
unfolding byte_at
rom_word c m n a low high = ground arith

module _ {c : Cartridge} (play : IsPlayable c) (m : Machine) (stack : HasStack m)
    (cart : m.loaded_cart ≡ cart_at c) (ram : IsBytes m.cpu_ram) where
  saved_stack : HasStack (record (pc_pushed m) { p = interrupted m.p })
  saved_stack = record { page = stack.page; sp = omega arith; pc = stack.pc }

  pub interrupt_lem :
      (vector duration : ℕ)
      → 0x2000 ≤ vector
      → vector < 65535
      → duration < 256
      → m.p < 256
      → interrupt vector duration m ≡ some (tt, entered c vector duration m)
  unfolding interrupt set_addr_abs set_pc set_cycles ◌>>=◌
  interrupt_lem vector duration low high short byte =
      let n : Machine = pc_pushed m in
      let p₁ : ℕ = status_after flag_b false m.p in
      let p₂ : ℕ = status_after flag_u true p₁ in
      let status : status_after flag_i true p₂ ≡ interrupted m.p =
        byte_table
          (λ p. status_after flag_i true (status_after flag_u true (status_after flag_b false p)))
          interrupted m.p interrupted_table byte in
      let vectored : Machine = record (saved m) { addr_abs = u16 vector } in
      bind-some push_pc _ m (push_pc_lem m stack)
      ∙ bind-some (nes_setflag flag_b false) _ n (nes_setflag-status flag_b false n)
      ∙ bind-some (nes_setflag flag_u true) _ (record n { p = p₁ })
          (nes_setflag-status flag_u true (record n { p = p₁ }))
      ∙ bind-some (nes_setflag flag_i true) _ (record n { p = p₂ })
          (nes_setflag-status flag_i true (record n { p = p₂ })
            ∙ ap (λ (q : ℕ). some (tt, record n { p = q })) status)
      ∙ bind-some (push (interrupted m.p)) _ (record n { p = interrupted m.p })
          (push_lem (interrupted m.p) (record n { p = interrupted m.p }) saved_stack)
      ∙ bind-some (read_vector vector) _ vectored
          (read_vector_lem play vector vectored cart (saved-IsBytes m ram))
      ∙ ground (
        arith,
        rom_word c m vectored vector low high,
        byte_at-lt play m.cpu_ram (u16 (vector + 1)) ram,
        byte_at-lt play m.cpu_ram (u16 vector) ram,
      )

-- The top of the stack after an interrupt at `m`.
record Saves (m n : Machine) : Type 0 where
  stack : HasStack n
  status : n.cpu_ram (slot n.stack_base (u8 (n.sp + 1))) ≡ u8 (interrupted m.p)
  sp : u8 (n.sp + 3) ≡ m.sp
  pc : Holds m.pc (record n { sp = u8 (n.sp + 1) })

entered-Saves :
    (c : Cartridge) (vector duration : ℕ) (m : Machine)
    → HasStack m
    → (word_at c m vector < 65536)
    → Saves m (entered c vector duration m)
entered-Saves c vector duration m h small = record {
  stack = record { page = h.page; sp = omega arith; pc = small };
  status = ground (arith, h.sp);
  sp = ground (arith, h.sp);
  pc = record {
    stack = record { page = h.page; sp = omega arith; pc = small };
    lo = ground (arith, h.sp, bit_and-ones 8 m.pc);
    hi = ground (arith, h.sp, h.pc, bit_and-ones 8 (m.pc / 256));
  };
}

Saves-KeepsTop : {m n o : Machine} → HasStack m → Saves m n → KeepsTop 3 n o → Saves m o
Saves-KeepsTop {m} {n} {o} h s t = record {
  stack = record {
    page = ground (arith, s.stack.page, t.base);
    sp = ground (arith, s.stack.sp, t.sp);
    pc = t.pc;
  };
  status = ground (arith, s.status, t.top 0, t.sp, t.base);
  sp = ground (arith, s.sp, t.sp);
  pc = record {
    stack = record { page = ground (arith, s.stack.page, t.base); sp = omega arith; pc = t.pc };
    lo = ground (arith, s.pc.lo, t.top 1, t.sp, t.base);
    hi = ground (arith, s.pc.hi, t.top 2, t.sp, t.base);
  };
}

module _ (m n : Machine) (small : m.pc < 65536) (byte : m.p < 256) (s : Saves m n) where
  nes_rti_lem : nes_rti n ≡ some (0, record n { sp = m.sp; pc = m.pc; p = 0x34 })
  unfolding nes_rti set_p ◌>>=◌
  nes_rti_lem =
      let popped : Machine = record n { sp = u8 (n.sp + 1) } in
      let v : ℕ = n.cpu_ram (slot n.stack_base (u8 (n.sp + 1))) in
      let p₁ : ℕ = status_after flag_b true (u8 v) in
      let restored : Machine = record popped { p = resumed v } in
      bind-some pull _ n (pull_lem n s.stack)
      ∙ bind-some (nes_setflag flag_b true) _ (record popped { p = u8 v })
          (nes_setflag-status flag_b true (record popped { p = u8 v }))
      ∙ bind-some (nes_setflag flag_u true) _ (record popped { p = p₁ })
          (nes_setflag-status flag_u true (record popped { p = p₁ }))
      ∙ bind-some pull_pc _ restored (
          pull_pc_lem m.pc restored small (record {
            stack = record { page = s.stack.page; sp = omega arith; pc = s.stack.pc };
            lo = s.pc.lo;
            hi = s.pc.hi;
          }))
      ∙ ground (
        arith,
        s.status,
        s.sp,
        byte_table (λ p. resumed (u8 (interrupted p))) (λ _. 0x34) m.p resumed_table byte,
      )

module _ {c : Cartridge} (play : IsPlayable c) (m : Machine) (stack : HasStack m)
    (cart : m.loaded_cart ≡ cart_at c) (ram : IsBytes m.cpu_ram) where
  -- With the stack page in RAM and a playable cartridge loaded, an NMI on a machine
  -- with a status of 8 bits pushes PC and a status with I and U set, B as it was, and every other
  -- flag lost, jumps through the vector at $FFFA and takes 8 cycles. An IRQ does the same through
  -- $FFFE in 7 cycles, unless the I flag is set: then it does nothing.
  pub interrupts-enter :
      m.p < 256
      → (nes_nmirq m ≡ some (tt, entered c 0xFFFA 8 m))
        × (nes_irq m ≡ (if flag_of flag_i m then some (tt, m) else some (tt, entered c 0xFFFE 7 m)))
  unfolding nes_nmirq nes_irq nes_getflag ◌>>=◌
  interrupts-enter byte = (
    interrupt_lem play m stack cart ram 0xFFFA 8 (omega arith) (omega arith) (omega arith) byte,
    ground (
      arith,
      interrupt_lem play m stack cart ram 0xFFFE 7 (omega arith) (omega arith) (omega arith) byte,
    ),
  )

  -- With the stack page in RAM and a playable cartridge loaded, a handler that leaves the stack
  -- pointer and the three bytes on top of the stack as it found them comes back from an NMI: RTI
  -- brings back the program counter and the stack pointer of the interrupted machine. The status
  -- is 0x34, whatever it was before: I, B and U set, and every other flag lost.
  pub nes_rti-nes_nmirq :
      (m₁ m₂ : Machine)
      → m.p < 256
      → nes_nmirq m ≡ some (tt, m₁)
      → KeepsTop 3 m₁ m₂
      → nes_rti m₂ ≡ some (0, record m₂ { sp = m.sp; pc = m.pc; p = 0x34 })
  nes_rti-nes_nmirq m₁ m₂ byte call back =
      let there : m₁ ≡ entered c 0xFFFA 8 m = ground (arith, (interrupts-enter byte).0) in
      let top : Saves m m₁ = subst (Saves m) (sym there) (
        entered-Saves c 0xFFFA 8 m stack (
          omega
            (arith, byte_at-lt play m.cpu_ram 0xFFFB ram, byte_at-lt play m.cpu_ram 0xFFFA ram))) in
      nes_rti_lem m m₂ stack.pc byte (Saves-KeepsTop stack top back)
