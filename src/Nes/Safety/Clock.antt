-- ===== src/Nes/Safety/Clock.antt =====
-- `nes_clock` on a ready machine: no fault, and the cycle counter.
use mnes_hrel.Common.{
  ℕ, zero, suc, false, ◌+◌, ◌-◌, ◌≤◌, ◌<◌, ◌≡◌, ◌≢◌, refl, dec8, Bool, true, Option, none, some,
  List, [], ◌∷◌, arith, bit_and, get_elem?, get_elem?-some, ◌&&◌, leb, u8, u16, ◌==◌, ap, ◌∙◌,
  subst,
}
use mnes_hrel.Common.Bits.{bit_and-le}
use mnes_hrel.Nes.Machine.{Cartridge, Machine, get, ◌>>=◌, set_cycles, set_opcode, set_pc}
use mnes_hrel.Nes.Registers.{nes_setflag, flag_u}
use mnes_hrel.Nes.Registers.Flags.{status_after, nes_setflag-status}
use mnes_hrel.Nes.Bus.{nes_cpu_read}
use mnes_hrel.Nes.Bus.MemoryMap.{byte_at, nes_cpu_read-byte_at}
use mnes_hrel.Nes.Instruction.{Instruction, nes_instructions}
use mnes_hrel.Nes.AddrMode.{current, entry}
use mnes_hrel.Nes.Clock.{execute, read_opcode, next_instruction, nes_clock}
use mnes_hrel.Nes.Keeps.{Returns, Returns-bind, bind-some, bind-none, Any, Extra}
use mnes_hrel.Nes.Safety.Ready.{IsPlayable, IsReady, Running}
use mnes_hrel.Nes.Safety.Bus.{table_length, byte_at-lt, setflag-Keeps}
use mnes_hrel.Nes.Safety.Modes.{run_mode-Keeps}
use mnes_hrel.Nes.Safety.Ops.{run_operation-Settles}

-- Every entry of the table takes from 2 to 8 cycles.
in_range : List Instruction → Bool
in_range [] = true
in_range (i ∷ rest) = leb 2 i.cycles && leb i.cycles 8 && in_range rest

in_range_at :
    (l : List Instruction) (o : ℕ) (i : Instruction)
    → in_range l ≡ true
    → get_elem? l o ≡ some i
    → (2 ≤ i.cycles) × (i.cycles ≤ 8)
unfolding in_range
in_range_at [] o i h e = cc
in_range_at (j ∷ rest) zero i h e = ground arith
in_range_at (j ∷ rest) (suc o) i h e = in_range_at rest o i (ground arith) e

table_in_range : in_range nes_instructions ≡ true
unfolding in_range nes_instructions
table_in_range = refl

-- The counter after an instruction was started.
abbrev pub Started : Cartridge → Unit {0} → Machine → Type 0
Started c r m = IsReady c m × (m.opcode < 255) × (2 ≤ m.cycles) × (m.cycles ≤ 11)

-- The byte at PC.
abbrev pub next_opcode : Cartridge → Machine → ℕ
next_opcode c m = byte_at c m.cpu_ram m.pc

weaken_Started :
    (c : Cartridge) (n : ℕ) (o : Option (Unit {0} × Machine))
    → 2 ≤ n
    → n ≤ 11
    → Returns (λ r m. Any r × Running c n m) o
    → Returns (Started c) o
weaken_Started c n none low high h = h
weaken_Started c n (some (r, m)) low high (_, h) = ground arith

past_table : (m : Machine) → m.opcode ≡ 255 → current m ≡ none
unfolding current entry nes_instructions ◌>>=◌
past_table m last = rw last refl

module _ {c : Cartridge} (play : IsPlayable c) where
  current_in_range :
      {n : ℕ} (m : Machine)
      → Running c n m
      → Returns
          (λ i m'. IsReady c m' × (m'.opcode < 255) × (2 ≤ i.cycles) × (i.cycles ≤ 8))
          (current m)
  unfolding current entry ◌>>=◌
  current_in_range m h =
      let (i, e) =
        get_elem?-some nes_instructions m.opcode (omega (arith, table_length, h.known)) in
      rw e (
        h.ready,
        h.known,
        (in_range_at nes_instructions m.opcode i table_in_range e).0,
        (in_range_at nes_instructions m.opcode i table_in_range e).1,
      )

  set_cycles-Running :
      (v : ℕ) (m : Machine)
      → IsReady c m
      → m.opcode < 255
      → Returns (λ _ m'. Running c (u8 v) m') (set_cycles v m)
  unfolding set_cycles
  set_cycles-Running v m h known = ground arith

  finish :
      (n e1 e2 : ℕ) (m : Machine)
      → 2 ≤ n
      → n ≤ 8
      → Extra e1
      → IsReady c m × (m.opcode < 255) × (n ≤ m.cycles) × (m.cycles ≤ n + 2)
      → Returns (Started c) ((get >>= λ m'. set_cycles (m'.cycles + bit_and e1 e2)) m)
  unfolding set_cycles ◌>>=◌
  finish n e1 e2 m low high one h = ground (arith, bit_and-le e1 e2)

  execute-Started :
      (i : Instruction) (m : Machine)
      → IsReady c m
      → m.opcode < 255
      → 2 ≤ i.cycles
      → i.cycles ≤ 8
      → Returns (Started c) (execute i m)
  unfolding execute
  execute-Started i m h known low high =
      Returns-bind (Started c) _ _ m (set_cycles-Running i.cycles m h known) λ _ m₁ h₁.
        Returns-bind (Started c) _ _ m₁ ((run_mode-Keeps play i.addr_mode).at m₁ h₁)
          λ e1 m₂ (one, h₂).
            Returns-bind (Started c) _ _ m₂
              (run_operation-Settles play (omega arith) i.operation m₂ h₂)
              λ e2 m₃ (_, settled, same, above, below).
                finish (u8 i.cycles) e1 e2 m₃ (omega arith) (omega arith) one
                  (settled, same, above, below)

  -- Everything of the instruction before `execute` and after it leaves the counter alone.
  settle : (m : Machine) → Started c tt m → Returns (Started c) (nes_setflag flag_u true m)
  settle m (h, known, low, high) =
      weaken_Started c m.cycles (nes_setflag flag_u true m) low high
        ((setflag-Keeps play flag_u true).at m (record { ready = h; left = refl; known = known }))

  -- The machine with the opcode at PC read.
  abbrev reading : Machine → Machine
  reading m = record m {
    opcode = next_opcode c m;
    p = status_after flag_u true m.p;
    pc = u16 (m.pc + 1);
  }

  read_opcode_lem : (m : Machine) → IsReady c m → read_opcode m ≡ some (tt, reading m)
  unfolding read_opcode set_opcode set_pc ◌>>=◌
  read_opcode_lem m h =
      let opcode : ℕ = next_opcode c m in
      let here : u16 m.pc ≡ m.pc = omega (arith, h.pc) in
      let byte : u8 opcode ≡ opcode = omega (arith, byte_at-lt play m.cpu_ram m.pc h.ram) in
      let set : Machine = record m { opcode = opcode } in
      bind-some (nes_cpu_read m.pc false) _ m (
        nes_cpu_read-byte_at play m false m.pc h.cart
        ∙ ap (λ (a : ℕ). some (byte_at c m.cpu_ram a, m)) here)
      ∙ ap
          (λ (o : ℕ).
            (nes_setflag flag_u true >>= λ _. get >>= λ m'. set_pc (m'.pc + 1))
              (record m { opcode = o }))
          byte
      ∙ bind-some (nes_setflag flag_u true) _ set (nes_setflag-status flag_u true set)

  reading-Running :
      (m : Machine) → IsReady c m → next_opcode c m ≢ 255 → Running c m.cycles (reading m)
  reading-Running m h other =
      let known : next_opcode c m < 255 =
        omega (arith, byte_at-lt play m.cpu_ram m.pc h.ram, other) in
      let set : Machine = record m { opcode = next_opcode c m } in
      let start : Running c m.cycles set = let r : IsReady c m = h in ground arith in
      let flagged : Running c m.cycles (record set { p = status_after flag_u true m.p }) =
        (subst (λ o. Returns (λ _ m'. Any tt × Running c m.cycles m') o)
          (nes_setflag-status flag_u true set) ((setflag-Keeps play flag_u true).at set start)).1 in
      ground arith

  next_instruction-Started :
      (m : Machine) → IsReady c m → next_opcode c m ≢ 255 → Returns (Started c) (next_instruction m)
  unfolding next_instruction
  next_instruction-Started m h other =
      let h₁ = reading-Running m h other in
      rw (bind-some read_opcode _ m (read_opcode_lem m h)) (
        Returns-bind (Started c) _ _ (reading m) (current_in_range (reading m) h₁)
          λ i m₂ (h₂, known, low, high).
            Returns-bind (Started c) _ _ m₂ (execute-Started i m₂ h₂ known low high)
              λ _ m₃ h₃. settle m₃ h₃)

  count_down :
      (m : Machine)
      → Started c tt m
      → Returns
          (λ _ m'. IsReady c m' × (1 ≤ m'.cycles) × (m'.cycles ≤ 10))
          ((get >>= λ m'. set_cycles (dec8 m'.cycles)) m)
  unfolding set_cycles ◌>>=◌
  count_down m h = ground arith

  at_end :
      (m : Machine)
      → m.cycles ≡ 0
      → nes_clock m ≡ (next_instruction >>= λ _. get >>= λ m'. set_cycles (dec8 m'.cycles)) m
  unfolding nes_clock get ◌>>=◌
  at_end m done = let e : (m.cycles == 0) ≡ true = ground arith in rw e

  -- The entry of 0xFF lies behind the block of the table.
  next_instruction-faults :
      (m : Machine) → IsReady c m → next_opcode c m ≡ 255 → next_instruction m ≡ none
  unfolding next_instruction
  next_instruction-faults m h last =
      bind-some read_opcode _ m (read_opcode_lem m h)
      ∙ bind-none current _ (reading m) (past_table (reading m) last)

  -- A clock cycle that would start the instruction 0xFF reads behind the table.
  pub nes_clock-faults :
      (m : Machine) → IsReady c m → m.cycles ≡ 0 → next_opcode c m ≡ 255 → nes_clock m ≡ none
  nes_clock-faults m h done last =
      at_end m done ∙ bind-none next_instruction _ m (next_instruction-faults m h last)

  -- A clock cycle that finds no cycles left and another byte than 0xFF at PC, on a ready machine with a playable cartridge, runs
  -- the next instruction without a fault: the machine is ready again, with from 1 to 10 cycles of
  -- that instruction to wait for.
  pub nes_clock-starts :
      (m : Machine)
      → IsReady c m
      → m.cycles ≡ 0
      → next_opcode c m ≢ 255
      → Returns (λ _ m'. IsReady c m' × (1 ≤ m'.cycles) × (m'.cycles ≤ 10)) (nes_clock m)
  nes_clock-starts m h done other = rw (at_end m done) (
      Returns-bind (λ _ m'. IsReady c m' × (1 ≤ m'.cycles) × (m'.cycles ≤ 10)) next_instruction _ m
        (next_instruction-Started m h other) λ _ m₁ h₁. count_down m₁ h₁)

-- A clock cycle in the middle of an instruction lowers the counter and does nothing else.
pub nes_clock-waits :
    (m : Machine)
    → m.cycles < 256
    → m.cycles ≢ 0
    → nes_clock m ≡ some (tt, record m { cycles = m.cycles - 1 })
unfolding nes_clock set_cycles ◌>>=◌
nes_clock-waits m h busy = ground arith
