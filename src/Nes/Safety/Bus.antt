-- ===== src/Nes/Safety/Bus.antt =====
-- Bus accesses, fetches and flag operations of a ready machine return and keep it ready.
use mnes_hrel.Common.{
  ℕ, ◌%◌, ◌<◌, ◌≡◌, Bool, Option, none, some, refl, arith, get_elem?, length, get_elem?-some, u8,
  u16,
}
use mnes_hrel.Nes.Machine.{Cartridge}
use mnes_hrel.Nes.Bus.{nes_cpu_read, nes_cpu_write}
use mnes_hrel.Nes.Bus.MemoryMap.{byte_at, ram_after, nes_cpu_read-byte_at, nes_cpu_write-ram_after}
use mnes_hrel.Nes.Registers.{Flag, nes_setflag, nes_getflag}
use mnes_hrel.Nes.Instruction.{Instruction, nes_instructions}
use mnes_hrel.Nes.AddrMode.{current, entry, nes_fetch}
use mnes_hrel.Nes.Keeps.{Keeps, Any, Keeps-pure, Keeps-get, Keeps-bind, keeps_rules}
use mnes_hrel.Nes.Safety.Ready.{
  IsBytes, IsBytes-update, IsPlayable, IsReady, Running, set_a-Keeps, set_x-Keeps, set_y-Keeps,
  set_p-Keeps, set_sp-Keeps, set_pc-Keeps, set_fetched-Keeps, set_addr_abs-Keeps,
  set_addr_rel-Keeps,
}

pub table_length : length nes_instructions ≡ 255
unfolding nes_instructions
table_length = refl

module _ {c : Cartridge} (play : IsPlayable c) where
  pub byte_at-lt : (ram : ℕ → ℕ) (a : ℕ) → IsBytes ram → byte_at c ram a < 256
  unfolding byte_at IsBytes
  byte_at-lt ram a bytes = ground (arith, bytes (a % 0x800), play.prg (a % 0x4000))

  pub ram_after-IsBytes :
      (ram : ℕ → ℕ) (a v : ℕ) → v < 256 → IsBytes ram → IsBytes (ram_after ram a v)
  unfolding ram_after
  ram_after-IsBytes ram a v h bytes = ground (arith, IsBytes-update ram (a % 0x800) v)

  module _ {n : ℕ} where
    pub read-Keeps : (a : ℕ) (ro : Bool) → Keeps (Running c n) Any (nes_cpu_read a ro)
    read-Keeps a ro = record {
      at = λ m h. rw (nes_cpu_read-byte_at play m ro a h.ready.cart) (tt, h);
    }

    pub write-Keeps : (a v : ℕ) → Keeps (Running c n) Any (nes_cpu_write a v)
    write-Keeps a v = record {
      at = λ m h.
          rw (nes_cpu_write-ram_after play m a v h.ready.cart)
            (ground (arith, ram_after-IsBytes m.cpu_ram (u16 a) (u8 v)));
    }

    entry-Keeps :
        (o : Option Instruction)
        → (i : Instruction) × (o ≡ some i)
        → Keeps (Running c n) Any (entry o)
    unfolding entry
    entry-Keeps none (i, e) = cc
    entry-Keeps (some j) e = Keeps-pure j tt

    pub current-Keeps : Keeps (Running c n) Any current
    unfolding current
    current-Keeps = Keeps-bind Keeps-get λ m h.
        entry-Keeps (get_elem? nes_instructions m.opcode)
          (get_elem?-some nes_instructions m.opcode (omega (arith, table_length, h.known)))

    pub setflag-Keeps : (f : Flag) (b : Bool) → Keeps (Running c n) Any (nes_setflag f b)
    unfolding nes_setflag
    setflag-Keeps f b = search (keeps_rules, set_p-Keeps)

    pub getflag-Keeps : (f : Flag) → Keeps (Running c n) Any (nes_getflag f)
    unfolding nes_getflag
    getflag-Keeps f = search keeps_rules

    pub fetch-Keeps : Keeps (Running c n) Any nes_fetch
    unfolding nes_fetch
    fetch-Keeps = search (keeps_rules, set_fetched-Keeps, read-Keeps, current-Keeps) depth 12

pub ruleset machine_rules = (
  keeps_rules, set_a-Keeps, set_x-Keeps, set_y-Keeps, set_p-Keeps, set_sp-Keeps, set_pc-Keeps,
  set_fetched-Keeps, set_addr_abs-Keeps, set_addr_rel-Keeps, read-Keeps, write-Keeps, current-Keeps,
  fetch-Keeps, setflag-Keeps, getflag-Keeps,
)
