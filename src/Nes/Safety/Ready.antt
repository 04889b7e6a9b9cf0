-- ===== src/Nes/Safety/Ready.antt =====
-- The invariant of the emulated machine: a usable cartridge, and values within their C types.
use mnes_hrel.Common.{ℕ, ◌≤◌, ◌<◌, ◌≡◌, some, arith, update}
use mnes_hrel.Nes.Machine.{
  mapper_zero, Cartridge, cart_at, Machine, set_a, set_x, set_y, set_p, set_sp, set_pc, set_fetched,
  set_addr_abs, set_addr_rel,
}
use mnes_hrel.Nes.Keeps.{Keeps, Any}

-- An array of `uint8_t`.
unfoldable pub IsBytes : (ℕ → ℕ) → Type 0
IsBytes f = (i : ℕ) → f i < 256

-- A cartridge of mapper 0, whose program block holds the bank that the mapper reads.
pub record IsPlayable (c : Cartridge) : Type 0 where
  pub mapper : c.mapper ≡ some mapper_zero
  pub bank : c.prg_banks ≤ 1 → 0x4000 ≤ c.prg_size
  pub prg : IsBytes c.prg_mem

pub record IsReady (c : Cartridge) (m : Machine) : Type 0 where
  pub cart : m.loaded_cart ≡ cart_at c
  pub ram : IsBytes m.cpu_ram
  pub a : m.a < 256
  pub x : m.x < 256
  pub y : m.y < 256
  pub p : m.p < 256
  pub sp : m.sp < 256
  pub fetched : m.fetched < 256
  pub opcode : m.opcode < 256
  pub pc : m.pc < 65536
  pub addr_abs : m.addr_abs < 65536
  pub addr_rel : m.addr_rel < 65536
  pub cycles : m.cycles < 256

-- A ready machine in the middle of an instruction of the table, with `n` cycles left.
pub record Running (c : Cartridge) (n : ℕ) (m : Machine) : Type 0 where
  pub ready : IsReady c m
  pub left : m.cycles ≡ n
  pub known : m.opcode < 255

pub IsBytes-update : (f : ℕ → ℕ) (i v : ℕ) → v < 256 → IsBytes f → IsBytes (update f i v)
unfolding IsBytes
IsBytes-update f i v h b = λ j. ground (arith, b j)

module _ {c : Cartridge} {n : ℕ} where
  pub set_a-Keeps : (v : ℕ) → Keeps (Running c n) Any (set_a v)
  unfolding set_a
  set_a-Keeps v = record { at = λ m h. ground arith }

  pub set_x-Keeps : (v : ℕ) → Keeps (Running c n) Any (set_x v)
  unfolding set_x
  set_x-Keeps v = record { at = λ m h. ground arith }

  pub set_y-Keeps : (v : ℕ) → Keeps (Running c n) Any (set_y v)
  unfolding set_y
  set_y-Keeps v = record { at = λ m h. ground arith }

  pub set_p-Keeps : (v : ℕ) → Keeps (Running c n) Any (set_p v)
  unfolding set_p
  set_p-Keeps v = record { at = λ m h. ground arith }

  pub set_sp-Keeps : (v : ℕ) → Keeps (Running c n) Any (set_sp v)
  unfolding set_sp
  set_sp-Keeps v = record { at = λ m h. ground arith }

  pub set_pc-Keeps : (v : ℕ) → Keeps (Running c n) Any (set_pc v)
  unfolding set_pc
  set_pc-Keeps v = record { at = λ m h. ground arith }

  pub set_fetched-Keeps : (v : ℕ) → Keeps (Running c n) Any (set_fetched v)
  unfolding set_fetched
  set_fetched-Keeps v = record { at = λ m h. ground arith }

  pub set_addr_abs-Keeps : (v : ℕ) → Keeps (Running c n) Any (set_addr_abs v)
  unfolding set_addr_abs
  set_addr_abs-Keeps v = record { at = λ m h. ground arith }

  pub set_addr_rel-Keeps : (v : ℕ) → Keeps (Running c n) Any (set_addr_rel v)
  unfolding set_addr_rel
  set_addr_rel-Keeps v = record { at = λ m h. ground arith }
