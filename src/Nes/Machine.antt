-- ===== src/Nes/Machine.antt =====
-- The globals of kernel/src/nes6502.c, nesbus.c and nescart.c as one record, and the actions on it.
--
-- The machine is the one after `init_nes_bus` and `init_nes_6502`: the 2 KB of RAM and the
-- registers are allocated. A pointer to a cartridge may still be NULL, or dangle.

use mnes_hrel.Common.{ℕ, Option, none, some, u8, u16}

-- What `nes_get_mapper` installs: the two functions of mapper 0.
pub data NesMapper : Type 0 where
  mapper_zero : NesMapper

-- `prg_mem` and `chr_mem` are heap blocks of the given sizes; `mapper` is NULL for an unknown id.
pub record Cartridge : Type 0 where
  pub prg_mem : ℕ → ℕ
  pub prg_size : ℕ
  pub chr_mem : ℕ → ℕ
  pub chr_size : ℕ
  pub mapper_id : ℕ
  pub prg_banks : ℕ
  pub chr_banks : ℕ
  pub mapper : Option NesMapper

-- The global `nes_loaded_cart`.
pub data CartPointer : Type 0 where
  null_cart : CartPointer
  freed_cart : CartPointer
  cart_at : Cartridge → CartPointer

-- `a x y p sp pc` are the fields of NES_REGISTERS; the others are globals without their `nes_`.
pub record Machine : Type 0 where
  pub a : ℕ
  pub x : ℕ
  pub y : ℕ
  pub p : ℕ
  pub sp : ℕ
  pub pc : ℕ
  pub temp : ℕ
  pub fetched : ℕ
  pub addr_abs : ℕ
  pub addr_rel : ℕ
  pub opcode : ℕ
  pub cycles : ℕ
  pub stack_base : ℕ
  pub cpu_ram : ℕ → ℕ
  pub loaded_cart : CartPointer

-- A C function over these globals. `none` is a fault: a call or a read through a bad pointer, or
-- past the end of a block.
abbrev pub Action : Type 0 → Type 0
Action A = Machine → Option (A × Machine)

unfoldable pub pure : {A : Type 0} → A → Action A
pure r m = some (r, m)

unfoldable pub fault : {A : Type 0} → Action A
fault m = none

unfoldable pub get : Action Machine
get m = some (m, m)

unfoldable pub modify : (Machine → Machine) → Action (Unit {0})
modify f m = some (tt, f m)

infixl 5 ◌>>=◌ ◌>>◌
-- Opening the bind opens the other ways to build an action.
unfoldable pub ◌>>=◌ : {A B : Type 0} → Action A → (A → Action B) → Action B
unfolding pure fault get modify
◌>>=◌ first next m = elim (first m) [ none ↦ none | some (r, m') ↦ next r m' ]

abbrev pub ◌>>◌ : {B : Type 0} → Action (Unit {0}) → Action B → Action B
first >> next = first >>= λ _. next

-- Assignments, with the truncation of their types.
unfoldable pub set_a : ℕ → Action (Unit {0})
unfolding modify
set_a v = modify λ m. record m { a = u8 v }

unfoldable pub set_x : ℕ → Action (Unit {0})
unfolding modify
set_x v = modify λ m. record m { x = u8 v }

unfoldable pub set_y : ℕ → Action (Unit {0})
unfolding modify
set_y v = modify λ m. record m { y = u8 v }

unfoldable pub set_p : ℕ → Action (Unit {0})
unfolding modify
set_p v = modify λ m. record m { p = u8 v }

unfoldable pub set_sp : ℕ → Action (Unit {0})
unfolding modify
set_sp v = modify λ m. record m { sp = u8 v }

unfoldable pub set_pc : ℕ → Action (Unit {0})
unfolding modify
set_pc v = modify λ m. record m { pc = u16 v }

unfoldable pub set_fetched : ℕ → Action (Unit {0})
unfolding modify
set_fetched v = modify λ m. record m { fetched = u8 v }

unfoldable pub set_addr_abs : ℕ → Action (Unit {0})
unfolding modify
set_addr_abs v = modify λ m. record m { addr_abs = u16 v }

unfoldable pub set_addr_rel : ℕ → Action (Unit {0})
unfolding modify
set_addr_rel v = modify λ m. record m { addr_rel = u16 v }

unfoldable pub set_opcode : ℕ → Action (Unit {0})
unfolding modify
set_opcode v = modify λ m. record m { opcode = u8 v }

unfoldable pub set_cycles : ℕ → Action (Unit {0})
unfolding modify
set_cycles v = modify λ m. record m { cycles = u8 v }
