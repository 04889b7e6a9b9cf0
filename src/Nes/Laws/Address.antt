-- ===== src/Nes/Laws/Address.antt =====
-- Effective addresses: what the absolute modes compute, and when they report a page crossing.
use mnes_hrel.Common.{
  ℕ, Option, ◌+◌, ◌-◌, ◌*◌, ◌/◌, ◌%◌, ◌<◌, ◌≡◌, refl, ap, ◌∙◌, Bool, true, false, some, arith, bit,
  bit_and, bit_or, ltb, leb, ◌==◌, nonzero, if◌then◌else◌, u16,
}
use mnes_hrel.Common.Bits.{bit_and-high_byte, bit_or-word, all_below, byte_table}
use mnes_hrel.Nes.Machine.{
  Cartridge, Machine, ◌>>=◌, set_pc, set_addr_abs, set_addr_rel, set_cycles,
}
use mnes_hrel.Nes.Bus.MemoryMap.{byte_at, nes_cpu_read-byte_at}
use mnes_hrel.Nes.AddrMode.{
  next_byte, operand_word, indexed_absolute, nes_abs, nes_abx, nes_aby, nes_rel,
}
use mnes_hrel.Nes.Ops.Branch.{take_branch, branch_if}
use mnes_hrel.Nes.Keeps.{bind-some}
use mnes_hrel.Nes.Safety.Ready.{IsPlayable, IsReady}
use mnes_hrel.Nes.Safety.Bus.{byte_at-lt}

-- The byte at PC, and the one behind it.
abbrev pub byte_0 : Cartridge → Machine → ℕ
byte_0 c m = byte_at c m.cpu_ram m.pc

abbrev pub byte_1 : Cartridge → Machine → ℕ
byte_1 c m = byte_at c m.cpu_ram (u16 (m.pc + 1))

module _ {c : Cartridge} (play : IsPlayable c) (m : Machine) (h : IsReady c m) where
  next_byte_lem : next_byte m ≡ some (byte_0 c m, record m { pc = u16 (m.pc + 1) })
  unfolding next_byte set_pc ◌>>=◌
  next_byte_lem = ground (arith, nes_cpu_read-byte_at play m false m.pc h.cart)

  byte_0-lt : byte_0 c m < 256
  byte_0-lt = byte_at-lt play m.cpu_ram m.pc h.ram

  byte_1-lt : byte_1 c m < 256
  byte_1-lt = byte_at-lt play m.cpu_ram (u16 (m.pc + 1)) h.ram

stepped : {c : Cartridge} {m : Machine} → IsReady c m → IsReady c (record m { pc = u16 (m.pc + 1) })
stepped h = ground arith

module _ {c : Cartridge} (play : IsPlayable c) (m : Machine) (h : IsReady c m) where
  operand_word_lem :
      operand_word m ≡ some ((byte_0 c m, byte_1 c m), record m { pc = u16 (u16 (m.pc + 1) + 1) })
  unfolding operand_word ◌>>=◌
  operand_word_lem =
      bind-some next_byte _ m (next_byte_lem play m h)
      ∙ bind-some next_byte _ (record m { pc = u16 (m.pc + 1) })
          (next_byte_lem play (record m { pc = u16 (m.pc + 1) }) (stepped h))

  -- The little-endian word behind the opcode.
  abbrev pub word : ℕ
  word = byte_1 c m * 256 + byte_0 c m

  -- Absolute mode, on a ready machine with a playable cartridge, leaves the little-endian word
  -- behind the opcode in the effective address, steps PC past it, and asks for no extra cycle.
  pub nes_abs-word : nes_abs m ≡ some (0, record m { pc = u16 (m.pc + 2); addr_abs = word })
  unfolding nes_abs set_addr_abs ◌>>=◌
  nes_abs-word =
      bind-some operand_word _ m operand_word_lem
      ∙ ground (
        arith,
        bit_or-word (byte_1 c m) (byte_0 c m) (byte_0-lt play m h),
        byte_0-lt play m h,
        byte_1-lt play m h,
      )

  indexed_absolute_lem :
      (index : ℕ)
      → index < 256
      → indexed_absolute index m
        ≡ some (
          bit (leb 256 (byte_0 c m + index)),
          record m { pc = u16 (m.pc + 2); addr_abs = u16 (word + index) },
        )
  unfolding indexed_absolute set_addr_abs ◌>>=◌
  indexed_absolute_lem index small =
      bind-some operand_word _ m operand_word_lem
      ∙ ground (
        arith,
        bit_or-word (byte_1 c m) (byte_0 c m) (byte_0-lt play m h),
        bit_and-high_byte (u16 (word + index)),
        byte_0-lt play m h,
        byte_1-lt play m h,
      )

  -- The indexed absolute modes, on a ready machine with a playable cartridge, add X or Y to the
  -- word behind the opcode, modulo 2^16, step PC past it, and ask for an extra cycle exactly when
  -- the low byte carries into the page.
  pub indexed-word :
      (nes_abx m
        ≡ some (
          bit (leb 256 (byte_0 c m + m.x)),
          record m { pc = u16 (m.pc + 2); addr_abs = u16 (word + m.x) },
        ))
      × (nes_aby m
          ≡ some (
            bit (leb 256 (byte_0 c m + m.y)),
            record m { pc = u16 (m.pc + 2); addr_abs = u16 (word + m.y) },
          ))
  unfolding nes_abx nes_aby ◌>>=◌
  indexed-word = (indexed_absolute_lem m.x h.x, indexed_absolute_lem m.y h.y)

abbrev rel_code : ℕ → ℕ
rel_code v = if nonzero (bit_and v 0x80) then bit_or v 0xFF00 else v

abbrev rel_meaning : ℕ → ℕ
rel_meaning v = if ltb v 128 then v else v + 0xFF00

rel_table : all_below 256 (λ v. rel_code v == rel_meaning v) ≡ true
unfolding all_below
rel_table = refl

-- Where a branch goes from the address behind it: `v` is a signed byte.
abbrev pub branch_target : ℕ → ℕ → ℕ
branch_target pc v = if ltb v 128 then (pc + v) % 65536 else (pc + 65536 - (256 - v)) % 65536

target_eq : (pc v : ℕ) → pc < 65536 → v < 256 → u16 (pc + rel_meaning v) ≡ branch_target pc v
target_eq pc v p q = ground arith

-- The cycles that a branch adds: one if taken, and one more if it leaves the page.
abbrev pub branch_cost : ℕ → ℕ → ℕ
branch_cost pc target = if pc / 256 == target / 256 then 1 else 2

take_branch_lem :
    (m : Machine)
    → m.cycles + 2 < 256
    → m.pc < 65536
    → let target : ℕ = u16 (m.pc + m.addr_rel) in
      take_branch m
      ≡ some (
        tt,
        record m { pc = target; addr_abs = target; cycles = m.cycles + branch_cost m.pc target },
      )
unfolding take_branch set_cycles set_addr_abs set_pc ◌>>=◌
take_branch_lem m room small =
    ground (arith, bit_and-high_byte m.pc, bit_and-high_byte (u16 (m.pc + m.addr_rel)))

module _ {c : Cartridge} (play : IsPlayable c) (m : Machine) (h : IsReady c m) where
  abbrev rel_value : ℕ
  rel_value = rel_meaning (byte_0 c m)

  nes_rel_lem : nes_rel m ≡ some (0, record m { pc = u16 (m.pc + 1); addr_rel = rel_value })
  unfolding nes_rel set_addr_rel ◌>>=◌
  nes_rel_lem =
      bind-some next_byte _ m (next_byte_lem play m h)
      ∙ ground (
        arith,
        byte_table rel_code rel_meaning (byte_0 c m) rel_table (byte_0-lt play m h),
        byte_0-lt play m h,
      )

  -- A branch on a ready machine, after its relative operand was fetched: untaken it only steps PC
  -- past the operand; taken it adds the signed operand to that PC, modulo 2^16, and adds one cycle, or
  -- two if the target is in another page, provided the cycle counter has room.
  pub branch-signed :
      (b : Bool)
      → m.cycles + 2 < 256
      → (nes_rel >>= λ _. branch_if b) m ≡ (
          if b
          then some (
            0,
            record m {
              pc = branch_target (u16 (m.pc + 1)) (byte_0 c m);
              addr_abs = branch_target (u16 (m.pc + 1)) (byte_0 c m);
              addr_rel = rel_value;
              cycles =
                  m.cycles
                  + branch_cost (u16 (m.pc + 1)) (branch_target (u16 (m.pc + 1)) (byte_0 c m));
            },
          )
          else some (0, record m { pc = u16 (m.pc + 1); addr_rel = rel_value }))
  unfolding branch_if ◌>>=◌
  branch-signed false room = bind-some nes_rel (λ _. branch_if false) m nes_rel_lem
  branch-signed true room =
      bind-some nes_rel (λ _. branch_if true) m nes_rel_lem
      ∙ bind-some take_branch _ (record m { pc = u16 (m.pc + 1); addr_rel = rel_value })
          (take_branch_lem (record m { pc = u16 (m.pc + 1); addr_rel = rel_value }) room
            (omega arith))
      ∙ ap landed (target_eq (u16 (m.pc + 1)) (byte_0 c m) (omega arith) (byte_0-lt play m h))
    where
      landed : ℕ → Option (ℕ × Machine)
      landed t = some (
        0,
        record m {
          pc = t;
          addr_abs = t;
          addr_rel = rel_value;
          cycles = m.cycles + branch_cost (u16 (m.pc + 1)) t;
        },
      )
