-- ===== src/Nes/Bus.antt =====
-- kernel/src/nesbus.c, nes_mapper.c and the CPU side of nesppu.c: who answers at an address.
pub mod MemoryMap
use mnes_hrel.Common.{
  ℕ, ◌-◌, Bool, ◌&&◌, none, some, bit_and, leb, ltb, if◌then◌else◌, u8, u16, update,
}
use mnes_hrel.Nes.Machine.{
  mapper_zero, Cartridge, null_cart, freed_cart, cart_at, CartPointer, Action, pure, fault, get,
  modify, ◌>>=◌,
}

-- Every case of the register switch leaves `data` at 0.
unfoldable pub nes_cpu_ppu_read : ℕ → Bool → Action ℕ
unfolding pure
nes_cpu_ppu_read addr readonly = pure 0

-- Every case of the register switch is empty.
unfoldable pub nes_cpu_ppu_write : ℕ → ℕ → Action (Unit {0})
unfolding pure
nes_cpu_ppu_write addr data' = pure tt

-- `prg_mem[i]`.
unfoldable pub prg_byte : Cartridge → ℕ → Action ℕ
unfolding pure fault
prg_byte c i = if ltb i c.prg_size then pure (c.prg_mem i) else fault

unfoldable pub nes_mapper_zero_read : Cartridge → ℕ → Action ℕ
unfolding prg_byte
nes_mapper_zero_read c addr =
    if leb c.prg_banks 1
    then (if leb 0x8000 addr && leb addr 0xBFFF
        then prg_byte c (addr - 0x8000)
        else if leb 0xC000 addr && leb addr 0xFFFF
        then prg_byte c (addr - 0xC000)
        else pure 0)
    else pure 0

unfoldable pub nes_mapper_zero_write : ℕ → ℕ → Action (Unit {0})
unfolding pure
nes_mapper_zero_write addr data' = pure tt

-- `nes_loaded_cart->mapper->read(addr)`.
unfoldable pub mapper_read : CartPointer → ℕ → Action ℕ
unfolding nes_mapper_zero_read
mapper_read null_cart addr = fault
mapper_read freed_cart addr = fault
mapper_read (cart_at c) addr = elim c.mapper [
  | none ↦ fault
  | some mapper_zero ↦ nes_mapper_zero_read c addr
]

-- `nes_loaded_cart->mapper->write(addr, data)`.
unfoldable pub mapper_write : CartPointer → ℕ → ℕ → Action (Unit {0})
unfolding nes_mapper_zero_write fault
mapper_write null_cart addr data' = fault
mapper_write freed_cart addr data' = fault
mapper_write (cart_at c) addr data' = elim c.mapper [
  | none ↦ fault
  | some mapper_zero ↦ nes_mapper_zero_write addr data'
]

-- The parameters are a `uint16_t` and a `uint8_t`: the call truncates.
unfoldable pub nes_cpu_write : ℕ → ℕ → Action (Unit {0})
unfolding nes_cpu_ppu_write mapper_write modify get ◌>>=◌
nes_cpu_write address value =
    let addr = u16 address in
    let data' = u8 value in
    if leb addr 0x1FFF
    then modify (λ m. record m { cpu_ram = update m.cpu_ram (bit_and addr 0x07FF) data' })
    else if leb 0x2000 addr && leb addr 0x3FFF
    then nes_cpu_ppu_write (bit_and addr 0x0007) data'
    else do m ← get; mapper_write m.loaded_cart addr data'

unfoldable pub nes_cpu_read : ℕ → Bool → Action ℕ
unfolding nes_cpu_ppu_read mapper_read get ◌>>=◌
nes_cpu_read address read_only =
    let addr = u16 address in
    if leb addr 0x1FFF
    then (do m ← get; pure (m.cpu_ram (bit_and addr 0x07FF)))
    else if leb 0x2000 addr && leb addr 0x3FFF
    then nes_cpu_ppu_read (bit_and addr 0x0007) read_only
    else do m ← get; mapper_read m.loaded_cart addr
