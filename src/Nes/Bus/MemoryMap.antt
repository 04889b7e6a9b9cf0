-- ===== src/Nes/Bus/MemoryMap.antt =====
-- The memory map as the CPU sees it, and that the bus functions implement it.
use mnes_hrel.Common.{
  ℕ, ◌-◌, ◌%◌, ap, ◌<◌, ◌≡◌, Bool, some, arith, ltb, leb, if◌then◌else◌, u8, u16, update,
}
use mnes_hrel.Common.Bits.{bit_and-ones}
use mnes_hrel.Nes.Machine.{Cartridge, CartPointer, cart_at, Machine}
use mnes_hrel.Nes.Bus.{nes_mapper_zero_read, mapper_read, mapper_write, nes_cpu_read, nes_cpu_write}
use mnes_hrel.Nes.Safety.Ready.{IsPlayable}

-- The byte at a 16-bit address: 2 KB of RAM four times over, PPU and I/O ports and cartridge RAM
-- that read as 0, and one 16 KB bank twice over. With more banks mapper 0 answers 0.
unfoldable pub byte_at : Cartridge → (ℕ → ℕ) → ℕ → ℕ
byte_at c ram addr =
    if ltb addr 0x2000
    then ram (addr % 0x800)
    else if ltb addr 0x8000
    then 0
    else if leb c.prg_banks 1
    then c.prg_mem (addr % 0x4000)
    else 0

-- RAM after a write at a 16-bit address.
unfoldable pub ram_after : (ℕ → ℕ) → ℕ → ℕ → ℕ → ℕ
ram_after ram addr v = if ltb addr 0x2000 then update ram (addr % 0x800) v else ram

module _ {c : Cartridge} (play : IsPlayable c) where
  nes_mapper_zero_read-byte_at :
      (ram : ℕ → ℕ) (m : Machine) (addr : ℕ)
      → 0x4000 - 1 < addr
      → addr < 65536
      → nes_mapper_zero_read c addr m ≡ some (byte_at c ram addr, m)
  unfolding nes_mapper_zero_read byte_at
  nes_mapper_zero_read-byte_at ram m addr low high = ground (arith, play.bank)

  mapper_read-byte_at :
      (m : Machine) (addr : ℕ)
      → 0x4000 - 1 < addr
      → addr < 65536
      → mapper_read (cart_at c) addr m ≡ some (byte_at c m.cpu_ram addr, m)
  unfolding mapper_read
  mapper_read-byte_at m addr low high =
      simp (play.mapper) (nes_mapper_zero_read-byte_at m.cpu_ram m addr low high)

  mapper_write-returns :
      (m : Machine) (addr v : ℕ) → mapper_write (cart_at c) addr v m ≡ some (tt, m)
  unfolding mapper_write
  mapper_write-returns m addr v = simp (play.mapper)

  -- With a playable cartridge loaded, a read through the bus gives the byte of the map at the
  -- address, modulo 2^16, and changes nothing.
  pub nes_cpu_read-byte_at :
      (m : Machine) (read_only : Bool) (a : ℕ)
      → m.loaded_cart ≡ cart_at c
      → nes_cpu_read a read_only m ≡ some (byte_at c m.cpu_ram (u16 a), m)
  unfolding nes_cpu_read byte_at
  nes_cpu_read-byte_at m read_only a cart = ground (
    arith,
    bit_and-ones 11 (a % 65536),
    ap (λ (p : CartPointer). mapper_read p (a % 65536) m) cart,
    mapper_read-byte_at m (a % 65536),
  )

  -- With a playable cartridge loaded, a write through the bus changes RAM as the map says, and
  -- nothing else.
  pub nes_cpu_write-ram_after :
      (m : Machine) (a v : ℕ)
      → m.loaded_cart ≡ cart_at c
      → nes_cpu_write a v m ≡ some (tt, record m { cpu_ram = ram_after m.cpu_ram (u16 a) (u8 v) })
  unfolding nes_cpu_write ram_after
  nes_cpu_write-ram_after m a v cart = ground (
    arith,
    bit_and-ones 11 (a % 65536),
    ap (λ (p : CartPointer). mapper_write p (a % 65536) (v % 256) m) cart,
    mapper_write-returns m (a % 65536) (v % 256),
  )

-- Below 0x2000 no cartridge is asked.
pub nes_cpu_write_ram :
    (m : Machine) (a v : ℕ)
    → a < 0x2000
    → nes_cpu_write a v m ≡ some (tt, record m { cpu_ram = update m.cpu_ram (a % 0x800) (u8 v) })
unfolding nes_cpu_write
nes_cpu_write_ram m a v h = ground (arith, bit_and-ones 11 (a % 65536), bit_and-ones 11 a)

pub nes_cpu_read_ram :
    (m : Machine) (read_only : Bool) (a : ℕ)
    → a < 0x2000
    → nes_cpu_read a read_only m ≡ some (m.cpu_ram (a % 0x800), m)
unfolding nes_cpu_read
nes_cpu_read_ram m read_only a h = ground (arith, bit_and-ones 11 (a % 65536), bit_and-ones 11 a)
