-- ===== src/Nes/Tests/Sample.antt =====
-- A cartridge of one bank with a short program, and a machine that is about to run it.
use mnes_hrel.Common.{ℕ, ◌<◌, refl, some, arith, ◌==◌, if◌then◌else◌}
use mnes_hrel.Nes.Machine.{mapper_zero, Cartridge, cart_at, Machine}
use mnes_hrel.Nes.Safety.Ready.{IsBytes, IsPlayable, IsReady}

-- LDA #$42; STA $10; JSR $8010; at $8010 RTS. The reset vector is $8000.
abbrev pub program : ℕ → ℕ
program i =
    if i == 0
    then 0xA9
    else if i == 1
    then 0x42
    else if i == 2
    then 0x85
    else if i == 3
    then 0x10
    else if i == 4
    then 0x20
    else if i == 5
    then 0x10
    else if i == 6
    then 0x80
    else if i == 0x10
    then 0x60
    else if i == 0x3FFD
    then 0x80
    else 0

abbrev pub sample_cart : Cartridge
sample_cart = record {
  prg_mem = program;
  prg_size = 0x4000;
  chr_mem = λ _. 0;
  chr_size = 0x2000;
  mapper_id = 0;
  prg_banks = 1;
  chr_banks = 1;
  mapper = some mapper_zero;
}

abbrev pub sample : Machine
sample = record {
  a = 7;
  x = 1;
  y = 2;
  p = 0x20;
  sp = 0xFD;
  pc = 0x8000;
  temp = 256;
  fetched = 0;
  addr_abs = 0;
  addr_rel = 0;
  opcode = 0;
  cycles = 0;
  stack_base = 0;
  cpu_ram = λ _. 0;
  loaded_cart = cart_at sample_cart;
}

pub program-IsBytes : IsBytes program
unfolding IsBytes
program-IsBytes i = ground arith

pub sample_cart-IsPlayable : IsPlayable sample_cart
sample_cart-IsPlayable = record { mapper = refl; bank = λ h. omega arith; prg = program-IsBytes }

pub zeros-IsBytes : IsBytes (λ _. 0)
unfolding IsBytes
zeros-IsBytes i = omega arith

pub sample-IsReady : IsReady sample_cart sample
sample-IsReady = record {
  cart = refl;
  ram = zeros-IsBytes;
  a = omega arith;
  x = omega arith;
  y = omega arith;
  p = omega arith;
  sp = omega arith;
  fetched = omega arith;
  opcode = omega arith;
  pc = omega arith;
  addr_abs = omega arith;
  addr_rel = omega arith;
  cycles = omega arith;
}

pub sample-IsReady_at :
    (pc opcode addr_abs : ℕ)
    → pc < 65536
    → opcode < 256
    → addr_abs < 65536
    → IsReady sample_cart (record sample { pc = pc; opcode = opcode; addr_abs = addr_abs })
sample-IsReady_at pc opcode addr_abs p q r =
    let h : IsReady sample_cart sample = sample-IsReady in ground arith
