-- ===== src/Nes/Disassembler/Steps.antt =====
-- `nes_dissasemble_display` of kernel/src/nes6502.c steps over instructions as the processor does.
use mnes_hrel.Common.{
  ℕ, zero, suc, ◌+◌, ◌*◌, ◌≡◌, refl, ap, ◌∙◌, true, false, Bool, Option, none, some, arith, u16,
}
use mnes_hrel.Common.Bits.{bit_or-word}
use mnes_hrel.Nes.Machine.{
  Machine, Cartridge, cart_at, Action, pure, get, ◌>>=◌, set_pc, set_fetched, set_addr_abs,
  set_addr_rel,
}
use mnes_hrel.Nes.Bus.{nes_cpu_read}
use mnes_hrel.Nes.Bus.MemoryMap.{byte_at, nes_cpu_read-byte_at}
use mnes_hrel.Nes.Instruction.{Mode, imp, imm, zp0, zpx, zpy, rel, abs, abx, aby, ind, izx, izy}
use mnes_hrel.Nes.AddrMode.{
  next_byte, operand_word, indexed_zero_page, indexed_absolute, nes_imp, nes_imm, nes_zp0, nes_zpx,
  nes_zpy, nes_rel, nes_abs, nes_abx, nes_aby, nes_ind, nes_izx, nes_izy, run_mode,
}
use mnes_hrel.Nes.Keeps.{Returns, Returns-bind, bind-some}
use mnes_hrel.Nes.Safety.Ready.{IsBytes, IsPlayable}
use mnes_hrel.Nes.Safety.Bus.{byte_at-lt}
use mnes_hrel.Nes.Disassembler.{one_byte, two_bytes, read_operand}

-- How many bytes the operand of a mode has.
abbrev pub operand_size : Mode → ℕ
operand_size imp = 0
operand_size imm = 1
operand_size zp0 = 1
operand_size zpx = 1
operand_size zpy = 1
operand_size rel = 1
operand_size abs = 2
operand_size abx = 2
operand_size aby = 2
operand_size ind = 2
operand_size izx = 1
operand_size izy = 1

-- An address after `n` steps of a `uint16_t`.
abbrev walked : ℕ → ℕ → ℕ
walked zero k = k
walked (suc n) k = walked n (u16 (k + 1))

-- The little-endian number in `n` bytes of the map, of which there are none, one or two.
abbrev pub operand_at : Cartridge → (ℕ → ℕ) → ℕ → ℕ → Option ℕ
operand_at c ram a zero = none
operand_at c ram a (suc zero) = some (byte_at c ram (u16 a))
operand_at c ram a (suc (suc n)) = some (byte_at c ram (u16 (a + 1)) * 256 + byte_at c ram (u16 a))

-- A machine with the cartridge `c` and PC at `k`.
record At (c : Cartridge) (k : ℕ) (m : Machine) : Type 0 where
  cart : m.loaded_cart ≡ cart_at c
  pc : m.pc ≡ k

-- The action comes back, and takes PC from `j` to `k`.
record Walks {A : Type 0} (c : Cartridge) (j k : ℕ) (action : Action A) : Type 0 where
  at : (m : Machine) → At c j m → Returns (λ _ m'. At c k m') (action m)

module _ {c : Cartridge} {j : ℕ} where
  pure-Walks : {A : Type 0} (r : A) → Walks c j j (pure r)
  unfolding pure
  pure-Walks r = record { at = λ m h. h }

  then-Walks :
      {A B : Type 0} {i k : ℕ} (first : Action A) (next : A → Action B)
      → Walks c j i first
      → ((r : A) → Walks c i k (next r))
      → Walks c j k (first >>= next)
  then-Walks {i} first next h step = record {
    at = λ m a.
        Returns-bind {Q = λ _ m'. At c i m'} (λ _ m'. At c _ m') first next m (h.at m a)
          (λ r m' b. (step r).at m' b);
  }

  get-Walks :
      {B : Type 0} {k : ℕ} (next : Machine → Action B)
      → ((m : Machine) → m.pc ≡ j → Walks c j k (next m))
      → Walks c j k (get >>= next)
  unfolding get ◌>>=◌
  get-Walks next step = record { at = λ m a. (step m a.pc).at m a }

  set_fetched-Walks : (v : ℕ) → Walks c j j (set_fetched v)
  unfolding set_fetched
  set_fetched-Walks v = record { at = λ m h. record { cart = h.cart; pc = h.pc } }

  set_addr_abs-Walks : (v : ℕ) → Walks c j j (set_addr_abs v)
  unfolding set_addr_abs
  set_addr_abs-Walks v = record { at = λ m h. record { cart = h.cart; pc = h.pc } }

  set_addr_rel-Walks : (v : ℕ) → Walks c j j (set_addr_rel v)
  unfolding set_addr_rel
  set_addr_rel-Walks v = record { at = λ m h. record { cart = h.cart; pc = h.pc } }

  step-Walks : (p : ℕ) → p ≡ j → Walks c j (u16 (j + 1)) (set_pc (p + 1))
  unfolding set_pc
  step-Walks p e = record {
    at = λ m h. record { cart = h.cart; pc = ap (λ (q : ℕ). u16 (q + 1)) e };
  }

module _ {c : Cartridge} (play : IsPlayable c) {j : ℕ} where
  read-Walks : (a : ℕ) (ro : Bool) → Walks c j j (nes_cpu_read a ro)
  read-Walks a ro = record { at = λ m h. rw (nes_cpu_read-byte_at play m ro a h.cart) h }

  next_byte-Walks : Walks c j (u16 (j + 1)) next_byte
  unfolding next_byte
  next_byte-Walks = get-Walks _ λ m e.
      then-Walks _ _ (read-Walks m.pc false)
        λ v. then-Walks _ _ (step-Walks m.pc e) λ _. pure-Walks v

module _ {c : Cartridge} (play : IsPlayable c) {j : ℕ} where
  operand_word-Walks : Walks c j (u16 (u16 (j + 1) + 1)) operand_word
  unfolding operand_word
  operand_word-Walks =
      then-Walks _ _ (next_byte-Walks play)
        λ lo. then-Walks _ _ (next_byte-Walks play) λ hi. pure-Walks (lo, hi)

  indexed_zero_page-Walks : (x : ℕ) → Walks c j (u16 (j + 1)) (indexed_zero_page x)
  unfolding indexed_zero_page
  indexed_zero_page-Walks x = get-Walks _ λ m e.
      then-Walks _ _ (read-Walks play (m.pc + x) false) λ v.
        then-Walks _ _ (step-Walks m.pc e)
          λ _. then-Walks _ _ (set_addr_abs-Walks _) λ _. pure-Walks 0

  indexed_absolute-Walks : (x : ℕ) → Walks c j (u16 (u16 (j + 1) + 1)) (indexed_absolute x)
  unfolding indexed_absolute
  indexed_absolute-Walks x =
      then-Walks _ _ operand_word-Walks
        λ (lo, hi). then-Walks _ _ (set_addr_abs-Walks _) λ _. get-Walks _ λ m e. pure-Walks _

  run_mode-Walks : (mode : Mode) → Walks c j (walked (operand_size mode) j) (run_mode mode)
  unfolding run_mode nes_imp nes_imm nes_zp0 nes_zpx nes_zpy nes_rel nes_abs nes_abx nes_aby nes_ind
      nes_izx nes_izy
  run_mode-Walks imp = get-Walks _ λ m e. then-Walks _ _ (set_fetched-Walks m.a) λ _. pure-Walks 0
  run_mode-Walks imm = get-Walks _ λ m e.
      then-Walks _ _ (set_addr_abs-Walks m.pc)
        λ _. then-Walks _ _ (step-Walks m.pc e) λ _. pure-Walks 0
  run_mode-Walks zp0 =
      then-Walks _ _ (next_byte-Walks play)
        λ v. then-Walks _ _ (set_addr_abs-Walks _) λ _. pure-Walks 0
  run_mode-Walks zpx = get-Walks _ λ m e. indexed_zero_page-Walks m.x
  run_mode-Walks zpy = get-Walks _ λ m e. indexed_zero_page-Walks m.y
  run_mode-Walks rel =
      then-Walks _ _ (next_byte-Walks play)
        λ v. then-Walks _ _ (set_addr_rel-Walks _) λ _. pure-Walks 0
  run_mode-Walks abs =
      then-Walks _ _ operand_word-Walks
        λ (lo, hi). then-Walks _ _ (set_addr_abs-Walks _) λ _. pure-Walks 0
  run_mode-Walks abx = get-Walks _ λ m e. indexed_absolute-Walks m.x
  run_mode-Walks aby = get-Walks _ λ m e. indexed_absolute-Walks m.y
  run_mode-Walks ind = then-Walks _ _ operand_word-Walks λ (lo, hi).
      then-Walks _ _ (read-Walks play _ false) λ hi'.
        then-Walks _ _ (read-Walks play _ false)
          λ lo'. then-Walks _ _ (set_addr_abs-Walks _) λ _. pure-Walks 0
  run_mode-Walks izx = then-Walks _ _ (next_byte-Walks play) λ val. get-Walks _ λ m e.
      then-Walks _ _ (read-Walks play _ false) λ lo.
        then-Walks _ _ (read-Walks play _ false)
          λ hi. then-Walks _ _ (set_addr_abs-Walks _) λ _. pure-Walks 0
  run_mode-Walks izy = then-Walks _ _ (next_byte-Walks play) λ val.
      then-Walks _ _ (read-Walks play _ false) λ lo. then-Walks _ _ (read-Walks play _ false) λ hi.
        get-Walks _
          λ m e. then-Walks _ _ (set_addr_abs-Walks _) λ _. get-Walks _ λ m' e'. pure-Walks _

module _ {c : Cartridge} (play : IsPlayable c) (m : Machine) (cart : m.loaded_cart ≡ cart_at c)
    (ram : IsBytes m.cpu_ram) (a : ℕ) where
  one_byte_lem : one_byte a m ≡ some ((operand_at c m.cpu_ram a 1, u16 (a + 1)), m)
  unfolding one_byte
  one_byte_lem = bind-some (nes_cpu_read a true) _ m (nes_cpu_read-byte_at play m true a cart)

  two_bytes_lem : two_bytes a m ≡ some ((operand_at c m.cpu_ram a 2, u16 (u16 (a + 1) + 1)), m)
  unfolding two_bytes pure
  two_bytes_lem =
      let once : u16 (u16 (a + 1)) ≡ u16 (a + 1) = omega arith in
      bind-some (nes_cpu_read a true) _ m (nes_cpu_read-byte_at play m true a cart)
      ∙ bind-some (nes_cpu_read (u16 (a + 1)) true) _ m
          (nes_cpu_read-byte_at play m true (u16 (a + 1)) cart)
      ∙ ap (λ (v : ℕ). some ((some v, u16 (u16 (a + 1) + 1)), m))
          (rw once (bit_or-word _ _ (byte_at-lt play m.cpu_ram (u16 a) ram)))

  read_operand_lem :
      (mode : Mode)
      → read_operand mode a m
        ≡ some ((operand_at c m.cpu_ram a (operand_size mode), walked (operand_size mode) a), m)
  unfolding read_operand pure
  read_operand_lem imp = refl
  read_operand_lem imm = one_byte_lem
  read_operand_lem zp0 = one_byte_lem
  read_operand_lem zpx = one_byte_lem
  read_operand_lem zpy = one_byte_lem
  read_operand_lem rel = one_byte_lem
  read_operand_lem abs = two_bytes_lem
  read_operand_lem abx = two_bytes_lem
  read_operand_lem aby = two_bytes_lem
  read_operand_lem ind = two_bytes_lem
  read_operand_lem izx = one_byte_lem
  read_operand_lem izy = one_byte_lem

Returns-map :
    {A : Type 0} {Q R : A → Machine → Type 0} (o : Option (A × Machine))
    → ((r : A) (m : Machine) → Q r m → R r m)
    → Returns Q o
    → Returns R o
Returns-map none f h = h
Returns-map (some (r, m)) f h = f r m h

-- On a machine with a playable cartridge and bytes in RAM, the disassembler reads, for each addressing
-- mode, the little-endian operand at PC, if the mode has one, and changes nothing; the address that it
-- goes on from is the one where the addressing mode takes PC.
pub read_operand-run_mode :
    {c : Cartridge}
    → IsPlayable c
    → (m : Machine) → m.loaded_cart ≡ cart_at c
    → IsBytes m.cpu_ram
    → (mode : Mode)
    → Returns
        (λ r after.
          (after ≡ m)
          × (r.0 ≡ operand_at c m.cpu_ram m.pc (operand_size mode))
          × Returns (λ _ m'. m'.pc ≡ r.1) (run_mode mode m))
        (read_operand mode m.pc m)
read_operand-run_mode {c} play m cart ram mode = rw (read_operand_lem play m cart ram m.pc mode) (
  refl,
  refl,
  Returns-map {Q = λ _ m'. At c (walked (operand_size mode) m.pc) m'} (run_mode mode m)
      (λ _ _ h. h.pc) ((run_mode-Walks play mode).at m (record { cart = cart; pc = refl })),
)
