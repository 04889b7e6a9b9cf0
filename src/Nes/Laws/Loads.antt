-- ===== src/Nes/Laws/Loads.antt =====
-- LDA, LDX, LDY: the register is the operand, and the flags come from `nes_setflag`.
use mnes_hrel.Common.{ℕ, ◌<◌, ◌≡◌, ap, ◌∙◌, some, arith, get_elem?, u8}
use mnes_hrel.Nes.Machine.{Cartridge, Machine, pure, get, ◌>>=◌, set_a, set_x, set_y}
use mnes_hrel.Nes.Instruction.{Instruction, nes_instructions}
use mnes_hrel.Nes.AddrMode.{nes_fetch}
use mnes_hrel.Nes.Ops.Arith.{set_zn}
use mnes_hrel.Nes.Ops.Transfer.{nes_lda, nes_ldx, nes_ldy}
use mnes_hrel.Nes.Keeps.{bind-some}
use mnes_hrel.Nes.Safety.Ready.{IsPlayable, IsReady}
use mnes_hrel.Nes.Laws.Fetch.{operand, operand-lt, status_zn, nes_fetch_lem, set_zn_then}

-- What follows the fetch of a byte `v`.
module _ (v : ℕ) (m : Machine) (byte : v < 256) where
  abbrev fetched : Machine
  fetched = record m { fetched = v }

  truncated : u8 v ≡ v
  truncated = omega arith

  into_a :
      (get >>= λ n. set_a n.fetched >>= λ _. get >>= λ n'. set_zn n'.a n'.a >>= λ _. pure {A = ℕ} 1)
        fetched
      ≡ some (1, record m { fetched = v; a = v; p = status_zn v m.p })
  unfolding set_a ◌>>=◌
  into_a =
      ap (λ (w : ℕ). (set_zn w w >>= λ _. pure {A = ℕ} 1) (record m { fetched = v; a = w }))
        truncated
      ∙ set_zn_then v 1 (record m { fetched = v; a = v })

  into_x :
      (get >>= λ n. set_x n.fetched >>= λ _. get >>= λ n'. set_zn n'.x n'.x >>= λ _. pure {A = ℕ} 1)
        fetched
      ≡ some (1, record m { fetched = v; x = v; p = status_zn v m.p })
  unfolding set_x ◌>>=◌
  into_x =
      ap (λ (w : ℕ). (set_zn w w >>= λ _. pure {A = ℕ} 1) (record m { fetched = v; x = w }))
        truncated
      ∙ set_zn_then v 1 (record m { fetched = v; x = v })

  into_y :
      (get >>= λ n. set_y n.fetched >>= λ _. get >>= λ n'. set_zn n'.y n'.y >>= λ _. pure {A = ℕ} 1)
        fetched
      ≡ some (1, record m { fetched = v; y = v; p = status_zn v m.p })
  unfolding set_y ◌>>=◌
  into_y =
      ap (λ (w : ℕ). (set_zn w w >>= λ _. pure {A = ℕ} 1) (record m { fetched = v; y = w }))
        truncated
      ∙ set_zn_then v 1 (record m { fetched = v; y = v })

module _ {c : Cartridge} (play : IsPlayable c) (i : Instruction) (m : Machine) (h : IsReady c m)
    (at : get_elem? nes_instructions m.opcode ≡ some i) where
  abbrev v : ℕ
  v = operand c i m

  byte : v < 256
  byte = operand-lt play i m h at

  -- LDA, LDX and LDY, on a ready machine whose cartridge is playable and whose opcode is that of
  -- instruction `i`, copy the operand into the register, write the status of that value, and
  -- report that they may take one more cycle.
  pub loads-operand :
      (nes_lda m ≡ some (1, record m { fetched = v; a = v; p = status_zn v m.p }))
      × (nes_ldx m ≡ some (1, record m { fetched = v; x = v; p = status_zn v m.p }))
      × (nes_ldy m ≡ some (1, record m { fetched = v; y = v; p = status_zn v m.p }))
  unfolding nes_lda nes_ldx nes_ldy
  loads-operand = (
    bind-some nes_fetch _ m (nes_fetch_lem play i m h at) ∙ into_a v m byte,
    bind-some nes_fetch _ m (nes_fetch_lem play i m h at) ∙ into_x v m byte,
    bind-some nes_fetch _ m (nes_fetch_lem play i m h at) ∙ into_y v m byte,
  )
