-- ===== src/Nes/Safety/Ops.antt =====
-- On a ready machine each operation returns 0 or 1, keeps the machine ready, and lengthens the
-- instruction by at most two cycles: the branches do, the others leave the cycles alone.
use mnes_hrel.Common.{ℕ, ◌+◌, ◌≤◌, ◌<◌, Bool, Option, none, some, not, arith, if◌then◌else◌}
use mnes_hrel.Nes.Machine.{Cartridge, Machine, Action, ◌>>=◌, set_cycles, set_addr_abs, set_pc}
use mnes_hrel.Nes.Registers.{nes_getflag, flag_of, flag_c, flag_z, flag_v, flag_n}
use mnes_hrel.Nes.Instruction.{
  Op, adc, and, asl, bcc, bcs, beq, bit, bmi, bne, bpl, brk, bvc, bvs, clc, cld, cli, clv, cmp, cpx,
  cpy, dec, dex, dey, eor, inc, inx, iny, jmp, jsr, lda, ldx, ldy, lsr, nop, ora, pha, php, pla,
  plp, rol, ror, rti, rts, sbc, sec, sed, sei, sta, stx, sty, tax, tay, tsx, txa, txs, tya, udf,
}
use mnes_hrel.Nes.Ops.{run_operation}
use mnes_hrel.Nes.Ops.Arith.{
  set_zn, nes_adc, nes_sbc, compare_with, nes_cmp, nes_cpx, nes_cpy, nes_dec, nes_inc, set_nz,
  nes_dex, nes_dey, nes_inx, nes_iny,
}
use mnes_hrel.Nes.Ops.Logic.{
  nes_and, nes_ora, nes_eor, nes_bit, store_shifted, nes_asl, nes_lsr, nes_rol, nes_ror,
}
use mnes_hrel.Nes.Ops.Branch.{
  take_branch, branch_if, nes_bcc, nes_bcs, nes_beq, nes_bmi, nes_bne, nes_bpl, nes_bvc, nes_bvs,
  nes_jmp,
}
use mnes_hrel.Nes.Ops.Stack.{
  push, pull, push_pc, pull_pc, nes_pha, nes_php, nes_pla, nes_plp, nes_jsr, nes_rts, nes_rti,
  read_vector, nes_brk,
}
use mnes_hrel.Nes.Ops.Transfer.{
  slow_nop, nes_lda, nes_ldx, nes_ldy, nes_sta, nes_stx, nes_sty, nes_tax, nes_tay, nes_tsx,
  nes_txa, nes_txs, nes_tya, nes_clc, nes_cld, nes_cli, nes_clv, nes_sec, nes_sed, nes_sei, nes_nop,
  nes_udf,
}
use mnes_hrel.Nes.Keeps.{Returns, Keeps, Any, Extra}
use mnes_hrel.Nes.Safety.Ready.{IsPlayable, IsReady, Running}
use mnes_hrel.Nes.Safety.Bus.{machine_rules}
use mnes_hrel.Nes.Safety.Modes.{extra_rules}

pub slow_nop-Extra : (o : ℕ) → Extra (if slow_nop o then 1 else 0)
slow_nop-Extra o = ground arith

module _ {c : Cartridge} (play : IsPlayable c) {n : ℕ} where
  set_zn-Keeps : (z s : ℕ) → Keeps (Running c n) Any (set_zn z s)
  unfolding set_zn
  set_zn-Keeps z s = search machine_rules

  set_nz-Keeps : (r : ℕ) → Keeps (Running c n) Any (set_nz r)
  unfolding set_nz
  set_nz-Keeps r = search machine_rules

  compare_with-Keeps : (r v : ℕ) → Keeps (Running c n) Extra (compare_with r v)
  unfolding compare_with
  compare_with-Keeps r v = search (machine_rules, extra_rules, set_zn-Keeps)

  store_shifted-Keeps : (a v : ℕ) → Keeps (Running c n) Any (store_shifted a v)
  unfolding store_shifted
  store_shifted-Keeps a v = search machine_rules

  push-Keeps : (v : ℕ) → Keeps (Running c n) Any (push v)
  unfolding push
  push-Keeps v = search machine_rules

  pull-Keeps : Keeps (Running c n) Any pull
  unfolding pull
  pull-Keeps = search machine_rules

  push_pc-Keeps : Keeps (Running c n) Any push_pc
  unfolding push_pc
  push_pc-Keeps = search (machine_rules, push-Keeps)

  pull_pc-Keeps : Keeps (Running c n) Any pull_pc
  unfolding pull_pc
  pull_pc-Keeps = search (machine_rules, pull-Keeps) depth 12

  pub read_vector-Keeps : (a : ℕ) → Keeps (Running c n) Any (read_vector a)
  unfolding read_vector
  read_vector-Keeps a = search machine_rules

ruleset part_rules = (
  machine_rules, extra_rules, set_zn-Keeps, set_nz-Keeps, compare_with-Keeps, store_shifted-Keeps,
  push-Keeps, pull-Keeps, push_pc-Keeps, pull_pc-Keeps, slow_nop-Extra,
)

-- The operation lengthens the instruction by two cycles at most.
abbrev pub Settles : Cartridge → ℕ → ℕ → Machine → Type 0
Settles c n r m = Extra r × IsReady c m × (m.opcode < 255) × (n ≤ m.cycles) × (m.cycles ≤ n + 2)

weaken :
    (c : Cartridge) (n : ℕ) (o : Option (ℕ × Machine))
    → Returns (λ r m. Extra r × Running c n m) o
    → Returns (Settles c n) o
weaken c n none h = h
weaken c n (some (r, m)) (e, h) = ground arith

quiet :
    {c : Cartridge} {n : ℕ} (action : Action ℕ) {m : Machine}
    → Keeps (Running c n) Extra action
    → Running c n m
    → Returns (Settles c n) (action m)
quiet {c} {n} action {m} keeps h = weaken c n (action m) (keeps.at m h)

module _ {c : Cartridge} (play : IsPlayable c) {n : ℕ} (room : n + 2 < 256) where
  branch_if-Settles :
      (b : Bool) (m : Machine) → Running c n m → Returns (Settles c n) (branch_if b m)
  unfolding branch_if take_branch set_cycles set_addr_abs set_pc ◌>>=◌
  branch_if-Settles b m h = ground arith

  -- The flag operations are read first, and change nothing.
  pub run_operation-Settles :
      (o : Op) (m : Machine) → Running c n m → Returns (Settles c n) (run_operation o m)
  unfolding run_operation nes_adc nes_sbc nes_cmp nes_cpx nes_cpy nes_dec nes_inc nes_dex nes_dey
      nes_inx nes_iny nes_and nes_ora nes_eor nes_bit nes_asl nes_lsr nes_rol nes_ror nes_pha
      nes_php nes_pla nes_plp nes_jsr nes_rts nes_rti nes_brk nes_lda nes_ldx nes_ldy nes_sta
      nes_stx nes_sty nes_tax nes_tay nes_tsx nes_txa nes_txs nes_tya nes_clc nes_cld nes_cli
      nes_clv nes_sec nes_sed nes_sei nes_nop nes_udf nes_jmp
  run_operation-Settles adc m h = quiet nes_adc (search part_rules depth 16) h
  run_operation-Settles sbc m h = quiet nes_sbc (search part_rules depth 16) h
  run_operation-Settles cmp m h = quiet nes_cmp (search part_rules depth 16) h
  run_operation-Settles cpx m h = quiet nes_cpx (search part_rules depth 16) h
  run_operation-Settles cpy m h = quiet nes_cpy (search part_rules depth 16) h
  run_operation-Settles dec m h = quiet nes_dec (search part_rules depth 16) h
  run_operation-Settles inc m h = quiet nes_inc (search part_rules depth 16) h
  run_operation-Settles dex m h = quiet nes_dex (search part_rules depth 16) h
  run_operation-Settles dey m h = quiet nes_dey (search part_rules depth 16) h
  run_operation-Settles inx m h = quiet nes_inx (search part_rules depth 16) h
  run_operation-Settles iny m h = quiet nes_iny (search part_rules depth 16) h
  run_operation-Settles and m h = quiet nes_and (search part_rules depth 16) h
  run_operation-Settles ora m h = quiet nes_ora (search part_rules depth 16) h
  run_operation-Settles eor m h = quiet nes_eor (search part_rules depth 16) h
  run_operation-Settles bit m h = quiet nes_bit (search part_rules depth 16) h
  run_operation-Settles asl m h = quiet nes_asl (search part_rules depth 16) h
  run_operation-Settles lsr m h = quiet nes_lsr (search part_rules depth 16) h
  run_operation-Settles rol m h = quiet nes_rol (search part_rules depth 16) h
  run_operation-Settles ror m h = quiet nes_ror (search part_rules depth 16) h
  run_operation-Settles bcc m h =
      unfold nes_bcc nes_getflag ◌>>=◌ in branch_if-Settles (not (flag_of flag_c m)) m h
  run_operation-Settles bcs m h =
      unfold nes_bcs nes_getflag ◌>>=◌ in branch_if-Settles (flag_of flag_c m) m h
  run_operation-Settles beq m h =
      unfold nes_beq nes_getflag ◌>>=◌ in branch_if-Settles (flag_of flag_z m) m h
  run_operation-Settles bmi m h =
      unfold nes_bmi nes_getflag ◌>>=◌ in branch_if-Settles (flag_of flag_n m) m h
  run_operation-Settles bne m h =
      unfold nes_bne nes_getflag ◌>>=◌ in branch_if-Settles (not (flag_of flag_z m)) m h
  run_operation-Settles bpl m h =
      unfold nes_bpl nes_getflag ◌>>=◌ in branch_if-Settles (not (flag_of flag_n m)) m h
  run_operation-Settles bvc m h =
      unfold nes_bvc nes_getflag ◌>>=◌ in branch_if-Settles (not (flag_of flag_v m)) m h
  run_operation-Settles bvs m h =
      unfold nes_bvs nes_getflag ◌>>=◌ in branch_if-Settles (flag_of flag_v m) m h
  run_operation-Settles jmp m h = quiet nes_jmp (search part_rules depth 16) h
  run_operation-Settles pha m h = quiet nes_pha (search part_rules depth 16) h
  run_operation-Settles php m h = quiet nes_php (search part_rules depth 16) h
  run_operation-Settles pla m h = quiet nes_pla (search part_rules depth 16) h
  run_operation-Settles plp m h = quiet nes_plp (search part_rules depth 16) h
  run_operation-Settles jsr m h = quiet nes_jsr (search part_rules depth 16) h
  run_operation-Settles rts m h = quiet nes_rts (search part_rules depth 16) h
  run_operation-Settles rti m h = quiet nes_rti (search part_rules depth 16) h
  run_operation-Settles brk m h = quiet nes_brk (search part_rules depth 16) h
  run_operation-Settles lda m h = quiet nes_lda (search part_rules depth 16) h
  run_operation-Settles ldx m h = quiet nes_ldx (search part_rules depth 16) h
  run_operation-Settles ldy m h = quiet nes_ldy (search part_rules depth 16) h
  run_operation-Settles sta m h = quiet nes_sta (search part_rules depth 16) h
  run_operation-Settles stx m h = quiet nes_stx (search part_rules depth 16) h
  run_operation-Settles sty m h = quiet nes_sty (search part_rules depth 16) h
  run_operation-Settles tax m h = quiet nes_tax (search part_rules depth 16) h
  run_operation-Settles tay m h = quiet nes_tay (search part_rules depth 16) h
  run_operation-Settles tsx m h = quiet nes_tsx (search part_rules depth 16) h
  run_operation-Settles txa m h = quiet nes_txa (search part_rules depth 16) h
  run_operation-Settles txs m h = quiet nes_txs (search part_rules depth 16) h
  run_operation-Settles tya m h = quiet nes_tya (search part_rules depth 16) h
  run_operation-Settles clc m h = quiet nes_clc (search part_rules depth 16) h
  run_operation-Settles cld m h = quiet nes_cld (search part_rules depth 16) h
  run_operation-Settles cli m h = quiet nes_cli (search part_rules depth 16) h
  run_operation-Settles clv m h = quiet nes_clv (search part_rules depth 16) h
  run_operation-Settles sec m h = quiet nes_sec (search part_rules depth 16) h
  run_operation-Settles sed m h = quiet nes_sed (search part_rules depth 16) h
  run_operation-Settles sei m h = quiet nes_sei (search part_rules depth 16) h
  run_operation-Settles nop m h = quiet nes_nop (search part_rules depth 16) h
  run_operation-Settles udf m h = quiet nes_udf (search part_rules depth 16) h
