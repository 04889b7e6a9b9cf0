-- ===== src/Sd/Ignored.antt =====
-- Application commands of kernel/src/pl181.c with a card from before: their announcement lacks the
-- start bit.
use mnes_hrel.Common.{
  ℕ, zero, suc, ◌≡◌, refl, inl, inr, ◌⊎◌, bit_and, nonzero, some, Outcome, runs_on, Comes, comes,
  Bool-cases,
}
use mnes_hrel.Sd.{
  cmd, arg, clear, Mmci, SdCard, ◌>>=◌, mmci_send_cmd, wait_line, wait_active, never, wait_sent,
}
use mnes_hrel.Sd.Probe.{announce, app_tries, mmci_send_app_cmd}

-- A command without a start bit does nothing: the flags stay as `clear` left them.
pub record Ignores {W : Type 0} (dev : Mmci W) : Type 1 where
  pub Cleared : W → Type 0
  pub clears : (w : W) → Cleared (dev.write clear 0x5FF w)
  pub tells : (w : W) (a : ℕ) → Cleared w → Cleared (dev.write arg a w)
  pub looks : (w : W) → Cleared w → Cleared (dev.status w).1
  pub drops : (w : W) (c : ℕ) → bit_and c 1024 ≡ 0 → Cleared w → Cleared (dev.write cmd c w)
  pub not_sent : (w : W) → Cleared w → bit_and (dev.status w).0 128 ≡ 0

module _ {W : Type 0} {dev : Mmci W} (hw : Ignores dev) where
  wait_sent-runs_on : (fuel : ℕ) (w : W) → hw.Cleared w → wait_sent dev fuel w ≡ runs_on
  unfolding wait_sent
  wait_sent-runs_on zero w c = refl
  wait_sent-runs_on (suc fuel) w c = rw (hw.not_sent w c) (wait_sent-runs_on fuel _ (hw.looks w c))

  -- A wait that only ends, if it does, with the flags as they were.
  abbrev StaysCleared : Outcome (Unit {0} × W) → Type 0
  StaysCleared o = (o ≡ runs_on) ⊎ Comes (λ r. hw.Cleared r.1) o

  wait_line-StaysCleared : (fuel : ℕ) (w : W) → hw.Cleared w → StaysCleared (wait_line dev fuel w)
  unfolding wait_line
  wait_line-StaysCleared zero w c = inl refl
  wait_line-StaysCleared (suc fuel) w c =
      elim (Bool-cases (nonzero (bit_and (dev.status w).0 never))) [
        | inl e ↦ rw e (wait_line-StaysCleared fuel _ (hw.looks w c))
        | inr e ↦ rw e (inr (comes (hw.looks w c)))
      ]

  wait_active-StaysCleared :
      (fuel : ℕ) (w : W) → hw.Cleared w → StaysCleared (wait_active dev fuel w)
  unfolding wait_active
  wait_active-StaysCleared zero w c = inl refl
  wait_active-StaysCleared (suc fuel) w c =
      elim (Bool-cases (nonzero (bit_and (dev.status w).0 2048))) [
        | inl e ↦ rw e (wait_active-StaysCleared fuel _ (hw.looks w c))
        | inr e ↦ rw e (inr (comes (hw.looks w c)))
      ]

  -- A command with neither bit, on an interface that does not start it, is waited for without end.
  mmci_send_cmd-runs_on :
      (fuel c a : ℕ) (w : W)
      → bit_and c 1024 ≡ 0
      → bit_and c 64 ≡ 0
      → mmci_send_cmd dev fuel c a w ≡ runs_on
  unfolding mmci_send_cmd ◌>>=◌
  mmci_send_cmd-runs_on fuel c a w start reply =
      elim (wait_line-StaysCleared fuel _ (hw.tells _ a (hw.clears w))) [
        | inl e ↦ rw e refl
        | inr line ↦
            rw line.runs (elim (wait_active-StaysCleared fuel _ (hw.drops _ c start line.holds)) [
              | inl e ↦ rw e refl
              | inr active ↦ rw active.runs (rw reply (wait_sent-runs_on fuel _ active.holds))
            ])
      ]

  -- On an interface that ignores commands without the start bit, an application command for a card
  -- that is known from before never comes back, with any fuel: its announcement lacks that bit, and
  -- the wait for it has no end.
  pub mmci_send_app_cmd-runs_on :
      (sd : SdCard) (fuel command param : ℕ) (w : W)
      → mmci_send_app_cmd dev (some sd) fuel command param w ≡ runs_on
  unfolding mmci_send_app_cmd app_tries announce mmci_send_cmd ◌>>=◌
  mmci_send_app_cmd-runs_on sd fuel command param w =
      rw (mmci_send_cmd-runs_on fuel 55 sd.rca w refl refl) refl
