-- ===== src/Sd/Probe.antt =====
-- kernel/src/pl181.c: application commands, and the search for a card.
use mnes_hrel.Common.{
  ℕ, zero, suc, ◌<<◌, bit_and, bit_or, Bool, true, false, not, Option, none, some, ◌==◌, nonzero,
  if◌then◌else◌, runs_on,
}
use mnes_hrel.Sd.{
  Mmci, SdCard, Action, exe, resp, lresp, done, ◌>>=◌, ◌>>◌, response0, mmci_send_cmd,
  mmci_select_card,
}

module _ {W : Type 0} (dev : Mmci W) where
  -- The wait for the busy bit.
  unfoldable pub wait_ready : ℕ → Action W (Unit {0})
  unfolding response0 ◌>>=◌
  wait_ready zero w = runs_on
  wait_ready (suc n) w =
      (do r ← response0 dev; if bit_or r (1 << 31) == 0 then wait_ready n else done tt) w

  -- `pl181_get_block_device` once the card has answered the application command.
  unfoldable pub set_up : ℕ → Action W (Option SdCard)
  unfolding wait_ready mmci_send_cmd mmci_select_card
  set_up fuel = do
    ocr ← response0 dev
    wait_ready fuel
    mmci_send_cmd dev fuel (bit_or (bit_or 2 exe) lresp) 0
    mmci_send_cmd dev fuel (bit_or (bit_or 3 exe) resp) 0
    r ← response0 dev
    let rca = bit_and r 0xFFFF0000
    _ ← mmci_select_card dev fuel rca (nonzero (bit_and ocr (1 << 30)))
    mmci_send_cmd dev fuel (bit_or (bit_or 16 exe) resp) 512
    _ ← response0 dev
    done (some (record { rca = rca; ishc = nonzero (bit_and ocr (1 << 30)) }))

-- `mmci_sd_card` is the card from before, NULL at the first call.
module _ {W : Type 0} (dev : Mmci W) (mmci_sd_card : Option SdCard) (fuel : ℕ) where
  -- Command 55: the one with a card lacks the bits that start it.
  unfoldable pub announce : Action W (Unit {0})
  unfolding mmci_send_cmd
  announce = elim mmci_sd_card [
    | none ↦ mmci_send_cmd dev fuel (bit_or (bit_or 55 exe) resp) 0
    | some card ↦ mmci_send_cmd dev fuel 55 card.rca
  ]

  -- The loop of `mmci_send_app_cmd`, with the number of tries that are left.
  unfoldable pub app_tries : ℕ → ℕ → ℕ → Action W Bool
  unfolding announce response0 ◌>>=◌
  app_tries zero command param w = done false w
  app_tries (suc n) command param w =
      (do
        announce
        r ← response0 dev
        if nonzero (bit_and r (1 << 5))
            then (do mmci_send_cmd dev fuel command param; done true)
            else app_tries n command param)
        w

  unfoldable pub mmci_send_app_cmd : ℕ → ℕ → Action W Bool
  unfolding app_tries
  mmci_send_app_cmd command param = app_tries 5 command param

  -- The result is `none` for NULL, and else the new `mmci_sd_card`; the functions of the device are
  -- always the same.
  unfoldable pub pl181_get_block_device : Action W (Option SdCard)
  unfolding set_up mmci_send_app_cmd
  pl181_get_block_device = do
    mmci_send_cmd dev fuel (bit_or 0 exe) 0
    mmci_send_cmd dev fuel (bit_or (bit_or 8 exe) resp) 0x1AA
    r ← response0 dev
    if not (bit_or r 0x1AA == 0x1AA) then done none else (do
      ok ← mmci_send_app_cmd (bit_or (bit_or 41 exe) resp) (bit_or (1 << 30) 0x1AA)
      if ok then set_up dev fuel else done none)
