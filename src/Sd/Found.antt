-- ===== src/Sd/Found.antt =====
-- The search of kernel/src/pl181.c for a card, as the commands that a card gets.
use mnes_hrel.Common.{
  ℕ, zero, suc, ◌+◌, ◌≤◌, ◌<◌, ◌≡◌, refl, inl, inr, bit_and, bit_or, Bool, true, false, ◌==◌,
  nonzero, if◌then◌else◌, Option, none, some, returned, Comes, comes, arith, Bool-cases,
}
use mnes_hrel.Common.Bits.{bit_or-le}
use mnes_hrel.Sd.{Mmci, SdCard, ◌>>=◌, mmci_select_card, mmci_send_cmd}
use mnes_hrel.Sd.Probe.{
  announce, app_tries, mmci_send_app_cmd, wait_ready, set_up, pl181_get_block_device,
}
use mnes_hrel.Sd.Card.{View, Card, Carries}
use mnes_hrel.Sd.Sending.{mmci_send_cmd-Idle}

-- Commands with a start bit; those with another number of bits wait for a response.
abbrev plain : Card → ℕ → ℕ → View → View
plain card n a v = card (1024 + n) a v

abbrev asking : Card → ℕ → ℕ → View → View
asking card n a v = card (1088 + n) a v

-- The card after it got the application command 41: it acknowledged one of `n` announcements.
unfoldable pub woken : Card → ℕ → View → Bool × View
woken card zero v = (false, v)
woken card (suc n) v =
    let told = asking card 55 0 v in
    if nonzero (bit_and told.response 32)
    then (true, asking card 41 0x400001AA told)
    else woken card n told

-- The card after it was asked for its address and selected: the address is the upper half of its
-- response, and the capacity is a bit of what it answered before.
unfoldable pub selected : Card → View → Option SdCard × View
selected card v =
    let named = asking card 3 0 (plain card 2 0 v) in
    let rca = bit_and named.response 0xFFFF0000 in
    (
      some (record { rca = rca; ishc = nonzero (bit_and v.response 0x40000000) }),
      asking card 16 512 (asking card 7 rca named),
    )

-- The whole search: reset, voltage, and then the two parts above.
unfoldable pub identified : Card → View → Option SdCard × View
identified card v =
    let checked = asking card 8 0x1AA (plain card 0 0 v) in
    if bit_or checked.response 0x1AA == 0x1AA
    then (let (ok, awake) = woken card 5 checked in
        if ok then selected card awake else (none, awake))
    else (none, checked)

-- The wait for the busy bit is over at once: the test holds of no response.
wait_ready-returned :
    {W : Type 0} (dev : Mmci W) (fuel : ℕ) (w : W)
    → 0 < fuel
    → wait_ready dev fuel w ≡ returned (tt, (dev.response0 w).1)
unfolding wait_ready
wait_ready-returned dev zero w p = absurd (omega arith)
wait_ready-returned dev (suc fuel) w p =
    let some : 2147483648 ≤ bit_or (dev.response0 w).0 2147483648 =
      bit_or-le (dev.response0 w).0 2147483648 in
    let no : bit_or (dev.response0 w).0 2147483648 == 0 ≡ false = ground arith in rw no refl

module _ {W : Type 0} {dev : Mmci W} {card : Card} {delay : ℕ} (hw : Carries dev card delay)
    (fuel : ℕ) (in_time : delay < fuel) where
  asks :
      (n a : ℕ) (v : View) (w : W)
      → bit_and (1088 + n) 1024 ≡ 1024
      → bit_and (1088 + n) 64 ≡ 64
      → hw.Idle v w
      → Comes (λ r. hw.Idle (asking card n a v) r.1) (mmci_send_cmd dev fuel (1088 + n) a w)
  asks n a v w start reply idle =
      mmci_send_cmd-Idle hw fuel (1088 + n) a v w in_time start (inr reply) idle

  app_tries-woken :
      (n : ℕ) (v : View) (w : W)
      → hw.Idle v w
      → Comes
          (λ r. (r.0 ≡ (woken card n v).0) × hw.Idle (woken card n v).1 r.1)
          (app_tries dev none fuel n 1129 0x400001AA w)
  unfolding app_tries announce woken ◌>>=◌
  app_tries-woken zero v w idle = comes (refl, idle)
  app_tries-woken (suc n) v w idle =
      let told = asks 55 0 v w refl refl idle in
      let answer = hw.responds (asking card 55 0 v) _ told.holds in
      let after = hw.answers (asking card 55 0 v) _ told.holds in
      rw told.runs (
        rw answer (elim (Bool-cases (nonzero (bit_and (asking card 55 0 v).response 32))) [
          | inl e ↦
              let sent = asks 41 0x400001AA (asking card 55 0 v) _ refl refl after in
              rw e (rw sent.runs (comes (refl, sent.holds)))
          | inr e ↦ rw e (app_tries-woken n (asking card 55 0 v) _ after)
        ]))

  set_up-selected :
      (v : View) (w : W)
      → hw.Idle v w
      → Comes
          (λ r. (r.0 ≡ (selected card v).0) × hw.Idle (selected card v).1 r.1)
          (set_up dev fuel w)
  unfolding set_up selected mmci_select_card ◌>>=◌
  set_up-selected v w idle =
      let seen = hw.answers v w idle in
      let ready = hw.answers v _ seen in
      let cid = mmci_send_cmd-Idle hw fuel 1026 0 v _ in_time refl (inl refl) ready in
      let rca = asks 3 0 (plain card 2 0 v) _ refl refl cid.holds in
      let named = asking card 3 0 (plain card 2 0 v) in
      let address = bit_and named.response 0xFFFF0000 in
      let known = hw.answers named _ rca.holds in
      let chosen = asks 7 address named _ refl refl known in
      let sized = asks 16 512 (asking card 7 address named) _ refl refl chosen.holds in
      rw (hw.responds v w idle) (
        rw (wait_ready-returned dev fuel (dev.response0 w).1 (omega arith)) (
          rw cid.runs (
            rw rca.runs (
              rw (hw.responds named _ rca.holds)
                (rw chosen.runs (rw sized.runs (comes (refl, hw.answers _ _ sized.holds))))))))

  -- On an interface that carries out the commands of a card within a delay, and with fuel for it,
  -- the first search for a card comes back: the result, NULL or the card, is what the commands of
  -- the search come to on the card, and the interface is idle with the card as they leave it.
  pub pl181_get_block_device-identified :
      (v : View) (w : W)
      → hw.Idle v w
      → Comes
          (λ r. (r.0 ≡ (identified card v).0) × hw.Idle (identified card v).1 r.1)
          (pl181_get_block_device dev none fuel w)
  unfolding pl181_get_block_device mmci_send_app_cmd identified ◌>>=◌
  pl181_get_block_device-identified v w idle =
      let reset = mmci_send_cmd-Idle hw fuel 1024 0 v w in_time refl (inl refl) idle in
      let volts = asks 8 0x1AA (plain card 0 0 v) _ refl refl reset.holds in
      let checked = asking card 8 0x1AA (plain card 0 0 v) in
      let after = hw.answers checked _ volts.holds in
      let tries = app_tries-woken 5 checked _ after in
      rw reset.runs (
        rw volts.runs (
          rw (hw.responds checked _ volts.holds)
            (elim (Bool-cases (bit_or checked.response 0x1AA == 0x1AA)) [
              | inl e ↦ rw e (
                  rw tries.runs (
                    rw tries.holds.0 (elim (Bool-cases (woken card 5 checked).0) [
                      | inl ok ↦ rw ok (set_up-selected (woken card 5 checked).1 _ tries.holds.1)
                      | inr bad ↦ rw bad (comes (refl, tries.holds.1))
                    ])))
              | inr e ↦ rw e (comes (refl, after))
            ])))
