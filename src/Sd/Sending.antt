-- ===== src/Sd/Sending.antt =====
-- A command of kernel/src/pl181.c comes to its end, on an interface that carries it out.
use mnes_hrel.Common.{
  ℕ, zero, suc, ◌≤◌, ◌<◌, ◌≡◌, refl, ◌⊎◌, inl, inr, bit_and, true, false, nonzero, Outcome, Comes,
  comes, Comes-map, returned, arith, Bool-cases,
}
use mnes_hrel.Common.Bits.{bit_and-ones}
use mnes_hrel.Sd.{
  Mmci, ◌>>=◌, wait_line, wait_active, no_response, wait_response, wait_sent, mmci_send_cmd,
}
use mnes_hrel.Sd.Card.{View, Card, Carries}

module _ {W : Type 0} {dev : Mmci W} {card : Card} {delay : ℕ} (hw : Carries dev card delay) where
  -- A command that ends after at most `n` more reads of the status.
  data Within (n c : ℕ) (v : View) (w : W) : Type 0 where
    within : (m : ℕ) → m ≤ n → hw.Busy m c v w → Within n c v w

  wait_line-Told :
      (fuel a : ℕ) (v : View) (w : W)
      → 0 < fuel
      → hw.Told a v w
      → Comes (λ r. hw.Told a v r.1) (wait_line dev fuel w)
  unfolding wait_line
  wait_line-Told zero a v w p told = absurd (omega arith)
  wait_line-Told (suc fuel) a v w p told =
      let e : bit_and (dev.status w).0 0 ≡ 0 = omega (arith, bit_and-ones 0 (dev.status w).0) in
      rw e (comes (hw.stays v w a told))

  weaker :
      {n c : ℕ} {v : View} {o : Outcome (Unit {0} × W)}
      → Comes (λ r. Within n c v r.1) o
      → Comes (λ r. Within (suc n) c v r.1) o
  weaker = Comes-map λ r. elim [ within m p b ↦ within m (omega arith) b ]

  wait_active-Within :
      (fuel n c : ℕ) (v : View) (w : W)
      → n < fuel
      → hw.Busy n c v w
      → Comes (λ r. Within n c v r.1) (wait_active dev fuel w)
  unfolding wait_active
  wait_active-Within zero n c v w p busy = absurd (omega arith)
  wait_active-Within (suc fuel) zero c v w p busy =
      let flags = hw.end_flags v w c busy in
      rw flags.inactive (comes (within 0 (omega arith) (hw.rests v w c busy)))
  wait_active-Within (suc fuel) (suc n) c v w p busy =
      let later = hw.polls v w c n busy in
      elim (Bool-cases (nonzero (bit_and (dev.status w).0 2048))) [
        | inl e ↦ rw e (weaker (wait_active-Within fuel n c v (dev.status w).1 (omega arith) later))
        | inr e ↦ rw e (comes (within n (omega arith) later))
      ]

  wait_sent-Busy :
      (fuel n c : ℕ) (v : View) (w : W)
      → n < fuel
      → hw.Busy n c v w
      → bit_and c 64 ≡ 0
      → Comes (λ r. hw.Busy 0 c v r.1) (wait_sent dev fuel w)
  unfolding wait_sent
  wait_sent-Busy zero n c v w p busy none = absurd (omega arith)
  wait_sent-Busy (suc fuel) zero c v w p busy none =
      let flags = hw.end_flags v w c busy in rw (flags.sent none) (comes (hw.rests v w c busy))
  wait_sent-Busy (suc fuel) (suc n) c v w p busy none =
      let flags = hw.no_flags v w c n busy in
      rw (flags.not_sent)
        (wait_sent-Busy fuel n c v (dev.status w).1 (omega arith) (hw.polls v w c n busy) none)

  no_response-Busy :
      (n c : ℕ) (v : View) (w : W)
      → hw.Busy (suc n) c v w
      → no_response dev w ≡ returned (true, (dev.status w).1)
  unfolding no_response
  no_response-Busy n c v w busy = rw ((hw.no_flags v w c n busy).not_come) refl

  module _ (c : ℕ) (v : View) (w : W) (busy : hw.Busy 0 c v w) (some : bit_and c 64 ≡ 64) where
    no_response-came :
        v.answered ≡ true → no_response dev w ≡ returned (false, (dev.status (dev.status w).1).1)
    unfolding no_response
    no_response-came e =
        let second = hw.end_flags v (dev.status w).1 c (hw.rests v w c busy) in
        rw ((hw.end_flags v w c busy).came some e) (rw second.inactive refl)

    no_response-late : v.answered ≡ false → no_response dev w ≡ returned (true, (dev.status w).1)
    unfolding no_response
    no_response-late e = rw ((hw.end_flags v w c busy).late some e) refl

  wait_response-Busy :
      (fuel n c : ℕ) (v : View) (w : W)
      → n < fuel
      → hw.Busy n c v w
      → bit_and c 64 ≡ 64
      → Comes (λ r. hw.Busy 0 c v r.1) (wait_response dev fuel w)
  unfolding wait_response
  wait_response-Busy zero n c v w p busy some = absurd (omega arith)
  wait_response-Busy (suc fuel) zero c v w p busy some =
      let first = hw.end_flags v w c busy in
      let after = hw.rests v w c busy in
      let second = hw.end_flags v (dev.status w).1 c after in
      let last = comes (hw.rests v (dev.status w).1 c after) in
      elim (Bool-cases v.answered) [
        | inl e ↦ rw (no_response-came c v w busy some e) last
        | inr e ↦ rw (no_response-late c v w busy some e) (rw (second.timed_out some e) last)
      ]
  wait_response-Busy (suc fuel) (suc zero) c v w p busy some =
      let after = hw.polls v w c 0 busy in
      let rests = hw.rests v (dev.status w).1 c after in
      rw (no_response-Busy 0 c v w busy)
        (elim (Bool-cases (nonzero (bit_and (dev.status (dev.status w).1).0 4))) [
          | inl e ↦ rw e (comes rests)
          | inr e ↦ rw e (
              wait_response-Busy fuel 0 c v (dev.status (dev.status w).1).1 (omega arith) rests
                some)
        ])
  wait_response-Busy (suc fuel) (suc (suc n)) c v w p busy some =
      let after = hw.polls v w c (suc n) busy in
      let next = hw.polls v (dev.status w).1 c n after in
      let flags = hw.no_flags v (dev.status w).1 c n after in
      rw (no_response-Busy (suc n) c v w busy) (
        rw flags.not_timed_out
          (wait_response-Busy fuel n c v (dev.status (dev.status w).1).1 (omega arith) next some))

  idles :
      {c : ℕ} {v : View} {o : Outcome (Unit {0} × W)}
      → Comes (λ r. hw.Busy 0 c v r.1) o
      → Comes (λ r. hw.Idle v r.1) o
  idles {c} {v} = Comes-map λ r b. hw.idles v r.1 c b

  -- A command that has a start bit, and a response bit or not, comes to its end.
  pub mmci_send_cmd-Idle :
      (fuel c a : ℕ) (v : View) (w : W)
      → delay < fuel
      → bit_and c 1024 ≡ 1024
      → (bit_and c 64 ≡ 0) ⊎ (bit_and c 64 ≡ 64)
      → hw.Idle v w
      → Comes (λ r. hw.Idle (card c a v) r.1) (mmci_send_cmd dev fuel c a w)
  unfolding mmci_send_cmd ◌>>=◌
  mmci_send_cmd-Idle fuel c a v w p start reply idle =
      let line = wait_line-Told fuel a v _ (omega arith) (hw.tells v _ a (hw.clears v w idle)) in
      let busy = hw.starts v _ c a start line.holds in
      let active = wait_active-Within fuel delay c (card c a v) _ p busy in
      rw line.runs (
        rw active.runs (elim active.holds [
          | within m q b ↦ elim reply [
            | inl e ↦ rw e (idles (wait_sent-Busy fuel m c (card c a v) _ (omega arith) b e))
            | inr e ↦ rw e (idles (wait_response-Busy fuel m c (card c a v) _ (omega arith) b e))
          ]
        ]))
