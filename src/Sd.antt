-- ===== src/Sd.antt =====
-- kernel/src/pl181.c: the registers of the memory card interface, and the commands to the card.
--
-- The interface is hardware: a record of what its registers do to a state `W`, of which the model
-- knows nothing. Its registers are volatile, so that a read of one gives a state too. The base
-- address that `init_pl181` gets is the record; the global `mmci_sd_card` is an argument, where
-- `none` is NULL. Loops recurse on fuel.
mod Reading
mod Probe
mod Card
mod Sending
mod Blocks
mod Found
mod Ignored
mod Serving
mod Bench
mod Tests
use mnes_hrel.Common.{
  ℕ, zero, suc, ◌+◌, ◌*◌, ◌^◌, ◌<<◌, bit_and, bit_or, Bool, not, ◌||◌, ◌==◌, nonzero, if◌then◌else◌,
  Outcome, returned, runs_on, and_then,
}

-- The registers that are written.
pub data Register : Type 0 where
  clock power arg cmd data_length data_ctrl clear : Register
  response : ℕ → Register

-- The registers that are read: `status`, `response[0]` and `data[0]` of the FIFO.
pub record Mmci (W : Type 0) : Type 0 where
  pub status : W → ℕ × W
  pub response0 : W → ℕ × W
  pub fifo : W → ℕ × W
  pub write : Register → ℕ → W → W

pub record SdCard : Type 0 where
  pub rca : ℕ
  pub ishc : Bool

-- A C function over the hardware.
abbrev pub Action : Type 0 → Type 0 → Type 0
Action W A = W → Outcome (A × W)

-- `EXE`, `RESP`, and `LRESP`, which is `RESP & (1 << 7)`.
abbrev pub exe : ℕ
exe = 1 << 10

abbrev pub resp : ℕ
resp = 1 << 6

abbrev pub lresp : ℕ
lresp = bit_and resp (1 << 7)

-- The mask of the first loop of `mmci_send_cmd`, which is the value of `(1 << 11) != (1 << 11)`.
abbrev pub never : ℕ
never = if 1 << 11 == 1 << 11 then 0 else 1

module _ {W : Type 0} where
  abbrev pub done : {A : Type 0} → A → Action W A
  done r w = returned (r, w)

  infixl 5 ◌>>=◌ ◌>>◌
  unfoldable pub ◌>>=◌ : {A B : Type 0} → Action W A → (A → Action W B) → Action W B
  ◌>>=◌ first next w = and_then (first w) (λ r. next r.0 r.1)

  abbrev pub ◌>>◌ : {B : Type 0} → Action W (Unit {0}) → Action W B → Action W B
  first >> next = first >>= λ _. next

  module _ (dev : Mmci W) where
    unfoldable pub status : Action W ℕ
    status w = returned (dev.status w)

    unfoldable pub response0 : Action W ℕ
    response0 w = returned (dev.response0 w)

    unfoldable pub fifo : Action W ℕ
    fifo w = returned (dev.fifo w)

    unfoldable pub write : Register → ℕ → Action W (Unit {0})
    write r v w = returned (tt, dev.write r v w)

    unfoldable pub init_pl181 : Action W (Unit {0})
    unfolding write ◌>>=◌
    init_pl181 = do write clock 0x1C6; write power 0x86

    unfoldable pub mmci_clear_flags : Action W (Unit {0})
    unfolding write
    mmci_clear_flags = write clear 0x5FF

    unfoldable pub mmci_set_arg : ℕ → Action W (Unit {0})
    unfolding write
    mmci_set_arg v = write arg v

    unfoldable pub mmci_clear_resp_registers : Action W (Unit {0})
    unfolding write ◌>>=◌
    mmci_clear_resp_registers = do
      write (response 0) 0
      write (response 1) 0
      write (response 2) 0
      write (response 3) 0

    -- The first loop of `mmci_send_cmd`.
    unfoldable pub wait_line : ℕ → Action W (Unit {0})
    unfolding status ◌>>=◌
    wait_line zero w = runs_on
    wait_line (suc fuel) w =
        (do s ← status; if nonzero (bit_and s never) then wait_line fuel else done tt) w

    -- The second loop: a command is active.
    unfoldable pub wait_active : ℕ → Action W (Unit {0})
    unfolding status ◌>>=◌
    wait_active zero w = runs_on
    wait_active (suc fuel) w =
        (do s ← status; if nonzero (bit_and s (1 << 11)) then wait_active fuel else done tt) w

    -- The test of the third loop, which reads the status a second time if the first test fails.
    unfoldable pub no_response : Action W Bool
    unfolding status ◌>>=◌
    no_response = do
      s ← status
      if not (bit_and s 0x40 == 1 << 6)
          then done Bool.true
          else (do t ← status; done (nonzero (bit_and t (1 << 11))))

    -- The third loop: the response comes, or the wait for it times out.
    unfoldable pub wait_response : ℕ → Action W (Unit {0})
    unfolding no_response
    wait_response zero w = runs_on
    wait_response (suc fuel) w =
        (do
          waiting ← no_response
          if waiting
              then (do
                s ← status
                if nonzero (bit_and s (1 << 2)) then done tt else wait_response fuel)
              else done tt)
          w

    -- The fourth loop: a command without a response is sent.
    unfoldable pub wait_sent : ℕ → Action W (Unit {0})
    unfolding status ◌>>=◌
    wait_sent zero w = runs_on
    wait_sent (suc fuel) w =
        (do s ← status; if not (bit_and s (1 << 7) == 1 << 7) then wait_sent fuel else done tt) w

    unfoldable pub mmci_send_cmd : ℕ → ℕ → ℕ → Action W (Unit {0})
    unfolding mmci_clear_flags wait_line wait_active wait_response wait_sent
    mmci_send_cmd fuel command param = do
      mmci_clear_flags
      write arg param
      wait_line fuel
      write cmd command
      wait_active fuel
      if bit_and command resp == resp then wait_response fuel else wait_sent fuel

    unfoldable pub mmci_select_card : ℕ → ℕ → Bool → Action W ℕ
    unfolding mmci_send_cmd
    mmci_select_card fuel rca hc = do mmci_send_cmd fuel (bit_or (bit_or 7 exe) resp) rca; done 0
