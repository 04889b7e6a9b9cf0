-- ===== src/Nes/Safety/Progress.antt =====
-- Runs of many clock cycles: what they fault at, and that every instruction comes to its end.
use mnes_hrel.Common.{
  ℕ, zero, suc, ◌+◌, eq_of_==, ◌-◌, ◌≤◌, ◌<◌, ◌≡◌, ◌≢◌, refl, ◌∙◌, true, Option, none, some, arith,
  ◌==◌, Bool-cases, inl, inr,
}
use mnes_hrel.Nes.Machine.{Cartridge, Machine, pure, ◌>>=◌}
use mnes_hrel.Nes.Clock.{nes_clock, clocks, nes_ins_complete}
use mnes_hrel.Nes.Keeps.{Returns, bind-some, bind-none}
use mnes_hrel.Nes.Safety.Ready.{IsPlayable, IsReady}
use mnes_hrel.Nes.Safety.Clock.{next_opcode, nes_clock-starts, nes_clock-faults, nes_clock-waits}

-- What `n` clock cycles come to: they all run, or some run and the next would start the
-- instruction 0xFF.
pub data Plays (c : Cartridge) (n : ℕ) (m : Machine) : Type 0 where
  on : (last : Machine) → clocks n m ≡ some (tt, last) → IsReady c last → Plays c n m
  stopped :
      (k : ℕ) (last : Machine)
      → k < n
      → clocks k m ≡ some (tt, last)
      → IsReady c last
      → last.cycles ≡ 0
      → next_opcode c last ≡ 255
      → clocks n m ≡ none
      → Plays c n m

module _ {c : Cartridge} (play : IsPlayable c) where
  pub waits-IsReady :
      (m : Machine) → IsReady c m → m.cycles ≢ 0 → Returns (λ _ m'. IsReady c m') (nes_clock m)
  waits-IsReady m h busy = rw (nes_clock-waits m h.cycles busy) (ground arith)

  forget :
      (o : Option (Unit {0} × Machine))
      → Returns (λ _ m'. IsReady c m' × (1 ≤ m'.cycles) × (m'.cycles ≤ 10)) o
      → Returns (λ _ m'. IsReady c m') o
  forget none h = h
  forget (some (r, m)) h = h.0

  stopped_here :
      (n : ℕ) (m : Machine) → IsReady c m → m.cycles ≡ 0 → next_opcode c m ≡ 255 → Plays c (suc n) m
  unfolding clocks pure
  stopped_here n m h done last =
      stopped 0 m (omega arith) refl h done last
        (bind-none nes_clock _ m (nes_clock-faults play m h done last))

  later : (n : ℕ) (m m₁ : Machine) → nes_clock m ≡ some (tt, m₁) → Plays c n m₁ → Plays c (suc n) m
  unfolding clocks
  later n m m₁ e (on last runs h) = on last (bind-some nes_clock _ m e ∙ runs) h
  later n m m₁ e (stopped k last less runs h done byte faults) =
      stopped (suc k) last (omega arith) (bind-some nes_clock _ m e ∙ runs) h done byte
        (bind-some nes_clock _ m e ∙ faults)

  starts-IsReady :
      (m : Machine)
      → IsReady c m
      → m.cycles ≡ 0
      → next_opcode c m ≢ 255
      → Returns (λ _ m'. IsReady c m') (nes_clock m)
  starts-IsReady m h done other = forget (nes_clock m) (nes_clock-starts play m h done other)

  -- One clock cycle and what follows it.
  goes_on :
      (n : ℕ) (m : Machine) (o : Option (Unit {0} × Machine))
      → nes_clock m ≡ o
      → Returns (λ _ m'. IsReady c m') o
      → ((m' : Machine) → IsReady c m' → Plays c n m')
      → Plays c (suc n) m
  goes_on n m none e h rest = absurd h
  goes_on n m (some (tt, m₁)) e h rest = later n m m₁ e (rest m₁ h)

  -- Any number of clock cycles on a ready machine with a playable cartridge either runs without a
  -- fault and leaves it ready, or comes to a ready machine where an instruction is over and the
  -- byte at PC is 0xFF: the next cycle faults, since that entry lies behind the 255 of the table.
  pub clocks-Plays : (n : ℕ) (m : Machine) → IsReady c m → Plays c n m
  unfolding clocks pure
  clocks-Plays zero m h = on m refl h
  clocks-Plays (suc n) m h = elim (Bool-cases (m.cycles == 0)) [
    | inl done ↦ elim (Bool-cases (next_opcode c m == 255)) [
      | inl last ↦ stopped_here n m h (ground arith) (eq_of_== _ _ last)
      | inr other ↦
          goes_on n m (nes_clock m) refl (starts-IsReady m h (ground arith) (ground (arith, other)))
            (λ m' h'. clocks-Plays n m' h')
    ]
    | inr busy ↦
        goes_on n m (nes_clock m) refl (waits-IsReady m h (ground arith))
          (λ m' h'. clocks-Plays n m' h')
  ]

-- Clock cycles behind those that end an instruction.
pub clocks-over :
    (n k : ℕ) (m : Machine)
    → m.cycles ≡ n
    → n < 256
    → clocks (n + k) m ≡ clocks k (record m { cycles = 0 })
unfolding clocks
clocks-over zero k m e h =
    let same : record m { cycles = 0 } ≡ m = ground arith in
    let left : 0 + k ≡ k = omega arith in rw left (rw same refl)
clocks-over (suc n) k m e h =
    let left : suc n + k ≡ suc (n + k) = omega arith in
    rw left (
      bind-some nes_clock _ m (nes_clock-waits m (omega arith) (omega arith))
      ∙ clocks-over n k (record m { cycles = m.cycles - 1 }) (omega arith) (omega arith))

-- The rest of an instruction: as many clock cycles as the counter says end it, and nothing but the
-- counter changes.
pub clocks-completes :
    (n : ℕ) (m : Machine) → m.cycles ≡ n → n < 256 → clocks n m ≡ some (tt, record m { cycles = 0 })
unfolding clocks pure ◌>>=◌
clocks-completes zero m e h = ground arith
clocks-completes (suc n) m e h =
    bind-some nes_clock _ m (nes_clock-waits m (omega arith) (omega arith))
    ∙ clocks-completes n (record m { cycles = m.cycles - 1 }) (omega arith) (omega arith)

-- A run of whole clock cycles that ends where the instruction is complete.
pub record Completes (c : Cartridge) (m : Machine) : Type 0 where
  pub rounds : ℕ
  pub final : Machine
  pub runs : clocks rounds m ≡ some (tt, final)
  pub some_rounds : 2 ≤ rounds
  pub few_rounds : rounds ≤ 11
  pub ready : IsReady c final
  pub complete : nes_ins_complete final ≡ true

nes_clock-Completes :
    {c : Cartridge} (m : Machine) (o : Option (Unit {0} × Machine))
    → nes_clock m ≡ o
    → Returns (λ _ m'. IsReady c m' × (1 ≤ m'.cycles) × (m'.cycles ≤ 10)) o
    → Completes c m
unfolding clocks ◌>>=◌
nes_clock-Completes m none e h = absurd h
nes_clock-Completes m (some (r, m₁)) e (ready, low, high) = record {
  rounds = suc m₁.cycles;
  final = record m₁ { cycles = 0 };
  runs = bind-some nes_clock _ m e ∙ clocks-completes m₁.cycles m₁ refl (omega arith);
  some_rounds = omega arith;
  few_rounds = omega arith;
  ready = ground arith;
  complete = refl;
}

-- On a ready machine with a playable cartridge, no cycles left and another byte than 0xFF at PC, the
-- next instruction completes: from its first clock cycle it takes between 2 and 11 of them, after which the machine is ready
-- for another.
pub instruction_Completes :
    {c : Cartridge}
    → IsPlayable c
    → (m : Machine) → IsReady c m
    → m.cycles ≡ 0
    → next_opcode c m ≢ 255
    → Completes c m
instruction_Completes play m h done other =
    nes_clock-Completes m (nes_clock m) refl (nes_clock-starts play m h done other)
