-- ===== src/Nes/Tests/Cart.antt =====
-- The theorems on loading a cartridge, for a file with the sample program.
use mnes_hrel.Common.{ℕ, ◌+◌, ◌-◌, ◌≡◌, ◌≢◌, refl, none, arith, ◌==◌, ltb, if◌then◌else◌, [], ◌∷◌}
use mnes_hrel.Nes.Machine.{freed_cart, cart_at}
use mnes_hrel.Nes.Cart.{CLibrary, run_rom}
use mnes_hrel.Nes.Cart.Errors.{run_rom-missing}
use mnes_hrel.Nes.Tests.Sample.{program, sample, sample_cart}

-- The header with the first byte `n`, mapper bits `mapper`, and `unused` in byte 11.
abbrev rom : ℕ → ℕ → ℕ → ℕ → ℕ
rom n mapper unused i =
    if ltb i 16
    then (if i == 0
        then n
        else if i == 1
        then b'E'
        else if i == 2
        then b'S'
        else if i == 3
        then 26
        else if i == 4
        then 1
        else if i == 6
        then mapper
        else if i == 11
        then unused
        else 0)
    else program (i - 16)

-- The file "r" is the only one. The state counts the calls, less the closes.
abbrev library : (ℕ → ℕ) → CLibrary ℕ
library bytes = record {
  fopen = λ path w. ((elim path [ [] ↦ 0 | c ∷ rest ↦ if c == b'r' then 7 else 0 ]), w + 1);
  fstat = λ file w. ((0, 16400), w);
  fread = λ file size w. (bytes, w);
  fclose = λ file w. w - 1;
  free_inside = λ n w. w;
  null_text = λ _. 0;
}

usable : cart_at sample_cart ≢ freed_cart
usable e = absurd (ground (arith, e))

run_rom-missing_example : run_rom (library (rom b'N' 0 0)) (b'x' ∷ []) 0 sample ≡ none
run_rom-missing_example =
    run_rom-missing (library (rom b'N' 0 0)) (b'x' ∷ []) 0 1 sample usable refl
