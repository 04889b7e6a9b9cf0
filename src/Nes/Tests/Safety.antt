-- ===== src/Nes/Tests/Safety.antt =====
-- The theorems on clock cycles at the sample machine.
use mnes_hrel.Common.{refl, arith}
use mnes_hrel.Nes.Machine.{Machine}
use mnes_hrel.Nes.Safety.Progress.{Plays, clocks-Plays, Completes, instruction_Completes}
use mnes_hrel.Nes.Tests.Sample.{sample_cart, sample, sample_cart-IsPlayable, sample-IsReady}

abbrev waiting : Machine
waiting = record sample { cycles = 3 }

clocks-Plays_example : Plays sample_cart 20 sample
clocks-Plays_example = clocks-Plays sample_cart-IsPlayable 20 sample sample-IsReady

instruction_Completes_example : Completes sample_cart sample
unfolding mnes_hrel.Nes.Bus.MemoryMap.byte_at
instruction_Completes_example =
    instruction_Completes sample_cart-IsPlayable sample sample-IsReady refl (omega arith)
