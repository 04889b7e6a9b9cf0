-- ===== src/Sd/Tests.antt =====
-- The theorems about kernel/src/pl181.c at a small interface.
use mnes_hrel.Common.{◌≡◌, refl, true, none, some, runs_on, Comes, arith}
use mnes_hrel.Fat.Volume.{BlockDevice}
use mnes_hrel.Fat.Volume.Device
use mnes_hrel.Fat.Volume.Device.{stored, from_block}
use mnes_hrel.Sd.Bench.{
  disk, bench_card, bench, IsIdle, bench_carries, bench-Ignores, first_view, first_bench,
}
use mnes_hrel.Sd.{SdCard}
use mnes_hrel.Sd.Probe.{mmci_send_app_cmd, pl181_get_block_device}
use mnes_hrel.Sd.Found.{identified, pl181_get_block_device-identified}
use mnes_hrel.Sd.Found
use mnes_hrel.Sd.Ignored.{mmci_send_app_cmd-runs_on}

abbrev found_card : SdCard
found_card = record { rca = 0x12340000; ishc = true }

abbrev serving : BlockDevice
serving = Device.pl181_get_block_device (λ b i lba. (512, stored b i 512 (from_block disk lba)))

pl181_get_block_device-identified_example :
    Comes
      (λ r.
        (r.0 ≡ (identified bench_card first_view).0)
        × IsIdle (identified bench_card first_view).1 r.1)
      (pl181_get_block_device bench none 3 first_bench)
unfolding bench_carries
pl181_get_block_device-identified_example =
    pl181_get_block_device-identified bench_carries 3 (omega arith) first_view first_bench
      (record { over = refl; shows = refl })

mmci_send_app_cmd-runs_on_example :
    mmci_send_app_cmd bench (some found_card) 1000 1129 0x400001AA first_bench ≡ runs_on
mmci_send_app_cmd-runs_on_example =
    mmci_send_app_cmd-runs_on bench-Ignores found_card 1000 1129 0x400001AA first_bench
