-- ===== src/Bmp/Tests.antt =====
-- A bitmap of 2 by 2 pixels, and the theorem on the loader at it.
use mnes_hrel.Common.{ℕ, refl, some, arith, inl, ◌==◌, if◌then◌else◌}
use mnes_hrel.Bmp.{headers, bmp_to16bitarray}
use mnes_hrel.Bmp.Pixels.{Holds, Brings, bmp_to16bitarray-Brings}

abbrev file : ℕ → ℕ
file i =
    if i == 0
    then b'B'
    else if i == 1
    then b'M'
    else if i == 10
    then 54
    else if i == 14
    then 40
    else if i == 18
    then 2
    else if i == 22
    then 2
    else if i == 28
    then 16
    else if i == 34
    then 8
    else if i == 54
    then 7
    else 0

file-Holds : Holds (headers file) 62
file-Holds = record {
  block = omega arith;
  file = omega arith;
  small = omega arith;
  height = omega arith;
}

bmp_to16bitarray-Brings_example : Brings file (bmp_to16bitarray (λ _. 0) (some file) 62)
bmp_to16bitarray-Brings_example =
    bmp_to16bitarray-Brings (λ _. 0) file 62 (omega arith) refl refl (omega arith) refl (inl refl)
      file-Holds
