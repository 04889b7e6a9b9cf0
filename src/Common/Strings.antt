-- ===== src/Common/Strings.antt =====
-- C strings as lists of bytes without the terminator, and the functions of <string.h> on them.
use Prim.Native.Nat.{ℕ, zero, suc}
use mathlib.Core.Bool.{Bool, true, false, ◌&&◌}
use mathlib.Core.List.{List, [], ◌∷◌}
use mnes_hrel.Common.Tests.{◌==◌}

abbrev pub Text : Type 0
Text = List ℕ

-- `strcmp(s, t) == 0`.
unfoldable pub strcmp : Text → Text → Bool
strcmp [] [] = true
strcmp [] (d ∷ t) = false
strcmp (c ∷ s) [] = false
strcmp (c ∷ s) (d ∷ t) = (c == d) && strcmp s t

-- `strncmp(s, t, n) == 0`.
unfoldable pub strncmp : Text → Text → ℕ → Bool
strncmp s t zero = true
strncmp [] [] (suc n) = true
strncmp [] (d ∷ t) (suc n) = false
strncmp (c ∷ s) [] (suc n) = false
strncmp (c ∷ s) (d ∷ t) (suc n) = (c == d) && strncmp s t n

-- `s + n` for an `n` within the string.
unfoldable pub drop : ℕ → Text → Text
drop zero s = s
drop (suc n) [] = []
drop (suc n) (c ∷ s) = drop n s
