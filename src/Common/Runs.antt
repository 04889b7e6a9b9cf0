-- ===== src/Common/Runs.antt =====
-- What a run of code comes to: a result, an access through a bad pointer or outside a block of
-- memory, or a loop that is still going on when the fuel ends.
use mathlib.Core.Path.{◌≡◌, refl}

pub data Outcome {ℓ} (A : Type ℓ) : Type ℓ where
  returned : A → Outcome A
  fault : Outcome A
  runs_on : Outcome A

-- The run comes back, with a result in `Q`.
abbrev pub Ends {ℓ} : {A : Type ℓ} → (A → Type 0) → Outcome A → Type 0
Ends Q (returned a) = Q a
Ends Q fault = ⊥
Ends Q runs_on = ⊥

-- A run and what follows it.
abbrev pub and_then {ℓ κ} : {A : Type ℓ} {B : Type κ} → Outcome A → (A → Outcome B) → Outcome B
and_then (returned a) next = next a
and_then fault next = fault
and_then runs_on next = runs_on

-- A run that comes back, and what holds of its result.
pub record Comes {A : Type 0} (Q : A → Type 0) (o : Outcome A) : Type 0 where
  pub result : A
  pub runs : o ≡ returned result
  pub holds : Q result

pub comes : {A : Type 0} {Q : A → Type 0} {r : A} → Q r → Comes Q (returned r)
comes {r} q = record { result = r; runs = refl; holds = q }

pub Comes-map :
    {A : Type 0} {Q R : A → Type 0} {o : Outcome A} → ((r : A) → Q r → R r) → Comes Q o → Comes R o
Comes-map f h = record { result = h.result; runs = h.runs; holds = f h.result h.holds }
