-- ===== src/Nes/Keeps.antt =====
-- Total correctness of actions: no fault, and an invariant kept, by one rule for each construct.
use mnes_hrel.Common.{◌≡◌, ap, ℕ, ◌≤◌, Bool, true, false, Option, none, some, if◌then◌else◌}
use mnes_hrel.Nes.Machine.{Machine, Action, pure, get, modify, ◌>>=◌}

-- The run does not fault, and its result and final machine satisfy `Q`.
abbrev pub Returns : {A : Type 0} → (A → Machine → Type 0) → Option (A × Machine) → Type 0
Returns Q none = ⊥
Returns Q (some (r, m)) = Q r m

-- From a machine in `P` the action returns, to a machine in `P` and a result in `Q`.
pub record Keeps {A : Type 0} (P : Machine → Type 0) (Q : A → Type 0) (action : Action A)
    : Type 0 where
  pub at : (m : Machine) → P m → Returns (λ r m'. Q r × P m') (action m)

-- Any result will do.
abbrev pub Any : {A : Type 0} → A → Type 0
Any r = Unit {0}

-- What an operation may answer: 0 or 1 additional cycles.
abbrev pub Extra : ℕ → Type 0
Extra n = n ≤ 1

module _ {P : Machine → Type 0} where
  pub Keeps-pure : {A : Type 0} {Q : A → Type 0} (r : A) → Q r → Keeps P Q (pure r)
  unfolding pure
  Keeps-pure r q = record { at = λ m h. (q, h) }

  pub Keeps-get : Keeps P P get
  unfolding get
  Keeps-get = record { at = λ m h. (h, h) }

  pub Keeps-modify :
      (f : Machine → Machine) → ((m : Machine) → P m → P (f m)) → Keeps P Any (modify f)
  unfolding modify
  Keeps-modify f keep = record { at = λ m h. (tt, keep m h) }

  pub Keeps-if :
      {A : Type 0} {Q : A → Type 0} (b : Bool) {first other : Action A}
      → Keeps P Q first
      → Keeps P Q other
      → Keeps P Q (if b then first else other)
  Keeps-if true h g = h
  Keeps-if false h g = g

module _ {A B : Type 0} where
  continue :
      {Q : A → Machine → Type 0} (R : B → Machine → Type 0) (next : A → Action B)
      (o : Option (A × Machine))
      → ((r : A) (m : Machine) → Q r m → Returns R (next r m))
      → Returns Q o
      → Returns R (elim o [ none ↦ none | some (r, m') ↦ next r m' ])
  continue R next none step h = h
  continue R next (some (r, m)) step h = step r m h

  -- A run in sequence, with what holds in between.
  pub Returns-bind :
      {Q : A → Machine → Type 0} (R : B → Machine → Type 0) (first : Action A) (next : A → Action B)
      (m : Machine)
      → Returns Q (first m)
      → ((r : A) (m' : Machine) → Q r m' → Returns R (next r m'))
      → Returns R ((first >>= next) m)
  unfolding ◌>>=◌
  Returns-bind {Q} R first next m h step = continue {Q = Q} R next (first m) step h

  -- A first action whose run is known.
  pub bind-some :
      (first : Action A) (next : A → Action B) (m : Machine) {r : A} {m' : Machine}
      → first m ≡ some (r, m')
      → (first >>= next) m ≡ next r m'
  unfolding ◌>>=◌
  bind-some first next m {r} {m'} e =
      ap (λ (o : Option (A × Machine)). elim o [ none ↦ none | some (r, m') ↦ next r m' ]) e

  -- A first action that faults.
  pub bind-none :
      (first : Action A) (next : A → Action B) (m : Machine)
      → first m ≡ none
      → (first >>= next) m ≡ none
  unfolding ◌>>=◌
  bind-none first next m e =
      ap (λ (o : Option (A × Machine)). elim o [ none ↦ none | some (r, m') ↦ next r m' ]) e

module _ {P : Machine → Type 0} {A B : Type 0} where
  pub Keeps-bind :
      {Q : A → Type 0} {R : B → Type 0} {first : Action A} {next : A → Action B}
      → Keeps P Q first
      → ((r : A) → Q r → Keeps P R (next r))
      → Keeps P R (first >>= next)
  Keeps-bind {Q} {R} {first} {next} h step = record {
    at = λ m p.
        Returns-bind {Q = λ r m'. Q r × P m'} (λ r m'. R r × P m') first next m (h.at m p)
          (λ r m' (q, p'). (step r q).at m' p');
  }

  -- The same where the rest of the block asks nothing of the result.
  pub Keeps-then :
      {R : B → Type 0} (first : Action A) (next : A → Action B)
      → Keeps P Any first
      → ((r : A) → Keeps P R (next r))
      → Keeps P R (first >>= next)
  Keeps-then first next h step = Keeps-bind h λ r _. step r

module _ {P : Machine → Type 0} where
  pub get-Keeps : Keeps P Any get
  unfolding get
  get-Keeps = record { at = λ m h. (tt, h) }

pub ruleset keeps_rules = (Keeps-pure, get-Keeps, Keeps-if, Keeps-then)
