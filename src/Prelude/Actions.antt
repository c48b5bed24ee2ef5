-- ===== src/Prelude/Actions.antt =====
-- Results, and calls over a state: what was written stays written when a call ends with an error.
use mathlib.Core.Bool.{Bool, true, false}
use mathlib.Core.Option.{Option, none, some}

pub data Result (E A : Type 0) : Type 0 where
  ok : A → Result E A
  err : E → Result E A

-- A call that reads and writes a state S.
abbrev pub Action : Type 0 → Type 0 → Type 0 → Type 0
Action S E A = S → S × Result E A

module _ {S E A : Type 0} where
  abbrev pub pure : A → Action S E A
  pure a s = (s, ok a)

  abbrev pub raise : E → Action S E A
  raise e s = (s, err e)

  -- A result that hangs on no state.
  abbrev pub lift : Result E A → Action S E A
  lift r s = (s, r)

  abbrev pub or_raise : Option A → E → Action S E A
  or_raise none e = raise e
  or_raise (some a) e = pure a

-- `if err != nil { return err }`
module _ {S E : Type 0} where
  abbrev pub raise_some : Option E → Action S E Unit
  raise_some none = pure tt
  raise_some (some e) = raise e

  abbrev pub guard : Bool → E → Action S E Unit
  guard true e = pure tt
  guard false e = raise e

infixl 5 ◌>>=◌ ◌>>◌
abbrev pub ◌>>=◌ : {S E A B : Type 0} → Action S E A → (A → Action S E B) → Action S E B
◌>>=◌ m f s = let (s', r) = m s in elim r [ ok a ↦ f a s' | err e ↦ raise e s' ]

abbrev pub ◌>>◌ : {S E B : Type 0} → Action S E Unit → Action S E B → Action S E B
m >> k = m >>= λ _. k

-- A failed action of other errors: `if err != nil { return e }`.
abbrev pub hide : {S E D A : Type 0} → E → Action S D A → Action S E A
hide e m s = let (s', r) = m s in elim r [ ok a ↦ pure a s' | err d ↦ raise e s' ]

-- A call keeps what holds of the state, whatever it answers.
module _ {S E : Type 0} (P : S → Type 0) where
  abbrev pub Keeps : {A : Type 0} → Action S E A → Type 0
  Keeps m = (s : S) → P s → P ((m s).0)

  pub Keeps->>= :
      {A B : Type 0} (m : Action S E A) (f : A → Action S E B)
      → Keeps m
      → ((a : A) → Keeps (f a))
      → Keeps (m >>= f)
  Keeps->>= {A} {B} m f k l s h = go (m s) (k s h)
    where
      go :
          (r : S × Result E A)
          → P (r.0)
          → P ((elim r.1 as (λ x. S × Result E B) [ ok a ↦ f a (r.0) | err e ↦ (r.0, err e) ]).0)
      go (s', ok a) u = l a s' u
      go (s', err e) u = u

  pub Keeps-guard :
      {A : Type 0} (b : Bool) (e : E) (m : Action S E A) → Keeps m → Keeps (guard b e >> m)
  Keeps-guard true e m k s h = k s h
  Keeps-guard false e m k s h = h
