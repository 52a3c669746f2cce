-- ===== src/Exec.antt =====
-- Methods that change a state and may return an error. What was changed before an error stays, so the
-- state is returned beside the error too.
use broker_message.Base.{◌≡◌, refl, Result, ok, err}

abbrev pub Exec : Type 0 → Type 0 → Type 0 → Type 0
Exec S E A = S → S × Result E A

module _ {S E A : Type 0} where
  abbrev pub pure : A → Exec S E A
  pure a s = (s, ok a)

  abbrev pub raise : E → Exec S E A
  raise e s = (s, err e)

module _ {S E : Type 0} where
  abbrev pub modify : (S → S) → Exec S E (Unit {0})
  modify f s = (f s, ok tt)

  abbrev pub reads : {A : Type 0} → (S → A) → Exec S E A
  reads f s = (s, ok (f s))

module _ {S E A B : Type 0} where
  abbrev pub continue : Result E A → (A → Exec S E B) → Exec S E B
  continue (ok a) f s = f a s
  continue (err e) f s = (s, err e)

  infixl 5 ◌>>=◌ ◌>>◌
  abbrev pub ◌>>=◌ : Exec S E A → (A → Exec S E B) → Exec S E B
  ◌>>=◌ m f s = let (s', r) = m s in continue r f s'

  abbrev pub ◌>>◌ : Exec S E A → Exec S E B → Exec S E B
  m >> n = m >>= λ _. n

module _ {S E A B : Type 0} where
  -- The parts of a chain that returns a value.
  pub bind-eq-ok :
      (r : S × Result E A) (f : A → Exec S E B) {s' : S} {x : B}
      → continue r.1 f r.0 ≡ (s', ok x)
      → (s₁ : S) × (a : A) × (r ≡ (s₁, ok a)) × (f a s₁ ≡ (s', ok x))
  bind-eq-ok (s₁, ok a) f h = (s₁, a, refl, h)
  bind-eq-ok (s₁, err e) f h = cc
