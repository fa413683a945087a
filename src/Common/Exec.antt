-- ===== src/Common/Exec.antt =====
-- Methods that mutate their receiver and may return an error: what was written before the early
-- return stays written, so that the state comes back beside the error.
use mathlib.Core.Path.{◌≡◌, refl}
use mathlib.Core.Bool.{Bool, true, false}
use mathlib.Core.Option.{Option, none, some}

pub data Result {ℓ κ} (E : Type ℓ) (A : Type κ) : Type (ℓ ⊔ κ) where
  ok : A → Result E A
  err : E → Result E A

abbrev pub Exec : Type 0 → Type 0 → Type 0 → Type 0
Exec S E A = S → Result E A × S

module _ {S E : Type 0} where
  infixl 5 ◌>>=◌ ◌>>◌
  abbrev pub continue : {A B : Type 0} → Result E A → (A → Exec S E B) → Exec S E B
  continue (ok a) f s = f a s
  continue (err x) f s = (err x, s)

  abbrev pub ◌>>=◌ : {A B : Type 0} → Exec S E A → (A → Exec S E B) → Exec S E B
  ◌>>=◌ m f s = let (r, s') = m s in continue r f s'

  abbrev pub ◌>>◌ : {A B : Type 0} → Exec S E A → Exec S E B → Exec S E B
  ◌>>◌ m n s = let (r, s') = m s in continue r (λ _. n) s'

  abbrev pub pure : {A : Type 0} → A → Exec S E A
  pure a s = (ok a, s)

  abbrev pub throw : {A : Type 0} → E → Exec S E A
  throw x s = (err x, s)

  abbrev pub gets : {A : Type 0} → (S → A) → Exec S E A
  gets f s = (ok (f s), s)

  abbrev pub modify : (S → S) → Exec S E (Unit {0})
  modify f s = (ok tt, f s)

  -- if !test { return error }
  abbrev pub guard : Bool → E → Exec S E (Unit {0})
  guard true x s = (ok tt, s)
  guard false x s = (err x, s)

  -- if err := call; err != nil { return wrap(err) }
  abbrev pub check : {I : Type 0} → Option I → (I → E) → Exec S E (Unit {0})
  check none wrap s = (ok tt, s)
  check (some x) wrap s = (err (wrap x), s)

-- `Q` holds of the value and the state of a run that succeeds, and `R` of the state of one that
-- fails.
abbrev pub After {ℓ} : {S E A : Type 0} → (A → S → Type ℓ) → (S → Type ℓ) → Result E A × S → Type ℓ
After Q R (ok a, s) = Q a s
After Q R (err x, s) = R s

-- The same of both.
abbrev pub Keeps {ℓ} : {S E A : Type 0} → (S → Type ℓ) → Result E A × S → Type ℓ
Keeps P = After (λ _ s. P s) P

module _ {ℓ} {S E : Type 0} (R : S → Type ℓ) where
  pub After-continue :
      {A B : Type 0} (Q : A → S → Type ℓ) (Q' : B → S → Type ℓ) (m : Result E A × S)
      (f : A → Exec S E B)
      → After Q R m
      → ((a : A) (s : S) → Q a s → After Q' R (f a s))
      → After Q' R (continue m.0 f m.1)
  After-continue Q Q' (ok a, s) f h k = k a s h
  After-continue Q Q' (err x, s) f h k = h

  -- A check that passes leaves the state as it was.
  pub After-check :
      {I B : Type 0} (Q' : B → S → Type ℓ) (o : Option I) (wrap : I → E) (s : S)
      (f : Unit {0} → Exec S E B)
      → R s
      → After Q' R (f tt s)
      → After Q' R (continue (check o wrap s).0 f (check o wrap s).1)
  After-check Q' none wrap s f r h = h
  After-check Q' (some x) wrap s f r h = r

  pub After-check_last :
      {I : Type 0} (Q' : Unit {0} → S → Type ℓ) (o : Option I) (wrap : I → E) (s : S)
      → R s
      → Q' tt s
      → After Q' R (check o wrap s)
  After-check_last Q' none wrap s r h = h
  After-check_last Q' (some x) wrap s r h = r

  pub After-guard :
      {B : Type 0} (Q' : B → S → Type ℓ) (b : Bool) (x : E) (s : S) (f : Unit {0} → Exec S E B)
      → R s
      → (b ≡ true → After Q' R (f tt s))
      → After Q' R (continue (guard b x s).0 f (guard b x s).1)
  After-guard Q' true x s f r h = h refl
  After-guard Q' false x s f r h = r

module _ {ℓ} {S E A : Type 0} where
  pub Keeps-state : (P : S → Type ℓ) (m : Result E A × S) → Keeps P m → P m.1
  Keeps-state P (ok a, s) h = h
  Keeps-state P (err x, s) h = h
