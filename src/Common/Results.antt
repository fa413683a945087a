-- ===== src/Common/Results.antt =====
-- Functions that return a value or an error: the error that comes first is returned.
use mathlib.Core.Path.{◌≡◌, refl, ap}
use mathlib.Core.Bool.{Bool, true, false}
use mathlib.Core.Option.{Option, none, some}
use cocos.Common.Exec.{Result, ok, err}
use native.Mathlib.Omega.{arith}

module _ {ℓ} {E : Type ℓ} where
  infixl 5 ◌>>=◌ ◌>>◌
  abbrev pub ◌>>=◌ {ι κ} :
      {X : Type ι} {Y : Type κ} (r : Result E X) (next : X → Result E Y) → Result E Y
  ◌>>=◌ (err e) next = err e
  ◌>>=◌ (ok x) next = next x

  abbrev pub ◌>>◌ {κ} : {Y : Type κ} (done : Result E (Unit {0})) (next : Result E Y) → Result E Y
  ◌>>◌ done next = ◌>>=◌ done λ u. next

  -- if !test { return error }
  abbrev pub guard : (test : Bool) (error : E) → Result E (Unit {0})
  guard false error = err error
  guard true error = ok tt

  -- if err := call; err != nil { return wrap(err) }
  abbrev pub check {ι} : {I : Type ι} → (I → E) → Option I → Result E (Unit {0})
  check wrap none = ok tt
  check wrap (some e) = err (wrap e)

  -- a, err := call; if err != nil { return wrap(err) }
  abbrev pub attempt {ι κ} : {I : Type ι} {A : Type κ} → (I → E) → Result I A → Result E A
  attempt wrap (ok a) = ok a
  attempt wrap (err e) = err (wrap e)

  abbrev pub or_fail {κ} : {A : Type κ} → E → Option A → Result E A
  or_fail e none = err e
  or_fail e (some a) = ok a

  -- What a success went through.
  pub >>=-eq-ok {ι κ} :
      {X : Type ι} {Y : Type κ} (r : Result E X) (next : X → Result E Y) {y : Y}
      → ◌>>=◌ r next ≡ ok y
      → (x : X) × (r ≡ ok x) × (next x ≡ ok y)
  >>=-eq-ok (err e) next h = absurd (ground arith)
  >>=-eq-ok (ok x) next h = (x, refl, h)

  pub guard-eq-ok : (b : Bool) (e : E) → guard b e ≡ ok tt → b ≡ true
  guard-eq-ok true e h = refl
  guard-eq-ok false e h = absurd (ground arith)

  pub check-eq-ok {ι} : {I : Type ι} (wrap : I → E) (o : Option I) → check wrap o ≡ ok tt → o ≡ none
  check-eq-ok wrap none h = refl
  check-eq-ok wrap (some e) h = absurd (ground arith)

  pub attempt-eq-ok {ι κ} :
      {I : Type ι} {A : Type κ} (wrap : I → E) (r : Result I A) {a : A}
      → attempt wrap r ≡ ok a
      → r ≡ ok a
  attempt-eq-ok wrap (ok a) h = ground (arith, h)
  attempt-eq-ok wrap (err e) h = absurd (ground arith)

  pub ok-injective {κ} : {A : Type κ} (a b : A) → ◌≡◌ {A = Result E A} (ok a) (ok b) → a ≡ b
  ok-injective a b h = ap (λ r. elim r [ ok c ↦ c | err e ↦ a ]) h
