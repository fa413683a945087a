-- ===== src/Common/Maps.antt =====
-- Go's maps: finite maps as association lists with one entry for a key.
use Prim.Native.Nat.{suc, ◌≤◌}
use mathlib.Core.Path.{◌≡◌, refl}
use mathlib.Core.List.{List, [], ◌∷◌}
use mathlib.Core.Option.{Option, none, some}
use native.Mathlib.Omega.{arith}
use cocos.Common.Tests.{Comparable, ◌==◌, if◌then◌else◌, is_some}
use cocos.Common.Lists.{length}

abbrev pub Assoc {ℓ κ} : Type ℓ → Type κ → Type (ℓ ⊔ κ)
Assoc K V = List (K × V)

module _ {ℓ κ} {K : Type ℓ} {V : Type κ} ⦃e : Comparable K⦄ where
  -- v, ok := entries[k]
  unfoldable pub lookup : K → Assoc K V → Option V
  lookup k [] = none
  lookup k ((key, v) ∷ entries) = if key == k then some v else lookup k entries

  -- entries[k] = v
  unfoldable pub insert : K → V → Assoc K V → Assoc K V
  insert k v [] = (k, v) ∷ []
  insert k v ((key, held) ∷ entries) =
      if key == k then (k, v) ∷ entries else (key, held) ∷ insert k v entries

  -- delete(entries, k)
  unfoldable pub delete : K → Assoc K V → Assoc K V
  delete k [] = []
  delete k ((key, held) ∷ entries) =
      let rest = delete k entries in if key == k then rest else (key, held) ∷ rest

  pub lookup-insert :
      (k key : K) (v : V) (entries : Assoc K V)
      → lookup key (insert k v entries) ≡ (if k == key then some v else lookup key entries)
  unfolding lookup insert
  lookup-insert k key v [] = refl
  lookup-insert k key v ((here, held) ∷ entries) = ground (
    arith,
    e.equal_iff k key,
    e.equal_iff here k,
    e.equal_iff here key,
    lookup-insert k key v entries,
  )

  pub lookup-delete :
      (k key : K) (entries : Assoc K V)
      → lookup key (delete k entries) ≡ (if k == key then none else lookup key entries)
  unfolding lookup delete
  lookup-delete k key [] = ground arith
  lookup-delete k key ((here, held) ∷ entries) = ground (
    arith,
    e.equal_iff k key,
    e.equal_iff here k,
    e.equal_iff here key,
    lookup-delete k key entries,
  )

  -- Assigning to a key changes nothing at the others.
  pub delete-insert :
      (k : K) (v : V) (entries : Assoc K V) → delete k (insert k v entries) ≡ delete k entries
  unfolding insert delete
  delete-insert k v [] = ground (arith, e.equal_iff k k)
  delete-insert k v ((here, held) ∷ entries) =
      ground (arith, e.equal_iff k k, e.equal_iff here k, delete-insert k v entries)

  -- A new key makes the map one longer; a known key keeps its length.
  pub length-insert :
      (k : K) (v : V) (entries : Assoc K V)
      → length (insert k v entries)
        ≡ (if is_some (lookup k entries) then length entries else suc (length entries))
  unfolding lookup insert
  length-insert k v [] = refl
  length-insert k v ((here, held) ∷ entries) = ground (arith, length-insert k v entries)

  pub length-delete : (k : K) (entries : Assoc K V) → length (delete k entries) ≤ length entries
  unfolding delete
  length-delete k [] = omega arith
  length-delete k ((here, held) ∷ entries) = ground (arith, length-delete k entries)
