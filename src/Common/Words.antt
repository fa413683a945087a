-- ===== src/Common/Words.antt =====
-- Byte strings and signed integers.
use Prim.Native.Nat.{ℕ}
use mathlib.Core.Path.{◌≡◌, refl}
use mathlib.Core.Logic.{◌↔◌}
use mathlib.Core.Bool.{Bool, true, false, ◌&&◌}
use mathlib.Core.List.{List, [], ◌∷◌}
use native.Mathlib.Omega.{arith}
use cocos.Common.Tests.{Comparable, eqb}

-- []byte and [n]byte
abbrev pub Bytes : Type 0
Bytes = List ℕ

abbrev pub bytes_eqb : Bytes → Bytes → Bool
bytes_eqb [] [] = true
bytes_eqb (x ∷ xs) (y ∷ ys) = eqb x y && bytes_eqb xs ys
bytes_eqb _ _ = false

bytes_eqb_sound : (xs ys : Bytes) → bytes_eqb xs ys ≡ true → xs ≡ ys
bytes_eqb_sound [] [] h = refl
bytes_eqb_sound [] (y ∷ ys) h = cc
bytes_eqb_sound (x ∷ xs) [] h = cc
bytes_eqb_sound (x ∷ xs) (y ∷ ys) h = ground (arith, bytes_eqb_sound xs ys)

bytes_eqb_self : (xs : Bytes) → bytes_eqb xs xs ≡ true
bytes_eqb_self [] = refl
bytes_eqb_self (x ∷ xs) = ground (arith, bytes_eqb_self xs)

pub bytes_eqb_iff : (xs ys : Bytes) → (bytes_eqb xs ys ≡ true) ↔ (xs ≡ ys)
bytes_eqb_iff xs ys = (bytes_eqb_sound xs ys, λ e. rw e (bytes_eqb_self ys))

instance abbrev pub bytes_comparable : Comparable Bytes
bytes_comparable = record { equal = bytes_eqb; equal_iff = bytes_eqb_iff }

-- int: `negsuc n` is -(n + 1).
pub data ℤ : Type 0 where
  pos : ℕ → ℤ
  negsuc : ℕ → ℤ
