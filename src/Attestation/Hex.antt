-- ===== src/Attestation/Hex.antt =====
-- encoding/hex and strconv.ParseInt, as pkg/attestation/vtpm and the command line use them. A Go
-- string is its bytes.
use cocos.Common.{
  ℕ, zero, suc, ◌+◌, ◌-◌, ◌*◌, ◌/◌, ◌%◌, ◌<◌, ◌≡◌, refl, ap, Bool, ◌&&◌, Option, none, some, [],
  ◌∷◌, Bytes, All, ℤ, pos, negsuc, arith, ltb, leb, eqb, ◌^◌, if◌then◌else◌,
}

-- Text is the bytes of a string.
abbrev pub Text : Type 0
Text = Bytes

abbrev pub digit : ℕ → ℕ
digit n = if ltb n 10 then 48 + n else 87 + n

-- hex.EncodeToString
unfoldable pub encode : Bytes → Text
encode [] = []
encode (b ∷ bs) = digit (b / 16) ∷ digit (b % 16) ∷ encode bs

abbrev pub within : ℕ → ℕ → ℕ → Bool
within low high c = leb low c && leb c high

abbrev pub nibble : ℕ → Option ℕ
nibble c =
    if within 48 57 c
    then some (c - 48)
    else if within 97 102 c
    then some (c - 87)
    else if within 65 70 c
    then some (c - 55)
    else none

abbrev pub add_byte : Option ℕ → Option ℕ → Option Bytes → Option Bytes
add_byte none y rest = none
add_byte (some x) none rest = none
add_byte (some x) (some y) none = none
add_byte (some x) (some y) (some bs) = some ((x * 16 + y) ∷ bs)

-- hex.DecodeString, `none` for an error.
unfoldable pub decode : Text → Option Bytes
decode [] = some []
decode (x ∷ []) = none
decode (x ∷ y ∷ l) = add_byte (nibble x) (nibble y) (decode l)

-- Bytes are below 256.
abbrev pub AreBytes : Bytes → Type 0
AreBytes bs = All (λ b. b < 256) bs

nibble-digit : (n : ℕ) → n < 16 → nibble (digit n) ≡ some n
nibble-digit n h = ground arith

pub decode-encode : (bs : Bytes) → AreBytes bs → decode (encode bs) ≡ some bs
unfolding decode encode
decode-encode [] h = refl
decode-encode (b ∷ bs) (small, h) =
    let high = nibble-digit (b / 16) (omega (arith, small)) in
    let low = nibble-digit (b % 16) (omega arith) in
    let whole : b / 16 * 16 + b % 16 ≡ b = omega arith in
    rw (high, low, decode-encode bs h) (ap (λ c. some (c ∷ bs)) whole)

-- The value of decimal digits, after those that gave `n`.
abbrev pub digits : ℕ → Text → Option ℕ
digits n [] = some n
digits n (c ∷ cs) =
    let rest = digits (n * 10 + (c - 48)) cs in if within 48 57 c then rest else none

abbrev pub at_least_one_digit : Text → Option ℕ
at_least_one_digit [] = none
at_least_one_digit (c ∷ cs) = digits 0 (c ∷ cs)

abbrev pub positive : Option ℕ → Option ℤ
positive none = none
positive (some n) = if ltb n (2 ^ 31) then some (pos n) else none

abbrev pub negative : Option ℕ → Option ℤ
negative none = none
negative (some zero) = some (pos 0)
negative (some (suc n)) = if ltb n (2 ^ 31) then some (negsuc n) else none

-- strconv.ParseInt(text, 10, 32): a sign, and digits, within 32 bits.
unfoldable pub parse_int32 : Text → Option ℤ
parse_int32 [] = none
parse_int32 (c ∷ cs) =
    if eqb c 43
    then positive (at_least_one_digit cs)
    else if eqb c 45
    then negative (at_least_one_digit cs)
    else positive (digits 0 (c ∷ cs))

-- uint32(index)
abbrev pub to_uint32 : ℤ → ℕ
to_uint32 (pos n) = n % 2 ^ 32
to_uint32 (negsuc n) = (2 ^ 32 - suc n % 2 ^ 32) % 2 ^ 32
