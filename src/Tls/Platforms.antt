-- ===== src/Tls/Platforms.antt =====
-- pkg/attestation/attestation.go, pkg/atls/atls.go, pkg/atls/attestation_provider.go and
-- pkg/atls/certificate_verifier.go: the platforms, their object identifiers, and the nonce in a
-- server's name.
use cocos.Common.{
  ℕ, ◌-◌, ◌≡◌, refl, sym, ap, Bool, true, false, not, ◌&&◌, Option, none, some, List, [], ◌∷◌, ◌++◌,
  Bytes, length, length-append, take, drop, arith, ltb, leb, eqb, ◌==◌, bytes_comparable,
  if◌then◌else◌, ℤ,
}
use cocos.Common.Exec.{Result, ok}
use cocos.Common.Results.{◌>>=◌, ◌>>◌, guard, or_fail}
use cocos.Attestation.Hex.{Text, AreBytes, encode, decode, decode-encode}

-- PlatformType, an int with six constants
pub data PlatformType : Type 0 where
  snp vtpm snp_vtpm azure tdx no_cc : PlatformType
  other : ℤ → PlatformType

-- A check of CCPlatform: what it answers, and the platform it stands for.
abbrev pub first_platform : List (Bool × PlatformType) → PlatformType
first_platform [] = no_cc
first_platform ((answer, p) ∷ checks) = if answer then p else first_platform checks

-- What the machine answers to the checks.
pub record Devices : Type 0 where
  pub sev_device : Bool
  pub tpm : Bool
  pub tdx_device : Bool
  -- the status and the body of the metadata service, where it answers
  pub metadata : Option (ℕ × Option Bytes)

unfoldable pub sev_snp_guest_vtpm_exists : Devices → Bool
sev_snp_guest_vtpm_exists d = d.tpm && d.sev_device

abbrev pub has_body : Option Bytes → Bool
has_body none = false
has_body (some body) = ltb 0 (length body)

abbrev pub answered : Option (ℕ × Option Bytes) → Bool
answered none = false
answered (some (status, body)) = eqb status 200 && has_body body

unfoldable pub is_azure_vm : Devices → Bool
is_azure_vm d = if not d.tpm then false else answered d.metadata

unfoldable pub cc_platform : Devices → PlatformType
unfolding sev_snp_guest_vtpm_exists is_azure_vm
cc_platform d = first_platform (
    (sev_snp_guest_vtpm_exists d, snp_vtpm)
    ∷ (d.sev_device, snp)
    ∷ (is_azure_vm d, azure)
    ∷ (d.tdx_device, tdx)
    ∷ [])

-- asn1.ObjectIdentifier
abbrev pub Oid : Type 0
Oid = List ℕ

abbrev pub snp_vtpm_oid : Oid
snp_vtpm_oid = 2 ∷ 99999 ∷ 1 ∷ 0 ∷ []

abbrev pub azure_oid : Oid
azure_oid = 2 ∷ 99999 ∷ 1 ∷ 1 ∷ []

abbrev pub tdx_oid : Oid
tdx_oid = 2 ∷ 99999 ∷ 1 ∷ 2 ∷ []

-- `none` for the error of an unsupported platform
unfoldable pub oid : PlatformType → Option Oid
oid snp_vtpm = some snp_vtpm_oid
oid azure = some azure_oid
oid tdx = some tdx_oid
oid _ = none

unfoldable pub platform_type_from_oid : Oid → Option PlatformType
platform_type_from_oid id =
    if id == snp_vtpm_oid
    then some snp_vtpm
    else if id == azure_oid
    then some azure
    else if id == tdx_oid
    then some tdx
    else none

-- The identifier of a platform leads back to it.
pub platform_type_from_oid-oid :
    (p : PlatformType) (id : Oid) → oid p ≡ some id → platform_type_from_oid id ≡ some p
unfolding oid platform_type_from_oid
platform_type_from_oid-oid snp id h = absurd (ground arith)
platform_type_from_oid-oid vtpm id h = absurd (ground arith)
platform_type_from_oid-oid snp_vtpm id h =
    let e : snp_vtpm_oid ≡ id = ground arith in rw (sym e) refl
platform_type_from_oid-oid azure id h = let e : azure_oid ≡ id = ground arith in rw (sym e) refl
platform_type_from_oid-oid tdx id h = let e : tdx_oid ≡ id = ground arith in rw (sym e) refl
platform_type_from_oid-oid no_cc id h = absurd (ground arith)
platform_type_from_oid-oid (other n) id h = absurd (ground arith)

pub data NameError : Type 0 where
  invalid_server_name nonce_not_decoded invalid_nonce_length : NameError

abbrev pub nonce_length : ℕ
nonce_length = 64

-- ".nonce"
abbrev pub nonce_suffix : Text
nonce_suffix = 46 ∷ 110 ∷ 111 ∷ 110 ∷ 99 ∷ 101 ∷ []

unfoldable pub has_nonce_suffix : Text → Bool
has_nonce_suffix name =
    leb (length nonce_suffix) (length name)
    && (drop (length name - length nonce_suffix) name == nonce_suffix)

unfoldable pub extract_nonce_from_sni : Text → Result NameError Bytes
unfolding has_nonce_suffix
extract_nonce_from_sni name = do
  guard (leb (length nonce_suffix) (length name) && has_nonce_suffix name) invalid_server_name
  nonce ← or_fail nonce_not_decoded (decode (take (length name - length nonce_suffix) name))
  guard (eqb (length nonce) nonce_length) invalid_nonce_length
  ok nonce

take_prefix : (xs ys : Bytes) → take (length xs) (xs ++ ys) ≡ xs
take_prefix [] ys = refl
take_prefix (x ∷ xs) ys = ap (◌∷◌ x) (take_prefix xs ys)

drop_prefix : (xs ys : Bytes) → drop (length xs) (xs ++ ys) ≡ ys
drop_prefix [] ys = refl
drop_prefix (x ∷ xs) ys = drop_prefix xs ys

-- The server reads the client's nonce out of the name that the client made of it.
pub extract_nonce_from_sni-encode :
    (nonce : Bytes)
    → AreBytes nonce
    → length nonce ≡ nonce_length
    → extract_nonce_from_sni (encode nonce ++ nonce_suffix) ≡ ok nonce
unfolding extract_nonce_from_sni has_nonce_suffix
extract_nonce_from_sni-encode nonce small long =
    let text = encode nonce in
    let whole = length-append text nonce_suffix in
    let before : length (text ++ nonce_suffix) - 6 ≡ length text = omega (arith, whole) in
    let enough : leb 6 (length (text ++ nonce_suffix)) ≡ true = ground (arith, whole) in
    let right : eqb (length nonce) 64 ≡ true = ground (arith, long) in
    rw (before, enough, drop_prefix text nonce_suffix, take_prefix text nonce_suffix)
      (rw (decode-encode nonce small) (rw right refl))
