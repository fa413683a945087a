-- ===== src/Attestation/Pcrs.antt =====
-- pkg/attestation/attestation.go and pkg/attestation/vtpm/vtpm.go: the PCR values of a policy, and
-- the check of a quote against them. A map of Go is `none` where it is nil. A range over a map goes
-- through its entries in the order of the list.
use cocos.Common.{
  ℕ, ◌≡◌, refl, ◌↔◌, inl, inr, Option, none, some, List, [], ◌∷◌, Bytes, All, ℤ, arith, Assoc,
  lookup, ◌==◌, nat_comparable, bytes_comparable, if◌then◌else◌, Bool-cases,
}
use cocos.Common.Exec.{Result, ok, err}
use cocos.Attestation.Hex.{Text, decode, parse_int32, to_uint32}

abbrev pub GoMap : Type 0
GoMap = Option (Assoc Text Text)

abbrev pub entries : GoMap → Assoc Text Text
entries none = []
entries (some m) = m

pub record PcrValues : Type 0 where
  pub sha256 : GoMap
  pub sha384 : GoMap
  pub sha1 : GoMap

-- quote.Pcrs.Hash
pub data HashAlgo : Type 0 where
  sha1_bank sha256_bank sha384_bank other_bank : HashAlgo

pub record Quote : Type 0 where
  pub hash : HashAlgo
  pub pcrs : Assoc ℕ Bytes

pub data PcrError : Type 0 where
  no_hash_algo bad_index bad_value : PcrError
  -- the bank, the index and the value that was found
  mismatch : HashAlgo → ℤ → Bytes → PcrError

-- The map for a quote's algorithm.
abbrev pub pcr_map : PcrValues → HashAlgo → Result PcrError GoMap
pcr_map p sha256_bank = ok p.sha256
pcr_map p sha384_bank = ok p.sha384
pcr_map p sha1_bank = ok p.sha1
pcr_map p other_bank = err no_hash_algo

-- A missing key reads as nil.
abbrev pub or_nil : Option Bytes → Bytes
or_nil none = []
or_nil (some b) = b

abbrev pub pcr_at : ℤ → Assoc ℕ Bytes → Bytes
pcr_at i pcrs = or_nil (lookup (to_uint32 i) pcrs)

abbrev pub check_parsed :
    Quote → Option ℤ → Option Bytes → Result PcrError (Unit {0}) → Result PcrError (Unit {0})
check_parsed q none value later = err bad_index
check_parsed q (some i) none later = err bad_value
check_parsed q (some i) (some v) later =
    if pcr_at i q.pcrs == v then later else err (mismatch q.hash i (pcr_at i q.pcrs))

abbrev pub check_entries : Quote → Assoc Text Text → Result PcrError (Unit {0})
check_entries q [] = ok tt
check_entries q ((i, v) ∷ m) = check_parsed q (parse_int32 i) (decode v) (check_entries q m)

abbrev pub check_quote : Quote → Result PcrError GoMap → Result PcrError (Unit {0})
check_quote q (err e) = err e
check_quote q (ok m) = check_entries q (entries m)

abbrev pub and_then :
    Result PcrError (Unit {0}) → Result PcrError (Unit {0}) → Result PcrError (Unit {0})
and_then (err e) later = err e
and_then (ok u) later = later

unfoldable pub check_expected_pcr_values : List Quote → PcrValues → Result PcrError (Unit {0})
check_expected_pcr_values [] p = ok tt
check_expected_pcr_values (q ∷ qs) p =
    and_then (check_quote q (pcr_map p q.hash)) (check_expected_pcr_values qs p)

-- An entry of the policy agrees with a quote.
abbrev pub Agrees : Quote → Text × Text → Type 0
Agrees q (i, v) =
    (index : ℤ) × (parse_int32 i ≡ some index) × (decode v ≡ some (pcr_at index q.pcrs))

abbrev pub Expected : PcrValues → Quote → Type 0
Expected p q = (m : GoMap) × (pcr_map p q.hash ≡ ok m) × All (Agrees q) (entries m)

check_parsed-Agrees :
    (q : Quote) (i v : Text) (later : Result PcrError (Unit {0}))
    → (check_parsed q (parse_int32 i) (decode v) later ≡ ok tt)
      ↔ (Agrees q (i, v) × (later ≡ ok tt))
check_parsed-Agrees q i v later = (there (parse_int32 i) (decode v) refl refl, λ h. back h.0 h.1)
  where
    there :
        (p : Option ℤ) (d : Option Bytes)
        → parse_int32 i ≡ p
        → decode v ≡ d
        → check_parsed q p d later ≡ ok tt
        → Agrees q (i, v) × (later ≡ ok tt)
    there none d e f h = absurd (ground arith)
    there (some index) none e f h = absurd (ground arith)
    there (some index) (some value) e f h = elim (Bool-cases (pcr_at index q.pcrs == value)) [
      | inl same ↦
          let equal = (bytes_comparable.equal_iff (pcr_at index q.pcrs) value).0 same in
          ((index, e, rw equal f), rw same at h)
      | inr other ↦ absurd (
          let bad : err (mismatch q.hash index (pcr_at index q.pcrs)) ≡ ok tt = rw other at h in
          ground arith)
    ]

    back : Agrees q (i, v) → later ≡ ok tt → check_parsed q (parse_int32 i) (decode v) later ≡ ok tt
    back (index, e, f) l =
        let same =
          (bytes_comparable.equal_iff (pcr_at index q.pcrs) (pcr_at index q.pcrs)).1 refl in
        rw (e, f, same) l

check_entries-Agrees :
    (q : Quote) (m : Assoc Text Text) → (check_entries q m ≡ ok tt) ↔ All (Agrees q) m
check_entries-Agrees q [] = (λ h. tt, λ h. refl)
check_entries-Agrees q ((i, v) ∷ m) =
    let here = check_parsed-Agrees q i v (check_entries q m) in
    let below = check_entries-Agrees q m in
    (λ h. ((here.0 h).0, below.0 (here.0 h).1), λ h. here.1 (h.0, below.1 h.1))

check_quote-Expected :
    (p : PcrValues) (q : Quote) → (check_quote q (pcr_map p q.hash) ≡ ok tt) ↔ Expected p q
check_quote-Expected p q = (there (pcr_map p q.hash) refl, λ h. back h)
  where
    there :
        (r : Result PcrError GoMap) → pcr_map p q.hash ≡ r → check_quote q r ≡ ok tt → Expected p q
    there (err e) s h = absurd (ground arith)
    there (ok m) s h = (m, s, (check_entries-Agrees q (entries m)).0 h)

    back : Expected p q → check_quote q (pcr_map p q.hash) ≡ ok tt
    back (m, s, a) = rw s ((check_entries-Agrees q (entries m)).1 a)

and_then-ok :
    (r s : Result PcrError (Unit {0})) → (and_then r s ≡ ok tt) ↔ ((r ≡ ok tt) × (s ≡ ok tt))
and_then-ok (err e) s = (λ h. absurd (ground arith), λ h. absurd (let bad = h.0 in ground arith))
and_then-ok (ok tt) s = (λ h. (refl, h), λ h. h.1)

-- checkExpectedPCRValues succeeds exactly when every quote is of SHA-1, SHA-256 or SHA-384, and
-- every entry that the policy has for that algorithm is an index with the hexadecimal text of the
-- quote's value there.
pub check_expected_pcr_values_iff :
    (qs : List Quote) (p : PcrValues)
    → (check_expected_pcr_values qs p ≡ ok tt) ↔ All (Expected p) qs
unfolding check_expected_pcr_values
check_expected_pcr_values_iff [] p = (λ h. tt, λ h. refl)
check_expected_pcr_values_iff (q ∷ qs) p =
    let both = and_then-ok (check_quote q (pcr_map p q.hash)) (check_expected_pcr_values qs p) in
    let here = check_quote-Expected p q in
    let below = check_expected_pcr_values_iff qs p in
    (λ h. (here.0 (both.0 h).0, below.0 (both.0 h).1), λ h. both.1 (here.1 h.0, below.1 h.1))
