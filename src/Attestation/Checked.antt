-- ===== src/Attestation/Checked.antt =====
-- cli/attestation_snp.go: the policies that parseAttestationConfig lets through.
use cocos.Common.{
  ℕ, sym, ◌≡◌, ◌≢◌, refl, ◌⊎◌, inl, inr, not, ◌&&◌, ◌||◌, Option, none, some, String, List, [], ◌∷◌,
  ◌++◌, Bytes, All, subst, length, arith, eqb, ◌==◌, bytes_comparable, string_comparable,
  Bool-cases,
}
use cocos.Common.Exec.{ok, err}
use cocos.Attestation.Flags.{
  SnpConfig, FlagError, Field, check_fields, policy_fields, hash_fields, null, validate_input,
  Flags, Parsed, parse_config, parse_hashes, parse_trusted_keys, then_parse, parse_uints, checked,
  parse_attestation_config, product_name_missing, wrong_length,
}

abbrev pub Fits : Field → Type 0
Fits (name, none, n) = Unit {0}
Fits (name, some b, n) = length b ≡ n

-- A field that is set has this many bytes.
abbrev pub HasSize : ℕ → Option Bytes → Type 0
HasSize n o = (b : Bytes) → o ≡ some b → length b ≡ n

Fits-HasSize : (name : String) (n : ℕ) (o : Option Bytes) → Fits (name, o, n) → HasSize n o
Fits-HasSize name n none f b e = absurd (ground arith)
Fits-HasSize name n (some d) f b e = let same : d ≡ b = ground arith in rw (sym same) f

check_fields-All : (fs : List Field) → check_fields fs ≡ none → All Fits fs
check_fields-All [] h = tt
check_fields-All ((name, none, n) ∷ fs) h = (tt, check_fields-All fs h)
check_fields-All ((name, some b, n) ∷ fs) h = elim (Bool-cases (eqb (length b) n)) [
  | inl same ↦ (ground arith, check_fields-All fs (rw same at h))
  | inr other ↦ absurd (let bad : some (wrong_length name) ≡ none = rw other at h in ground arith)
]

All-append-left : (xs ys : List Field) → All Fits (xs ++ ys) → All Fits xs × All Fits ys
All-append-left [] ys a = (tt, a)
All-append-left (x ∷ xs) ys a = let (l, r) = All-append-left xs ys a.1 in ((a.0, l), r)

hashes-All :
    (name : String) (hs : List Bytes) → All Fits (hash_fields name hs) → All (λ h. length h ≡ 48) hs
hashes-All name [] a = tt
hashes-All name (h ∷ hs) a = (a.0, hashes-All name hs a.1)

-- What the flags may say.
abbrev pub IsValid : SnpConfig → Type 0
IsValid c =
    (c.cabundle_paths ≡ [])
    × ((c.cabundles ≡ []) ⊎ (c.product_line ≢ ""))
    × HasSize 64 c.report_data
    × HasSize 32 c.host_data
    × HasSize 16 c.family_id
    × HasSize 16 c.image_id
    × HasSize 32 c.report_id
    × HasSize 32 c.report_id_ma
    × HasSize 48 c.measurement
    × HasSize 64 c.chip_id
    × All (λ h. length h ≡ 48) c.trusted_author_key_hashes
    × All (λ h. length h ≡ 48) c.trusted_id_key_hashes

validate_input-IsValid : (c : SnpConfig) → validate_input c ≡ none → IsValid c
unfolding validate_input
validate_input-IsValid c h =
    let author_fields = hash_fields "trusted_author_key_hash" c.trusted_author_key_hashes in
    let id_fields = hash_fields "trusted_id_key_hash" c.trusted_id_key_hashes in
    let (fits, others) =
      All-append-left (policy_fields c) (author_fields ++ id_fields)
        (check_fields-All (policy_fields c ++ author_fields ++ id_fields) fields_checked) in
    let (authors, ids) = All-append-left author_fields id_fields others in
    (
      no_paths c.cabundle_paths refl,
      bundles c.cabundles refl,
      Fits-HasSize "report_data" 64 c.report_data fits.0,
      Fits-HasSize "host_data" 32 c.host_data fits.1.0,
      Fits-HasSize "family_id" 16 c.family_id fits.1.1.0,
      Fits-HasSize "image_id" 16 c.image_id fits.1.1.1.0,
      Fits-HasSize "report_id" 32 c.report_id fits.1.1.1.1.0,
      Fits-HasSize "report_id_ma" 32 c.report_id_ma fits.1.1.1.1.1.0,
      Fits-HasSize "measurement" 48 c.measurement fits.1.1.1.1.1.1.0,
      Fits-HasSize "chip_id" 64 c.chip_id fits.1.1.1.1.1.1.1.0,
      hashes-All "trusted_author_key_hash" c.trusted_author_key_hashes authors,
      hashes-All "trusted_id_key_hash" c.trusted_id_key_hashes ids,
    )
  where
    no_paths : (l : List String) → c.cabundle_paths ≡ l → c.cabundle_paths ≡ []
    no_paths [] e = e
    no_paths (p ∷ ps) e =
        absurd (let bad : some product_name_missing ≡ none = rw e at h in ground arith)

    bundles : (l : List String) → c.cabundles ≡ l → (c.cabundles ≡ []) ⊎ (c.product_line ≢ "")
    bundles [] e = inl e
    bundles (b ∷ bs) e =
        inr (λ n. absurd (let bad = rw (no_paths c.cabundle_paths refl, e, n) at h in ground arith))

    fields_checked :
        check_fields (
          policy_fields c
          ++ hash_fields "trusted_author_key_hash" c.trusted_author_key_hashes
          ++ hash_fields "trusted_id_key_hash" c.trusted_id_key_hashes)
        ≡ none
    fields_checked =
        elim (Bool-cases
          (not (null c.cabundle_paths) || not (null c.cabundles) && c.product_line == "")) [
            | inl bad ↦
                absurd (let no : some product_name_missing ≡ none = rw bad at h in ground arith)
            | inr fine ↦ rw fine at h
          ]

checked-IsValid :
    (o : Option FlagError) (c d : SnpConfig) → validate_input c ≡ o → checked o c ≡ ok d → IsValid d
checked-IsValid none c d v h =
    let same : c ≡ d = ground arith in subst IsValid same (validate_input-IsValid c v)
checked-IsValid (some e) c d v h = absurd (ground arith)

-- A policy that parseAttestationConfig lets through has no paths of CA bundles, whether or not the
-- product's name is set; with CA bundles its product has a name; and what is set of its fields has
-- its size in bytes: the report data 64, the host data 32, the family and image IDs 16, the report
-- ID and that of the migration agent 32, the measurement 48, the chip ID 64, each trusted key's
-- hash 48.
pub parse_attestation_config-IsValid :
    (f : Flags) (c d : SnpConfig) → parse_attestation_config f c ≡ ok d → IsValid d
unfolding parse_attestation_config
parse_attestation_config-IsValid f c d h =
    last
      (then_parse
        (then_parse (then_parse (parse_config f c) (parse_hashes f)) (parse_trusted_keys f))
        (parse_uints f))
      h
  where
    last : (r : Parsed) → then_parse r (λ e. checked (validate_input e) e) ≡ ok d → IsValid d
    last (err e) k = absurd (ground arith)
    last (ok e) k = checked-IsValid (validate_input e) e d refl k
