-- ===== src/Attestation/Reports.antt =====
-- pkg/attestation/quoteprovider/sev.go: how a SEV-SNP report is verified against a policy. `P` is a
-- report, `S` the rest of a policy; go-sev-guest and the file system are the fields of `SevGuest`.
use cocos.Common.{
  ◌≡◌, refl, sym, inl, inr, Bool, true, false, ◌||◌, Option, none, some, String, [], ◌∷◌, Bytes,
  arith, ◌==◌, string_comparable, if◌then◌else◌, Bool-cases,
}
use cocos.Common.Exec.{Result, ok, err}

pub record CertificateChain : Type 0 where
  pub ark_cert : Bytes
  pub ask_cert : Bytes
  pub vcek_cert : Bytes

pub record SnpAttestation (P : Type 0) : Type 0 where
  pub report : P
  pub certificate_chain : Option CertificateChain

pub data ProductName : Type 0 where
  milan genoa unknown_product : ProductName

-- check.Config: the policy and the root of trust.
pub record CheckConfig (S : Type 0) : Type 0 where
  pub report_data : Bytes
  pub product : Option ProductName
  pub product_line : String
  pub others : S

pub data ReportError : Type 0 where
  no_root_options product_line_unknown fill_failed not_verified no_policy not_validated :
      ReportError
  -- a nil attestation
  panic : ReportError

-- What the directory of a product's certificates has.
pub data Bundle : Type 0 where
  no_bundle : Bundle
  bad_bundle : Bundle
  bundle : Bytes → Bytes → Bundle

pub record SevGuest (P S : Type 0) : Type 0 where
  pub root_of_trust_to_options : CheckConfig S → Bool
  pub policy_to_options : CheckConfig S → Bool
  pub user_home_dir : Bool
  pub bundle_of : String → Bundle
  -- verify.SnpAttestation and validate.SnpAttestation
  pub verify_snp : SnpAttestation P → CheckConfig S → ProductName → Bool
  pub validate_snp : SnpAttestation P → CheckConfig S → Bool

-- GetProductName
unfoldable pub get_product_name : String → ProductName
get_product_name line =
    if line == "Milan" then milan else if line == "Genoa" then genoa else unknown_product

abbrev pub or_empty : Option CertificateChain → CertificateChain
or_empty none = record { ark_cert = []; ask_cert = []; vcek_cert = [] }
or_empty (some c) = c

abbrev pub is_empty : Bytes → Bool
is_empty [] = true
is_empty (b ∷ bs) = false

abbrev pub product_of : Option ProductName → String → Option ProductName
product_of (some name) line = some name
product_of none line = elim (get_product_name line) [
  | milan ↦ some milan
  | genoa ↦ some genoa
  | unknown_product ↦ none
]

-- if len(reportData) != 0 { config.Policy.ReportData = reportData }
abbrev pub set_report_data : {S : Type 0} → Bytes → CheckConfig S → CheckConfig S
set_report_data [] cfg = cfg
set_report_data (b ∷ bs) cfg = record cfg { report_data = b ∷ bs }

module _ {P S : Type 0} (g : SevGuest P S) where
  abbrev pub with_bundle : CertificateChain → Bundle → Option CertificateChain
  with_bundle c no_bundle = some c
  with_bundle c bad_bundle = none
  with_bundle c (bundle ark ask) = some (record c { ark_cert = ark; ask_cert = ask })

  -- fillInAttestationLocal, `none` for an error.
  abbrev pub fill_chain : CheckConfig S → CertificateChain → Option CertificateChain
  fill_chain cfg c =
      if is_empty c.ask_cert || is_empty c.ark_cert
      then (if g.user_home_dir then with_bundle c (g.bundle_of cfg.product_line) else none)
      else some c

  abbrev pub verify_filled :
      CheckConfig S
      → SnpAttestation P
      → ProductName
      → Option CertificateChain
      → Result ReportError (SnpAttestation P)
  verify_filled cfg a name none = err fill_failed
  verify_filled cfg a name (some c) =
      let filled : SnpAttestation P = record a { certificate_chain = some c } in
      if g.verify_snp filled cfg name then ok filled else err not_verified

  abbrev pub verify_product :
      CheckConfig S → SnpAttestation P → Option ProductName → Result ReportError (SnpAttestation P)
  verify_product cfg a none = err product_line_unknown
  verify_product cfg a (some name) =
      verify_filled cfg a name (fill_chain cfg (or_empty a.certificate_chain))

  -- verifyReport, with the attestation as its chain was filled.
  unfoldable pub verify_report :
      CheckConfig S → SnpAttestation P → Result ReportError (SnpAttestation P)
  verify_report cfg a =
      if g.root_of_trust_to_options cfg
      then verify_product cfg a (product_of cfg.product cfg.product_line)
      else err no_root_options

  unfoldable pub validate_report : CheckConfig S → SnpAttestation P → Result ReportError (Unit {0})
  validate_report cfg a =
      if g.policy_to_options cfg
      then (if g.validate_snp a cfg then ok tt else err not_validated)
      else err no_policy

  abbrev pub then_validate :
      CheckConfig S → Result ReportError (SnpAttestation P) → Result ReportError (Unit {0})
  then_validate cfg (err e) = err e
  then_validate cfg (ok a) = validate_report cfg a

  unfoldable pub verify_and_validate :
      CheckConfig S → SnpAttestation P → Result ReportError (Unit {0})
  unfolding verify_report validate_report
  verify_and_validate cfg a = then_validate cfg (verify_report cfg a)

  -- VerifyAttestationReportTLS: the answer, and the policy, into which the report data is written.
  unfoldable pub verify_attestation_report_tls :
      Option (SnpAttestation P)
      → Bytes
      → CheckConfig S
      → Result ReportError (Unit {0}) × CheckConfig S
  unfolding verify_and_validate
  verify_attestation_report_tls none data' cfg = (err panic, cfg)
  verify_attestation_report_tls (some a) data' cfg =
      let cfg' = set_report_data data' cfg in
      (verify_and_validate cfg' (record a { certificate_chain = none }), cfg')

  filled_report :
      (cfg : CheckConfig S) (a b : SnpAttestation P)
      → verify_report cfg a ≡ ok b
      → (name : ProductName) × (b.report ≡ a.report) × (g.verify_snp b cfg name ≡ true)
  unfolding verify_report
  filled_report cfg a b h = elim (Bool-cases (g.root_of_trust_to_options cfg)) [
    | inr bad ↦ absurd (let e : err no_root_options ≡ ok b = rw bad at h in ground arith)
    | inl fine ↦ named (product_of cfg.product cfg.product_line) (rw fine at h)
  ]
    where
      checked :
          (name : ProductName) (o : Option CertificateChain)
          → verify_filled cfg a name o ≡ ok b
          → (name : ProductName) × (b.report ≡ a.report) × (g.verify_snp b cfg name ≡ true)
      checked name none k = absurd (ground arith)
      checked name (some c) k =
          elim (Bool-cases (g.verify_snp (record a { certificate_chain = some c }) cfg name)) [
            | inr bad ↦ absurd (let e : err not_verified ≡ ok b = rw bad at k in ground arith)
            | inl fine ↦
                let same : record a { certificate_chain = some c } ≡ b =
                  ground (arith, rw fine at k) in
                rw (sym same) (name, refl, fine)
          ]

      named :
          (o : Option ProductName)
          → verify_product cfg a o ≡ ok b
          → (name : ProductName) × (b.report ≡ a.report) × (g.verify_snp b cfg name ≡ true)
      named none k = absurd (ground arith)
      named (some name) k = checked name (fill_chain cfg (or_empty a.certificate_chain)) k

  -- A report that is let through was verified and validated, with the local certificates, against
  -- the policy with the expected report data.
  pub verify_attestation_report_tls-ok :
      (a : SnpAttestation P) (data' : Bytes) (cfg : CheckConfig S)
      → (verify_attestation_report_tls (some a) data' cfg).0 ≡ ok tt
      → (b : SnpAttestation P) × (name : ProductName) × (b.report ≡ a.report)
        × (g.verify_snp b (set_report_data data' cfg) name ≡ true)
        × (g.validate_snp b (set_report_data data' cfg) ≡ true)
  unfolding verify_attestation_report_tls validate_report
  verify_attestation_report_tls-ok a data' cfg h =
      verified (verify_report cfg' (record a { certificate_chain = none })) refl h
    where
      cfg' : CheckConfig S
      cfg' = set_report_data data' cfg

      verified :
          (r : Result ReportError (SnpAttestation P))
          → verify_report cfg' (record a { certificate_chain = none }) ≡ r
          → then_validate cfg' r ≡ ok tt
          → (b : SnpAttestation P) × (name : ProductName) × (b.report ≡ a.report)
            × (g.verify_snp b cfg' name ≡ true)
            × (g.validate_snp b cfg' ≡ true)
      verified (err e) v k = absurd (ground arith)
      verified (ok b) v k =
          let (name, same, fine) = filled_report cfg' (record a { certificate_chain = none }) b v in
          (b, name, same, fine, ground (arith, k))
