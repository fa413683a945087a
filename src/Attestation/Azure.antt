-- ===== src/Attestation/Azure.antt =====
-- pkg/attestation/azure/snp.go: the attestation of a machine on Azure, its verification, and the
-- policy that is made of a token's claims. go-azguestattestation (`Maa`), the JSON web tokens and
-- go-sev-guest are records of functions; the vTPM's part is pkg/attestation/vtpm's.
use cocos.Common.{
  ℕ, Bool, true, Option, none, some, String, List, [], ◌∷◌, Bytes, ◌==◌, string_comparable,
  if◌then◌else◌,
}
use cocos.Common.Exec.{Result, ok, err}
use cocos.Common.Results.{◌>>=◌, ◌>>◌, attempt, or_fail, guard}
use cocos.Attestation.Hex.{Text, decode}
use cocos.Attestation.Reports.{
  SnpAttestation, ProductName, SevGuest, get_product_name, verify_attestation_report_tls,
}
use cocos.Attestation.Quotes.{
  TpmAttestation, QuoteError, unmarshal_failed, TpmTools, VerifierPolicy, report_answer,
}
use cocos.Attestation.Binding.{Hardware, fixed, fetch_quote}

pub data AzureError : Type 0 where
  parameters_failed parse_report_failed quote_failed token_failed : String → AzureError
  not_marshalled parse_token_failed no_jku key_set_failed not_validated no_tcb : AzureError
  -- the claim of this name is missing or of another type, or is no hexadecimal text
  missing_claim undecoded_claim : String → AzureError

pub record Maa (P : Type 0) : Type 0 where
  -- maa.NewParameters: the SEV-SNP report
  pub snp_report : Bytes → Result String Bytes
  pub parse_attestation : Bytes → Result String (SnpAttestation P)
  -- maa.Attest with the service's address
  pub attest : Bytes → String → Result String Bytes

module _ {P : Type 0} (t : TpmTools P) (hw : Hardware P) (maa : Maa P) where
  unfoldable pub attestation : Bytes → Bytes → Result AzureError Bytes
  unfolding fetch_quote
  attestation tee_nonce vtpm_nonce = do
    report ← attempt parameters_failed (maa.snp_report (fixed 32 tee_nonce))
    snp ← attempt parse_report_failed (maa.parse_attestation report)
    quote ← attempt quote_failed (fetch_quote t hw vtpm_nonce)
    or_fail not_marshalled (t.marshal (record quote { snp_attestation = some snp }))

  unfoldable pub tee_attestation : Bytes → Result AzureError Bytes
  tee_attestation tee_nonce = attempt parameters_failed (maa.snp_report (fixed 32 tee_nonce))

  unfoldable pub vtpm_attestation : Bytes → Result AzureError Bytes
  unfolding fetch_quote
  vtpm_attestation nonce = do
    quote ← attempt quote_failed (fetch_quote t hw nonce)
    or_fail not_marshalled (t.marshal quote)

  unfoldable pub fetch_azure_attestation_token : Bytes → String → Result AzureError Bytes
  fetch_azure_attestation_token nonce url = attempt token_failed (maa.attest nonce url)

module _ {P S : Type 0} (t : TpmTools P) (g : SevGuest P S) where
  -- VerifTeeAttestation, from the report as abi.ReportCertsToProto gives it
  unfoldable pub verif_tee_attestation :
      Option (SnpAttestation P)
      → Bytes
      → VerifierPolicy S
      → Result QuoteError (Unit {0}) × VerifierPolicy S
  unfolding verify_attestation_report_tls
  verif_tee_attestation none tee_nonce p = (err unmarshal_failed, p)
  verif_tee_attestation (some a) tee_nonce p =
      report_answer t g (verify_attestation_report_tls g (some a) tee_nonce p.check_config) p

  abbrev pub verify_decoded :
      VerifierPolicy S → Option (TpmAttestation P) → Result QuoteError (Unit {0}) × VerifierPolicy S
  verify_decoded p none = (err unmarshal_failed, p)
  verify_decoded p (some quote) =
      report_answer t g (verify_attestation_report_tls g quote.snp_attestation [] p.check_config) p

  -- VerifyAttestation. The copy of the nonce into an array, which nothing reads, is left out.
  unfoldable pub verify_attestation :
      Bytes → Bytes → Bytes → VerifierPolicy S → Result QuoteError (Unit {0}) × VerifierPolicy S
  unfolding verify_attestation_report_tls
  verify_attestation report tee_nonce vtpm_nonce p = verify_decoded p (t.unmarshal report)

-- The claims below x-ms-isolation-tee: the texts and the numbers, of type `F`, which uint8 and
-- uint32 convert.
pub record Claims (F : Type 0) : Type 0 where
  pub text : String → Option Text
  pub number : String → Option F

pub record Tokens (F : Type 0) : Type 0 where
  -- the header's jku, if the token can be parsed and it is a text
  pub parse_unverified : String → Option (Option String)
  pub get_key_set : String → Option Bytes
  -- `none` if the token is not valid for the keys; the claims may have no part of the machine's
  pub validate_token : String → Bytes → Option (Option (Claims F))
  pub to_uint8 : F → ℕ
  pub to_uint32 : F → ℕ
  pub compose_tcb_parts : ℕ → ℕ → ℕ → ℕ → Bool

-- The policy of the configuration, with the root of trust's CheckCrl.
pub record AzurePolicy : Type 0 where
  pub check_crl : Bool
  pub image_id : Bytes
  pub family_id : Bytes
  pub measurement : Bytes
  pub minimum_guest_svn : ℕ
  pub trusted_id_key_hashes : List Bytes
  pub report_id : Bytes
  pub product : ProductName
  pub policy : ℕ

module _ {F : Type 0} (tk : Tokens F) where
  -- `maa_url` is the variable MaaURL.
  unfoldable pub validate_token : String → String → Result AzureError (Option (Claims F))
  validate_token maa_url token = do
    header ← or_fail parse_token_failed (tk.parse_unverified token)
    jku ← or_fail no_jku header
    keys ← or_fail key_set_failed (tk.get_key_set (if maa_url == "" then jku else maa_url))
    or_fail not_validated (tk.validate_token token keys)

  unfoldable pub text_claim : Claims F → String → Result AzureError Bytes
  text_claim tee name = do
    text ← or_fail (missing_claim name) (tee.text name)
    or_fail (undecoded_claim name) (decode text)

  unfoldable pub number_claim : Claims F → String → Result AzureError F
  number_claim tee name = or_fail (missing_claim name) (tee.number name)

  unfoldable pub generate_attestation_policy :
      String → String → String → ℕ → Result AzureError AzurePolicy
  unfolding validate_token text_claim number_claim
  generate_attestation_policy maa_url token product policy = do
    claims ← validate_token maa_url token
    tee ← or_fail (missing_claim "x-ms-isolation-tee") claims
    family_id ← text_claim tee "x-ms-sevsnpvm-familyId"
    image_id ← text_claim tee "x-ms-sevsnpvm-imageId"
    measurement ← text_claim tee "x-ms-sevsnpvm-launchmeasurement"
    bootloader_version ← number_claim tee "x-ms-sevsnpvm-bootloader-svn"
    tee_version ← number_claim tee "x-ms-sevsnpvm-tee-svn"
    snp_version ← number_claim tee "x-ms-sevsnpvm-snpfw-svn"
    microcode_version ← number_claim tee "x-ms-sevsnpvm-microcode-svn"
    guard
        (tk.compose_tcb_parts (tk.to_uint8 bootloader_version) (tk.to_uint8 tee_version)
          (tk.to_uint8 snp_version) (tk.to_uint8 microcode_version))
        no_tcb
    guest_svn ← number_claim tee "x-ms-sevsnpvm-guestsvn"
    id_key_digest ← text_claim tee "x-ms-sevsnpvm-idkeydigest"
    report_id ← text_claim tee "x-ms-sevsnpvm-reportid"
    ok (record {
      check_crl = true;
      image_id = image_id;
      family_id = family_id;
      measurement = measurement;
      minimum_guest_svn = tk.to_uint32 guest_svn;
      trusted_id_key_hashes = id_key_digest ∷ [];
      report_id = report_id;
      product = get_product_name product;
      policy = policy;
    })
