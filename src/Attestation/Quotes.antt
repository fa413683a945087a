-- ===== src/Attestation/Quotes.antt =====
-- pkg/attestation/vtpm/vtpm.go: making and verifying the attestation of a vTPM, to which a SEV-SNP
-- report is bound by the digest of a nonce and the attestation key. protobuf, go-tpm and
-- go-tpm-tools are the fields of `TpmTools`.
use cocos.Common.{
  ◌≡◌, refl, Bool, true, Option, none, some, String, List, ◌++◌, Bytes, All, arith, if◌then◌else◌,
}
use cocos.Common.Exec.{Result, ok, err}
use cocos.Attestation.Pcrs.{
  PcrValues, Quote, PcrError, Expected, check_expected_pcr_values, check_expected_pcr_values_iff,
}
use cocos.Attestation.Reports.{
  SnpAttestation, CheckConfig, ReportError, SevGuest, verify_attestation_report_tls,
}

-- attest.Attestation
pub record TpmAttestation (P : Type 0) : Type 0 where
  pub ak_pub : Bytes
  pub quotes : List Quote
  pub nonce : Bytes
  pub snp_attestation : Option (SnpAttestation P)

pub data QuoteError : Type 0 where
  unmarshal_failed decode_public_failed key_failed verify_failed write_failed marshal_failed :
      QuoteError
  pcrs_differ : PcrError → QuoteError
  report_refused : ReportError → QuoteError
  fetch_failed : String → QuoteError

pub record TpmTools (P : Type 0) : Type 0 where
  pub unmarshal : Bytes → Option (TpmAttestation P)
  pub marshal : TpmAttestation P → Option Bytes
  pub decode_public : Bytes → Bool
  pub public_key : Bytes → Bool
  -- server.VerifyAttestation, which trusts the attestation's own key
  pub verify_attestation : TpmAttestation P → Bytes → Bool
  pub sha3_512 : Bytes → Bytes

-- The policy of a verifier: the SEV-SNP policy and the PCR values.
pub record VerifierPolicy (S : Type 0) : Type 0 where
  pub check_config : CheckConfig S
  pub pcr_values : PcrValues

-- The optional writer: whether the report can be printed and written.
pub record WriterIo : Type 0 where
  pub has_writer : Bool
  pub marshals : Bool
  pub writes : Bool

-- sha3.Sum512 of a nonce and the attestation key
abbrev pub attest_data : {P : Type 0} → TpmTools P → Bytes → TpmAttestation P → Bytes
attest_data t nonce a = t.sha3_512 (nonce ++ a.ak_pub)

module _ {P S : Type 0} (t : TpmTools P) (g : SevGuest P S) where
  abbrev pub written : WriterIo → Result QuoteError (Unit {0})
  written io =
      if io.has_writer
      then (if io.marshals then (if io.writes then ok tt else err write_failed) else ok tt)
      else ok tt

  abbrev pub checked_pcrs : WriterIo → Result PcrError (Unit {0}) → Result QuoteError (Unit {0})
  checked_pcrs io (err e) = err (pcrs_differ e)
  checked_pcrs io (ok u) = written io

  abbrev pub verify_decoded :
      WriterIo → Bytes → VerifierPolicy S → Option (TpmAttestation P) → Result QuoteError (Unit {0})
  verify_decoded io nonce p none = err unmarshal_failed
  verify_decoded io nonce p (some a) =
      if t.decode_public a.ak_pub
      then (if t.public_key a.ak_pub
          then (if t.verify_attestation a nonce
              then checked_pcrs io (check_expected_pcr_values a.quotes p.pcr_values)
              else err verify_failed)
          else err key_failed)
      else err decode_public_failed

  unfoldable pub verify_quote :
      WriterIo → Bytes → Bytes → VerifierPolicy S → Result QuoteError (Unit {0})
  verify_quote io quote nonce p = verify_decoded io nonce p (t.unmarshal quote)

  abbrev pub report_answer :
      Result ReportError (Unit {0}) × CheckConfig S
      → VerifierPolicy S
      → Result QuoteError (Unit {0}) × VerifierPolicy S
  report_answer (err e, cfg) p = (err (report_refused e), record p { check_config = cfg })
  report_answer (ok u, cfg) p = (ok tt, record p { check_config = cfg })

  abbrev pub verify_report_of :
      Bytes
      → VerifierPolicy S
      → Option (TpmAttestation P)
      → Result QuoteError (Unit {0}) × VerifierPolicy S
  verify_report_of nonce p none = (err unmarshal_failed, p)
  verify_report_of nonce p (some a) =
      report_answer
        (verify_attestation_report_tls g a.snp_attestation (attest_data t nonce a) p.check_config) p

  abbrev pub after_quote :
      Bytes
      → Bytes
      → VerifierPolicy S
      → Result QuoteError (Unit {0})
      → Result QuoteError (Unit {0}) × VerifierPolicy S
  after_quote quote nonce p (err e) = (err e, p)
  after_quote quote nonce p (ok u) = verify_report_of nonce p (t.unmarshal quote)

  -- VTPMVerify: the answer, and the policy with the report data that was looked for.
  unfoldable pub vtpm_verify :
      WriterIo
      → Bytes
      → Bytes
      → Bytes
      → VerifierPolicy S
      → Result QuoteError (Unit {0}) × VerifierPolicy S
  unfolding verify_quote
  vtpm_verify io quote tee_nonce vtpm_nonce p =
      after_quote quote tee_nonce p (verify_quote io quote vtpm_nonce p)

  pub verify_quote-ok :
      (io : WriterIo) (quote nonce : Bytes) (p : VerifierPolicy S)
      → verify_quote io quote nonce p ≡ ok tt
      → (a : TpmAttestation P) × (t.unmarshal quote ≡ some a)
        × (t.verify_attestation a nonce ≡ true)
        × All (Expected p.pcr_values) a.quotes
  unfolding verify_quote
  verify_quote-ok io quote nonce p h = decoded (t.unmarshal quote) refl h
    where
      pcrs : (r : Result PcrError (Unit {0})) → checked_pcrs io r ≡ ok tt → r ≡ ok tt
      pcrs (err e) k = absurd (ground arith)
      pcrs (ok tt) k = refl

      decoded :
          (o : Option (TpmAttestation P))
          → t.unmarshal quote ≡ o
          → verify_decoded io nonce p o ≡ ok tt
          → (a : TpmAttestation P) × (t.unmarshal quote ≡ some a)
            × (t.verify_attestation a nonce ≡ true)
            × All (Expected p.pcr_values) a.quotes
      decoded none e k = absurd (ground arith)
      decoded (some a) e k =
          let public : t.decode_public a.ak_pub ≡ true = ground arith in
          let key : t.public_key a.ak_pub ≡ true = ground arith in
          let fine : t.verify_attestation a nonce ≡ true = ground arith in
          let good : checked_pcrs io (check_expected_pcr_values a.quotes p.pcr_values) ≡ ok tt =
            rw (public, key, fine) at k in
          (a, e, fine, (check_expected_pcr_values_iff a.quotes p.pcr_values).0 (pcrs _ good))
