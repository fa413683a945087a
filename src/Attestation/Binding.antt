-- ===== src/Attestation/Binding.antt =====
-- pkg/attestation/vtpm/vtpm.go: Attest, and what VTPMVerify lets through.
use cocos.Common.{
  ℕ, zero, suc, ◌-◌, ◌≡◌, refl, sym, ap, ◌∙◌, ◌≢◌, Bool, true, Option, none, some, String, [], ◌∷◌,
  ◌++◌, Bytes, All, arith, if◌then◌else◌, take, length,
}
use cocos.Common.Exec.{Result, ok, err}
use cocos.Attestation.Pcrs.{Expected}
use cocos.Attestation.Reports.{
  SnpAttestation, CheckConfig, ReportError, SevGuest, set_report_data,
  verify_attestation_report_tls, verify_attestation_report_tls-ok,
}
use cocos.Attestation.Quotes.{
  TpmAttestation, QuoteError, fetch_failed, marshal_failed, TpmTools, VerifierPolicy, WriterIo,
  verify_quote, attest_data, report_answer, after_quote, vtpm_verify, verify_quote-ok,
}

abbrev pub zeros : ℕ → Bytes
zeros zero = []
zeros (suc n) = 0 ∷ zeros n

-- copy into an array of `n` bytes
abbrev pub fixed : ℕ → Bytes → Bytes
fixed n b = take n b ++ zeros (n - length b)

-- The TPM's attestation for a nonce, and the SEV-SNP report for 64 bytes of report data.
pub record Hardware (P : Type 0) : Type 0 where
  pub tpm : Bytes → Result String (TpmAttestation P)
  pub sev : Bytes → Result String (SnpAttestation P)

module _ {P : Type 0} (t : TpmTools P) (hw : Hardware P) where
  -- FetchQuote, and FetchAttestation of quoteprovider
  unfoldable pub fetch_quote : Bytes → Result String (TpmAttestation P)
  fetch_quote nonce = hw.tpm (fixed 32 nonce)

  unfoldable pub fetch_attestation : Bytes → Result String (SnpAttestation P)
  fetch_attestation data' = hw.sev (fixed 64 data')

  abbrev pub with_report :
      TpmAttestation P → Result String (SnpAttestation P) → Result QuoteError (TpmAttestation P)
  with_report a (err e) = err (fetch_failed e)
  with_report a (ok r) = ok (record a { snp_attestation = some r })

  unfoldable pub add_tee_attestation :
      TpmAttestation P → Bytes → Result QuoteError (TpmAttestation P)
  unfolding fetch_attestation
  add_tee_attestation a nonce = with_report a (fetch_attestation (attest_data t nonce a))

  abbrev pub marshal_quote : Result QuoteError (TpmAttestation P) → Result QuoteError Bytes
  marshal_quote (err e) = err e
  marshal_quote (ok a) = elim (t.marshal a) [ none ↦ err marshal_failed | some b ↦ ok b ]

  abbrev pub attest_fetched :
      Bytes → Bool → Result String (TpmAttestation P) → Result QuoteError Bytes
  attest_fetched tee_nonce tee (err e) = err (fetch_failed e)
  attest_fetched tee_nonce tee (ok a) =
      marshal_quote (if tee then add_tee_attestation a tee_nonce else ok a)

  unfoldable pub attest : Bytes → Bytes → Bool → Result QuoteError Bytes
  unfolding fetch_quote add_tee_attestation
  attest tee_nonce vtpm_nonce tee = attest_fetched tee_nonce tee (fetch_quote vtpm_nonce)

module _ {P S : Type 0} (t : TpmTools P) (g : SevGuest P S) where
  -- The report data of a report.
  abbrev pub Bound : (P → Bytes) → Bytes → TpmAttestation P → Type 0
  Bound data_of tee_nonce a =
      (r : SnpAttestation P) × (a.snp_attestation ≡ some r)
      × (data_of r.report ≡ t.sha3_512 (tee_nonce ++ a.ak_pub))

  set_nonempty :
      (data' : Bytes) (cfg : CheckConfig S)
      → data' ≢ []
      → (set_report_data data' cfg).report_data ≡ data'
  set_nonempty [] cfg n = absurd (n refl)
  set_nonempty (b ∷ bs) cfg n = refl

  -- What VTPMVerify lets through, where go-sev-guest's validation compares the report data that a
  -- policy asks for, and SHA3-512 gives some bytes: the quote is an attestation for the vTPM's
  -- nonce with the PCR values that the policy expects, and its SEV-SNP report holds the digest of
  -- the other nonce and of this attestation's key.
  pub vtpm_verify-Bound :
      (data_of : P → Bytes) (io : WriterIo) (quote tee_nonce vtpm_nonce : Bytes)
      (p : VerifierPolicy S)
      → ((r : SnpAttestation P) (cfg : CheckConfig S)
          → g.validate_snp r cfg ≡ true
          → cfg.report_data ≢ []
          → data_of r.report ≡ cfg.report_data)
      → ((x : Bytes) → t.sha3_512 x ≢ [])
      → (vtpm_verify t g io quote tee_nonce vtpm_nonce p).0 ≡ ok tt
      → (a : TpmAttestation P) × (t.unmarshal quote ≡ some a)
        × (t.verify_attestation a vtpm_nonce ≡ true)
        × All (Expected p.pcr_values) a.quotes
        × Bound data_of tee_nonce a
  unfolding vtpm_verify verify_attestation_report_tls
  vtpm_verify-Bound data_of io quote tee_nonce vtpm_nonce p validates digest h =
      first (verify_quote t g io quote vtpm_nonce p) refl h
    where
      accepted :
          (a : TpmAttestation P) (o : Option (SnpAttestation P))
          → a.snp_attestation ≡ o
          → (report_answer t g
              (verify_attestation_report_tls g o (attest_data t tee_nonce a) p.check_config)
              p).0
            ≡ ok tt
          → Bound data_of tee_nonce a
      accepted a none e k = absurd (ground arith)
      accepted a (some r) e k =
          let data' = attest_data t tee_nonce a in
          let (b, name, same, verified, validated) =
            verify_attestation_report_tls-ok g r data' p.check_config (passed _ k) in
          let asked = set_nonempty data' p.check_config (digest (tee_nonce ++ a.ak_pub)) in
          (
            r,
            e,
            ap data_of (sym same)
                ∙ validates b (set_report_data data' p.check_config) validated
                    (λ n. digest (tee_nonce ++ a.ak_pub) (sym asked ∙ n))
                ∙ asked,
          )
        where
          passed :
              (x : Result ReportError (Unit {0}) × CheckConfig S)
              → (report_answer t g x p).0 ≡ ok tt
              → x.0 ≡ ok tt
          passed (err e, cfg) l = absurd (ground arith)
          passed (ok tt, cfg) l = refl

      first :
          (r : Result QuoteError (Unit {0}))
          → verify_quote t g io quote vtpm_nonce p ≡ r
          → (after_quote t g quote tee_nonce p r).0 ≡ ok tt
          → (a : TpmAttestation P) × (t.unmarshal quote ≡ some a)
            × (t.verify_attestation a vtpm_nonce ≡ true)
            × All (Expected p.pcr_values) a.quotes
            × Bound data_of tee_nonce a
      first (err e) v k = absurd (ground arith)
      first (ok tt) v k =
          let (a, decoded, fine, pcrs) = verify_quote-ok t g io quote vtpm_nonce p v in
          (a, decoded, fine, pcrs, accepted a a.snp_attestation refl (rw decoded at k))
