-- ===== src/Tls/Wiring.antt =====
-- pkg/atls/certificate_verifier.go: platformVerifier, with the verifiers of pkg/attestation/vtpm,
-- pkg/attestation/azure and pkg/attestation/tdx. Each reads its policy at the path;
-- vtpm.NewVerifier and azure.NewVerifier are given no writer.
use cocos.Common.{
  ◌≡◌, ◌≢◌, ◌⊎◌, inl, inr, refl, sym, ap, ◌∙◌, subst, true, false, Option, none, some, List, [],
  ◌∷◌, String, Bytes, All, take,
}
use cocos.Common.Exec.{Result, ok}
use cocos.Common.Results.{◌>>=◌, attempt, >>=-eq-ok, attempt-eq-ok, ok-injective}
use cocos.Attestation.Pcrs.{Expected}
use cocos.Attestation.Reports.{SnpAttestation, CheckConfig, SevGuest}
use cocos.Attestation.Quotes.{
  TpmAttestation, QuoteError, TpmTools, VerifierPolicy, WriterIo, vtpm_verify,
}
use cocos.Attestation.Binding.{Bound, vtpm_verify-Bound}
use cocos.Attestation.Azure
use cocos.Attestation.Tdx
use cocos.Attestation.Tdx.{TdxError, TdxGuest}
use cocos.Tls.Platforms.{PlatformType, snp_vtpm, azure, tdx}
use cocos.Tls.Provider.{Certificate, X509, hash_nonce}
use cocos.Tls.Verifier.{
  Verify, Verifiers, no_verifier, platform_verifier, verify_peer_certificate, Trusted, roots_or,
  verify_peer_certificate_iff_Trusted,
}

pub data PlatformError : Type 0 where
  policy_unread : String → PlatformError
  quote_refused : QuoteError → PlatformError
  tdx_refused : TdxError → PlatformError

abbrev pub no_writer : WriterIo
no_writer = record { has_writer = false; marshals = false; writes = false }

-- What the verifiers are made of: the tools of the vTPM, go-sev-guest, go-tdx-guest,
-- vtpm.ReadPolicy into an empty policy, and the empty policy of TDX.
pub record Packages (P S Q D : Type 0) : Type 0 where
  pub tools : TpmTools P
  pub sev : SevGuest P S
  pub tdx_guest : TdxGuest Q D
  pub read_policy : String → Result String (VerifierPolicy S)
  pub empty_tdx_policy : D

module _ {P S Q D : Type 0} (k : Packages P S Q D) where
  unfoldable pub new_vtpm_verifier : String → Result PlatformError (Verify PlatformError)
  unfolding vtpm_verify
  new_vtpm_verifier path = do
    p ← attempt policy_unread (k.read_policy path)
    ok λ report tee_nonce vtpm_nonce.
        attempt quote_refused (vtpm_verify k.tools k.sev no_writer report tee_nonce vtpm_nonce p).0

  unfoldable pub new_azure_verifier : String → Result PlatformError (Verify PlatformError)
  unfolding Azure.verify_attestation
  new_azure_verifier path = do
    p ← attempt policy_unread (k.read_policy path)
    ok λ report tee_nonce vtpm_nonce.
        attempt quote_refused
          (Azure.verify_attestation k.tools k.sev report tee_nonce vtpm_nonce p).0

  unfoldable pub new_tdx_verifier : String → Result PlatformError (Verify PlatformError)
  unfolding Tdx.read_tdx_attestation_policy Tdx.verify_attestation
  new_tdx_verifier path = do
    p ← attempt tdx_refused (Tdx.read_tdx_attestation_policy k.tdx_guest path k.empty_tdx_policy)
    ok λ report tee_nonce vtpm_nonce.
        attempt tdx_refused
          (Tdx.verify_attestation k.tdx_guest (some p) report tee_nonce vtpm_nonce)

  unfoldable pub new_verifiers : Verifiers PlatformError
  unfolding new_vtpm_verifier new_azure_verifier new_tdx_verifier
  new_verifiers = record {
    vtpm_verifier = new_vtpm_verifier;
    azure_verifier = new_azure_verifier;
    tdx_verifier = new_tdx_verifier;
  }

  -- The verifiers of Azure and of TDX answer the same for all nonces.
  IgnoresNonces : Verify PlatformError → Type 0
  IgnoresNonces verify = (report a b c d : Bytes) → verify report a b ≡ verify report c d

  azure-IgnoresNonces :
      (path : String) (verify : Verify PlatformError)
      → new_azure_verifier path ≡ ok verify
      → IgnoresNonces verify
  unfolding new_azure_verifier Azure.verify_attestation IgnoresNonces
  azure-IgnoresNonces path verify h report a b c d =
      let (p, read, made) = >>=-eq-ok (attempt policy_unread (k.read_policy path)) _ h in
      subst IgnoresNonces (ok-injective _ _ made) (λ report a b c d. refl) report a b c d

  tdx-IgnoresNonces :
      (path : String) (verify : Verify PlatformError)
      → new_tdx_verifier path ≡ ok verify
      → IgnoresNonces verify
  unfolding new_tdx_verifier Tdx.verify_attestation IgnoresNonces
  tdx-IgnoresNonces path verify h =
      let (p, read, made) =
        >>=-eq-ok
          (attempt tdx_refused
            (Tdx.read_tdx_attestation_policy k.tdx_guest path k.empty_tdx_policy))
          _ h in
      subst IgnoresNonces (ok-injective _ _ made) (λ report a b c d. refl)

  platform_verifier-IgnoresNonces :
      (path : String) (platform : PlatformType) (verify : Verify PlatformError)
      → (platform ≡ azure) ⊎ (platform ≡ tdx)
      → platform_verifier new_verifiers path platform ≡ ok verify
      → IgnoresNonces verify
  unfolding platform_verifier new_verifiers
  platform_verifier-IgnoresNonces path platform verify (inl on_azure) found =
      azure-IgnoresNonces path verify (attempt-eq-ok no_verifier _ (rw on_azure at found))
  platform_verifier-IgnoresNonces path platform verify (inr on_tdx) found =
      tdx-IgnoresNonces path verify (attempt-eq-ok no_verifier _ (rw on_tdx at found))

  module _ {K R C : Type 0} (x : X509 K R C) (path : String) where
    -- On Azure and with TDX the nonces are not looked at: once a certificate was let through, any
    -- other that is verified and carries the same extensions is let through too, whatever its key
    -- is and for every nonce.
    pub attestation_relayed :
        (roots roots' : Option (List (Certificate R C))) (raw more : List Bytes)
        (first nonce nonce' pub_key : Bytes) (cert : Certificate R C)
        (t : Trusted new_verifiers x path roots raw nonce)
        → (t.attested.platform ≡ azure) ⊎ (t.attested.platform ≡ tdx)
        → x.parse_certificate first ≡ ok cert
        → x.verify (roots_or new_verifiers x path cert roots') cert ≡ none
        → cert.extensions ≡ t.cert.extensions
        → x.marshal_public_key cert.public_key ≡ ok pub_key
        → verify_peer_certificate new_verifiers x path roots' (first ∷ more) nonce' ≡ ok tt
    unfolding IgnoresNonces
    attestation_relayed roots roots' raw more first nonce nonce' pub_key cert t p parsed signed same
          key =
        let a = t.attested in
        let ignored =
          platform_verifier-IgnoresNonces path a.platform a.verify p a.with_policy a.extension.value
            (hash_nonce x pub_key nonce') (take 32 (hash_nonce x pub_key nonce'))
            (hash_nonce x a.pub_key nonce) (take 32 (hash_nonce x a.pub_key nonce)) in
        (verify_peer_certificate_iff_Trusted new_verifiers x path roots' (first ∷ more) nonce').1
          (record {
            first = first;
            more = more;
            cert = cert;
            sent = refl;
            parsed = parsed;
            signed = signed;
            attested = record {
              before = a.before;
              extension = a.extension;
              after = a.after;
              platform = a.platform;
              pub_key = pub_key;
              verify = a.verify;
              split = same ∙ a.split;
              none_before = a.none_before;
              recognised = a.recognised;
              key = key;
              with_policy = a.with_policy;
              accepted = ignored ∙ a.accepted;
            };
          })

    -- What ties a certificate's key and a nonce to a vTPM's quote and its SEV-SNP report.
    pub record VtpmBound (data_of : P → Bytes) (cert : Certificate R C) (nonce value : Bytes)
        : Type 0 where
      pub policy : VerifierPolicy S
      pub pub_key : Bytes
      pub attestation : TpmAttestation P
      pub read : k.read_policy path ≡ ok policy
      pub key : x.marshal_public_key cert.public_key ≡ ok pub_key
      pub decoded : k.tools.unmarshal value ≡ some attestation
      pub for_nonce :
          k.tools.verify_attestation attestation (take 32 (hash_nonce x pub_key nonce)) ≡ true
      pub pcrs : All (Expected policy.pcr_values) attestation.quotes
      pub report : Bound k.tools k.sev data_of (hash_nonce x pub_key nonce) attestation

    -- A certificate that is let through by the extension of a SEV-SNP machine's vTPM, where
    -- go-sev-guest's validation compares the report data that a policy asks for, and SHA3-512 gives
    -- some bytes: its attestation was made for the digest of the certificate's key and the nonce,
    -- with the PCR values of the policy at the path, and the SEV-SNP report holds the digest of
    -- that digest and the attestation's key.
    pub peer_certificate-VtpmBound :
        (data_of : P → Bytes) (roots : Option (List (Certificate R C))) (raw : List Bytes)
        (nonce : Bytes)
        → ((r : SnpAttestation P) (cfg : CheckConfig S)
            → k.sev.validate_snp r cfg ≡ true
            → cfg.report_data ≢ []
            → data_of r.report ≡ cfg.report_data)
        → ((b : Bytes) → k.tools.sha3_512 b ≢ [])
        → (t : Trusted new_verifiers x path roots raw nonce) → t.attested.platform ≡ snp_vtpm
        → VtpmBound data_of t.cert nonce t.attested.extension.value
    unfolding platform_verifier new_verifiers new_vtpm_verifier
    peer_certificate-VtpmBound data_of roots raw nonce validates digest t on_snp =
        let a = t.attested in
        let found : platform_verifier new_verifiers path snp_vtpm ≡ ok a.verify =
          ap (platform_verifier new_verifiers path) (sym on_snp) ∙ a.with_policy in
        let (p, read, made) =
          >>=-eq-ok (attempt policy_unread (k.read_policy path)) _
            (attempt-eq-ok no_verifier (new_vtpm_verifier path) found) in
        let hashed = hash_nonce x a.pub_key nonce in
        let run = ok-injective _ _ made in
        let good : attempt quote_refused
              (vtpm_verify k.tools k.sev no_writer a.extension.value hashed (take 32 hashed) p).0
            ≡ ok tt =
          ap (λ (v : Verify PlatformError). v a.extension.value hashed (take 32 hashed)) run
          ∙ a.accepted in
        let (quote, decoded, fine, pcrs, bound) =
          vtpm_verify-Bound k.tools k.sev data_of no_writer a.extension.value hashed
            (take 32 hashed) p validates digest (attempt-eq-ok _ _ good) in
        record {
          policy = p;
          pub_key = a.pub_key;
          attestation = quote;
          read = attempt-eq-ok _ _ read;
          key = a.key;
          decoded = decoded;
          for_nonce = fine;
          pcrs = pcrs;
          report = bound;
        }
