-- ===== src/Tls/Verifier.antt =====
-- pkg/atls/certificate_verifier.go: how a client verifies the certificate of an attested server.
-- The verifiers of the platforms are the fields of `Verifiers`: each reads the policy at a path,
-- and then verifies an attestation against a nonce for the platform and one for the vTPM.
use cocos.Common.{
  ◌≡◌, ◌↔◌, refl, ap, ◌∙◌, inl, inr, Option, none, some, List, [], ◌∷◌, ◌++◌, String, Bytes, All,
  take, arith, Option-cases,
}
use cocos.Common.Exec.{Result, ok, err}
use cocos.Common.Results.{◌>>=◌, ◌>>◌, check, attempt, >>=-eq-ok, check-eq-ok, attempt-eq-ok}
use cocos.Tls.Platforms.{PlatformType, snp_vtpm, azure, tdx, platform_type_from_oid}
use cocos.Tls.Provider.{Extension, Certificate, X509, hash_nonce}

-- Verifier.VerifyAttestation with a policy: the report, and the two nonces.
abbrev pub Verify : Type 0 → Type 0
Verify E = Bytes → Bytes → Bytes → Result E (Unit {0})

pub record Verifiers (E : Type 0) : Type 0 where
  pub vtpm_verifier : String → Result E (Verify E)
  pub azure_verifier : String → Result E (Verify E)
  pub tdx_verifier : String → Result E (Verify E)

pub data VerifyError (E : Type 0) : Type 0 where
  no_certificates extension_not_found unsupported_platform_type : VerifyError E
  parse_failed signature_failed marshal_failed : String → VerifyError E
  no_verifier not_attested : E → VerifyError E

module _ {E : Type 0} (vs : Verifiers E) where
  unfoldable pub platform_verifier : String → PlatformType → Result (VerifyError E) (Verify E)
  platform_verifier path snp_vtpm = attempt no_verifier (vs.vtpm_verifier path)
  platform_verifier path azure = attempt no_verifier (vs.azure_verifier path)
  platform_verifier path tdx = attempt no_verifier (vs.tdx_verifier path)
  platform_verifier path _ = err unsupported_platform_type

  module _ {K P C : Type 0} (x : X509 K P C) (path : String) where
    unfoldable pub verify_certificate_extension :
        Bytes → Bytes → Bytes → PlatformType → Result (VerifyError E) (Unit {0})
    unfolding platform_verifier
    verify_certificate_extension extension pub_key nonce platform = do
      verify ← platform_verifier path platform
      attempt not_attested
          (verify extension (hash_nonce x pub_key nonce) (take 32 (hash_nonce x pub_key nonce)))

    abbrev pub verify_extension_of :
        Certificate P C → Bytes → Bytes → PlatformType → Result (VerifyError E) (Unit {0})
    verify_extension_of cert nonce value platform = do
      pub_key ← attempt marshal_failed (x.marshal_public_key cert.public_key)
      verify_certificate_extension value pub_key nonce platform

    abbrev pub either_platform :
        Option PlatformType
        → (PlatformType → Result (VerifyError E) (Unit {0}))
        → Result (VerifyError E) (Unit {0})
        → Result (VerifyError E) (Unit {0})
    either_platform none verify rest = rest
    either_platform (some platform) verify rest = verify platform

    -- The loop of verifyAttestationExtension: the first extension of a platform decides.
    unfoldable pub verify_attestation_extension :
        Certificate P C → Bytes → List Extension → Result (VerifyError E) (Unit {0})
    unfolding verify_certificate_extension
    verify_attestation_extension cert nonce [] = err extension_not_found
    verify_attestation_extension cert nonce (e ∷ es) =
        either_platform (platform_type_from_oid e.id) (verify_extension_of cert nonce e.value)
          (verify_attestation_extension cert nonce es)

    -- Without roots the certificate itself is the root.
    abbrev pub roots_or : Certificate P C → Option (List (Certificate P C)) → List (Certificate P C)
    roots_or cert none = cert ∷ []
    roots_or cert (some roots) = roots

    unfoldable pub verify_certificate_signature :
        Option (List (Certificate P C)) → Certificate P C → Option String
    verify_certificate_signature roots cert = x.verify (roots_or cert roots) cert

    unfoldable pub verify_peer_certificate :
        Option (List (Certificate P C)) → List Bytes → Bytes → Result (VerifyError E) (Unit {0})
    unfolding verify_certificate_signature verify_attestation_extension
    verify_peer_certificate roots [] nonce = err no_certificates
    verify_peer_certificate roots (raw ∷ more) nonce = do
      cert ← attempt parse_failed (x.parse_certificate raw)
      check signature_failed (verify_certificate_signature roots cert)
      verify_attestation_extension cert nonce cert.extensions

    -- The first extension of a platform, whose verifier accepts its value for the digest of the
    -- certificate's key and the nonce.
    pub record Attested (cert : Certificate P C) (nonce : Bytes) (es : List Extension)
        : Type 0 where
      pub before : List Extension
      pub extension : Extension
      pub after : List Extension
      pub platform : PlatformType
      pub pub_key : Bytes
      pub verify : Verify E
      pub split : es ≡ before ++ extension ∷ after
      pub none_before : All (λ e. platform_type_from_oid e.id ≡ none) before
      pub recognised : platform_type_from_oid extension.id ≡ some platform
      pub key : x.marshal_public_key cert.public_key ≡ ok pub_key
      pub with_policy : platform_verifier path platform ≡ ok verify
      pub accepted :
          verify extension.value (hash_nonce x pub_key nonce) (take 32 (hash_nonce x pub_key nonce))
          ≡ ok tt

    verify_extension_of-Attested :
        (cert : Certificate P C) (nonce : Bytes) (e : Extension) (es : List Extension)
        (platform : PlatformType)
        → platform_type_from_oid e.id ≡ some platform
        → verify_extension_of cert nonce e.value platform ≡ ok tt
        → Attested cert nonce (e ∷ es)
    unfolding verify_certificate_extension
    verify_extension_of-Attested cert nonce e es platform known h =
        let (pub_key, marshalled, h') = >>=-eq-ok _ _ h in
        let (verify, found, h'') = >>=-eq-ok _ _ h' in
        record {
          before = [];
          extension = e;
          after = es;
          platform = platform;
          pub_key = pub_key;
          verify = verify;
          split = refl;
          none_before = tt;
          recognised = known;
          key = attempt-eq-ok _ _ marshalled;
          with_policy = found;
          accepted = attempt-eq-ok _ _ h'';
        }

    Attested-cons :
        (cert : Certificate P C) (nonce : Bytes) (e : Extension) (es : List Extension)
        → platform_type_from_oid e.id ≡ none
        → Attested cert nonce es
        → Attested cert nonce (e ∷ es)
    Attested-cons cert nonce e es unknown a = record {
      before = e ∷ a.before;
      extension = a.extension;
      after = a.after;
      platform = a.platform;
      pub_key = a.pub_key;
      verify = a.verify;
      split = ap (◌∷◌ e) a.split;
      none_before = (unknown, a.none_before);
      recognised = a.recognised;
      key = a.key;
      with_policy = a.with_policy;
      accepted = a.accepted;
    }

    verify_attestation_extension-Attested :
        (cert : Certificate P C) (nonce : Bytes) (es : List Extension)
        → verify_attestation_extension cert nonce es ≡ ok tt
        → Attested cert nonce es
    unfolding verify_attestation_extension
    verify_attestation_extension-Attested cert nonce [] h = absurd (ground arith)
    verify_attestation_extension-Attested cert nonce (e ∷ es) h =
        elim (Option-cases (platform_type_from_oid e.id)) [
          | inl unknown ↦
              Attested-cons cert nonce e es unknown
                (verify_attestation_extension-Attested cert nonce es (rw unknown at h))
          | inr (platform, known) ↦
              verify_extension_of-Attested cert nonce e es platform known (rw known at h)
        ]

    -- Other extensions do not matter, and an accepted one of a platform is enough.
    pub verify_attestation_extension-split :
        (cert : Certificate P C) (nonce pub_key : Bytes) (before after : List Extension)
        (e : Extension) (platform : PlatformType) (verify : Verify E)
        → All (λ e. platform_type_from_oid e.id ≡ none) before
        → platform_type_from_oid e.id ≡ some platform
        → x.marshal_public_key cert.public_key ≡ ok pub_key
        → platform_verifier path platform ≡ ok verify
        → verify_attestation_extension cert nonce (before ++ e ∷ after)
          ≡ attempt not_attested
              (verify e.value (hash_nonce x pub_key nonce) (take 32 (hash_nonce x pub_key nonce)))
    unfolding verify_attestation_extension verify_certificate_extension
    verify_attestation_extension-split cert nonce pub_key [] after e platform verify tt known key
          found =
        rw (known, key, found) refl
    verify_attestation_extension-split cert nonce pub_key (b ∷ before) after e platform verify
          (u, us) known key found =
        rw u (
          verify_attestation_extension-split cert nonce pub_key before after e platform verify us
            known key found)

    -- A parsed certificate that is verified by the roots, or by itself without any, and attested.
    pub record Trusted (roots : Option (List (Certificate P C))) (raw : List Bytes) (nonce : Bytes)
        : Type 0 where
      pub first : Bytes
      pub more : List Bytes
      pub cert : Certificate P C
      pub sent : raw ≡ first ∷ more
      pub parsed : x.parse_certificate first ≡ ok cert
      pub signed : x.verify (roots_or cert roots) cert ≡ none
      pub attested : Attested cert nonce cert.extensions

    -- VerifyPeerCertificate lets a certificate through exactly when the first one sent parses, is
    -- verified by the roots or, without any, by itself, and its first extension with the identifier
    -- of a platform holds an attestation that the platform's verifier, with the policy at the path,
    -- accepts for the digest of the certificate's own key and the nonce.
    pub verify_peer_certificate_iff_Trusted :
        (roots : Option (List (Certificate P C))) (raw : List Bytes) (nonce : Bytes)
        → (verify_peer_certificate roots raw nonce ≡ ok tt) ↔ Trusted roots raw nonce
    unfolding verify_peer_certificate verify_certificate_signature
    verify_peer_certificate_iff_Trusted roots raw nonce = (there raw refl, back)
      where
        there :
            (certs : List Bytes)
            → raw ≡ certs
            → verify_peer_certificate roots raw nonce ≡ ok tt
            → Trusted roots raw nonce
        there [] e h = absurd (let bad = rw e at h in ground arith)
        there (c ∷ cs) e h =
            let h' : verify_peer_certificate roots (c ∷ cs) nonce ≡ ok tt = rw e at h in
            let (cert, parsed, h'') = >>=-eq-ok _ _ h' in
            let (u, signed, attested) = >>=-eq-ok _ _ h'' in
            record {
              first = c;
              more = cs;
              cert = cert;
              sent = e;
              parsed = attempt-eq-ok _ _ parsed;
              signed = check-eq-ok _ _ signed;
              attested = verify_attestation_extension-Attested cert nonce cert.extensions attested;
            }

        back : Trusted roots raw nonce → verify_peer_certificate roots raw nonce ≡ ok tt
        back t =
            let a = t.attested in
            let good =
              verify_attestation_extension-split t.cert nonce a.pub_key a.before a.after a.extension
                a.platform a.verify a.none_before a.recognised a.key a.with_policy in
            let whole : verify_attestation_extension t.cert nonce t.cert.extensions ≡ ok tt =
              ap (λ es. verify_attestation_extension t.cert nonce es) a.split
              ∙ good
              ∙ ap (attempt not_attested) a.accepted in
            rw (t.sent, t.parsed, t.signed) whole
