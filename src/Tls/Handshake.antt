-- ===== src/Tls/Handshake.antt =====
-- pkg/clients/tls.go and pkg/atls: a client of attested TLS and the server that it asks for a
-- certificate. What crypto/x509 documents of a self-signed certificate is `SelfSigned`.
use cocos.Common.{
  ℕ, ◌≡◌, inl, inr, refl, ap, ◌∙◌, none, some, List, [], ◌∷◌, ◌++◌, String, Bytes, All, take,
  length, string_comparable, arith, Option-cases,
}
use cocos.Common.Exec.{ok}
use cocos.Common.Results.{attempt, >>=-eq-ok, attempt-eq-ok}
use cocos.Attestation.Hex.{Text, AreBytes, encode}
use cocos.Tls.Platforms.{
  PlatformType, Oid, oid, platform_type_from_oid, platform_type_from_oid-oid, nonce_suffix,
  nonce_length, extract_nonce_from_sni, extract_nonce_from_sni-encode,
}
use cocos.Tls.Provider.{
  Extension, CertificateSubject, default_certificate_subject, Template, Attester, Certificate, X509,
  marshal_key_failed, bad_name, attestation_failed, create_failed, AttestationProvider,
  AttestedCertificateProvider, attest, hash_nonce, generate_self_signed_certificate,
  get_certificate, new_provider, new_attestation_provider, provider_for, new_attested_provider,
}
use cocos.Tls.Verifier.{
  Verify, Verifiers, not_attested, platform_verifier, verify_peer_certificate,
  verify_attestation_extension, verify_certificate_signature, verify_attestation_extension-split,
}

module _ {K P C : Type 0} (x : X509 K P C) where
  -- The parsed form of a certificate that CreateCertificate made with itself as the parent: it has
  -- the key and, after extensions of its own, the template's, and it is verified by itself.
  pub record SelfSigned (t : Template) (key : K) (der : Bytes) : Type 0 where
    pub cert : Certificate P C
    pub standard : List Extension
    pub parsed : x.parse_certificate der ≡ ok cert
    pub extensions : cert.extensions ≡ standard ++ t.extra_extensions
    pub unknown : All (λ e. platform_type_from_oid e.id ≡ none) standard
    pub key_kept : cert.public_key ≡ x.public_of key
    pub verified : x.verify (cert ∷ []) cert ≡ none

  -- What GetCertificate went through.
  record Issued (p : AttestationProvider) (now : ℕ) (key : K) (nonce der : Bytes) (t : Template)
      : Type 0 where
    pub pub_key : Bytes
    pub data' : Bytes
    pub marshalled : x.marshal_public_key (x.public_of key) ≡ ok pub_key
    pub attested : attest x p pub_key nonce ≡ ok data'
    pub created : x.create_certificate t key ≡ ok der
    pub extra : t.extra_extensions ≡ record { id = p.oid; value = data' } ∷ []

  get_certificate-Issued :
      (now : ℕ) (key : K) (p : AttestationProvider) (subject : CertificateSubject)
      (nonce der : Bytes) (name : Text)
      → extract_nonce_from_sni name ≡ ok nonce
      → get_certificate x now (ok key) (new_attested_provider x p subject) name ≡ ok (der, key)
      → (t : Template) × Issued p now key nonce der t
  unfolding get_certificate generate_self_signed_certificate new_attested_provider
  get_certificate-Issued now key p subject nonce der name named h =
      let (pub_key, marshalled, h1) =
        >>=-eq-ok (attempt marshal_key_failed (x.marshal_public_key (x.public_of key))) _ h in
      let (nonce', extracted, h2) =
        >>=-eq-ok (attempt bad_name (extract_nonce_from_sni name)) _ h1 in
      let same_nonce : nonce ≡ nonce' = ground (arith, named, attempt-eq-ok _ _ extracted) in
      let (data', attested, h3) =
        >>=-eq-ok (attempt attestation_failed (attest x p pub_key nonce')) _ h2 in
      let extension : Extension = record { id = p.oid; value = data' } in
      let q = new_attested_provider x p subject in
      let (der', made, h4) =
        >>=-eq-ok (attempt create_failed (generate_self_signed_certificate x now q key extension)) _
          h3 in
      let same_der : der' ≡ der = ground (arith, h4) in
      (
        _,
        record {
          pub_key = pub_key;
          data' = data';
          marshalled = attempt-eq-ok _ _ marshalled;
          attested = rw same_nonce (attempt-eq-ok _ _ attested);
          created = attempt-eq-ok _ _ made ∙ ap ok same_der;
          extra = refl;
        },
      )

  -- The certificate of a self-signed provider is let through for the nonce of its name.
  let_through :
      {E : Type 0} (vs : Verifiers E) (path : String) (verify : Verify E) (attester : Attester)
      (platform : PlatformType) (id : Oid) (now : ℕ) (key : K) (nonce der : Bytes) (t : Template)
      → oid platform ≡ some id
      → Issued
          (record { provider = attester; oid = id; platform_type = platform })
          now
          key
          nonce
          der
          t
      → SelfSigned t key der
      → platform_verifier vs path platform ≡ ok verify
      → ((tee vtpm a : Bytes) → attester.attestation tee vtpm ≡ ok a → verify a tee vtpm ≡ ok tt)
      → verify_peer_certificate vs x path none (der ∷ []) nonce ≡ ok tt
  unfolding verify_peer_certificate verify_certificate_signature attest
  let_through vs path verify attester platform id now key nonce der t known i s found accepts =
      let extension : Extension = record { id = id; value = i.data' } in
      let marshalled = ap x.marshal_public_key s.key_kept ∙ i.marshalled in
      let answer =
        verify_attestation_extension-split vs x path s.cert nonce i.pub_key s.standard [] extension
          platform verify s.unknown (platform_type_from_oid-oid platform id known) marshalled
          found in
      let accepted =
        accepts (hash_nonce x i.pub_key nonce) (take 32 (hash_nonce x i.pub_key nonce)) i.data'
          i.attested in
      let whole : verify_attestation_extension vs x path s.cert nonce s.cert.extensions ≡ ok tt =
        ap (λ es. verify_attestation_extension vs x path s.cert nonce es)
          (s.extensions ∙ ap (λ es. s.standard ++ es) i.extra)
        ∙ answer
        ∙ ap (attempt not_attested) accepted in
      rw (s.parsed, s.verified) whole

  -- A self-signed provider for a platform, and a platform's verifier that accepts what the provider
  -- attests: a server's certificate for the name that was made of a nonce is let through for that
  -- nonce.
  pub handshake_attested :
      {E : Type 0} (vs : Verifiers E) (path : String) (verify : Verify E) (attester : Attester)
      (platform : PlatformType) (token cvm_id : String) (q : AttestedCertificateProvider K)
      (now : ℕ) (key : K) (nonce der : Bytes)
      → new_provider x attester platform token cvm_id none ≡ ok q
      → AreBytes nonce
      → length nonce ≡ nonce_length
      → get_certificate x now (ok key) q (encode nonce ++ nonce_suffix) ≡ ok (der, key)
      → ((t : Template) → x.create_certificate t key ≡ ok der → SelfSigned t key der)
      → platform_verifier vs path platform ≡ ok verify
      → ((tee vtpm a : Bytes) → attester.attestation tee vtpm ≡ ok a → verify a tee vtpm ≡ ok tt)
      → verify_peer_certificate vs x path none (der ∷ []) nonce ≡ ok tt
  unfolding new_provider new_attestation_provider
  handshake_attested vs path verify attester platform token cvm_id q now key nonce der made small
        long issued x509 found accepts =
      elim (Option-cases (oid platform)) [
        | inl bad ↦ absurd (let e = rw bad at made in ground arith)
        | inr (id, known) ↦
            let p : AttestationProvider = record {
              provider = attester;
              oid = id;
              platform_type = platform;
            } in
            let same : ok (provider_for x p token cvm_id none) ≡ ok q = rw known at made in
            let equal : q ≡ provider_for x p token cvm_id none = ground arith in
            let (t, i) =
              get_certificate-Issued now key p default_certificate_subject nonce der
                (encode nonce ++ nonce_suffix) (extract_nonce_from_sni-encode nonce small long)
                (rw equal at issued) in
            let_through vs path verify attester platform id now key nonce der t known i
              (x509 t i.created) found accepts
      ]
