-- ===== src/Tls/Connected.antt =====
-- pkg/clients/tls.go and pkg/atls: a client that LoadATLSConfig configures meets an attested
-- server.
use cocos.Common.{
  ℕ, ◌≡◌, refl, ap, ◌∙◌, Bool, true, false, ◌&&◌, Option, none, some, List, [], ◌∷◌, ◌++◌, String,
  Bytes, length, ◌==◌, string_comparable, if◌then◌else◌, arith,
}
use cocos.Common.Exec.{Result, ok, err, pure, ◌>>=◌, After, After-continue, After-guard}
use cocos.Attestation.Hex.{AreBytes, encode}
use cocos.Tls.Platforms.{PlatformType, nonce_suffix, nonce_length}
use cocos.Tls.Provider.{
  Template, Attester, Certificate, X509, AttestedCertificateProvider, get_certificate, new_provider,
}
use cocos.Tls.Verifier.{Verify, Verifiers, platform_verifier}
use cocos.Tls.Clients.{
  AttestedClientConfig, ClientError, ClientIo, Security, with_atls, with_matls, with_mtls,
  TlsConfig, TlsResult, attempt, or_throw, read_failed, not_decoded, parse_failed,
  client_cert_failed, stat_failed, nonce_failed, policy_irregular, load_root_cas, load_atls_config,
  verify_peer, with_client_cert, roots_of,
}
use cocos.Tls.Handshake.{SelfSigned, handshake_attested}

module _ {R Q : Type 0} (io : ClientIo R Q) (cfg : AttestedClientConfig) (nonce : Bytes) where
  -- The name of the nonce, and without a CA the nonce alone to verify with.
  abbrev Asks : TlsConfig R Q → Type 0
  Asks c =
      (c.server_name ≡ encode nonce ++ nonce_suffix)
      × (cfg.standard.server_ca_file ≡ "" → c.verify ≡ some (none, nonce))

  abbrev Set : {A : Type 0} → (A → Type 0) → Result ClientError A × String → Type 0
  Set S = After (λ a path. (path ≡ cfg.attestation_policy) × S a) (λ path. Unit)

  abbrev Asked : TlsResult R Q → Type 0
  Asked r = (c : TlsConfig R Q) × (r.config ≡ some c) × Asks c

  nothing :
      {A : Type 0} (m : Result ClientError A × String) → After (λ a s. Unit {0}) (λ s. Unit {0}) m
  nothing (ok a, s) = tt
  nothing (err e, s) = tt

  attempt-Set :
      {A : Type 0} (wrap : String → ClientError) (r : Result String A) (path : String)
      → path ≡ cfg.attestation_policy
      → Set {A = A} (λ a. Unit) (attempt io wrap r path)
  attempt-Set wrap (ok a) path same = (same, tt)
  attempt-Set wrap (err e) path same = tt

  or_throw-Set :
      {A : Type 0} (e : ClientError) (o : Option A) (path : String)
      → path ≡ cfg.attestation_policy
      → Set {A = A} (λ a. Unit) (or_throw io e o path)
  or_throw-Set e none path same = tt
  or_throw-Set e (some a) path same = (same, tt)

  abbrev There : {A : Type 0} → A → String → Type 0
  There a s = (s ≡ cfg.attestation_policy) × Unit {0}

  load_root_cas-Set :
      (file path : String)
      → path ≡ cfg.attestation_policy
      → After There (λ s. Unit {0}) (load_root_cas io file path)
  unfolding load_root_cas
  load_root_cas-Set file path same =
      After-continue (λ s. Unit) There There (attempt io read_failed (io.read_file file) path) _
        (attempt-Set read_failed (io.read_file file) path same)
        λ pem path1 (same1, u).
          After-continue (λ s. Unit) There There (or_throw io not_decoded (io.pem_decode pem) path1)
            _ (or_throw-Set not_decoded (io.pem_decode pem) path1 same1)
            λ block path2 (same2, u').
              After-continue (λ s. Unit) There There
                (attempt io parse_failed (io.parse_certificate block) path2) _
                (attempt-Set parse_failed (io.parse_certificate block) path2 same2)
                λ cert path3 same3. same3

  roots_of-Set :
      (file path : String)
      → path ≡ cfg.attestation_policy
      → Set {A = Option (List R) × Security} (λ r. file ≡ "" → r.0 ≡ none) (roots_of io file path)
  roots_of-Set file path same = by_name (file == "") refl
    where
      by_name :
          (b : Bool)
          → (file == "") ≡ b
          → Set {A = Option (List R) × Security}
              (λ r. file ≡ "" → r.0 ≡ none)
              ((if b
                  then pure (none, with_atls)
                  else (load_root_cas io file >>= λ roots. pure (some roots, with_matls)))
                path)
      by_name true e = (same, λ h. refl)
      by_name false e =
          After-continue (λ s. Unit) There
            (λ (r : Option (List R) × Security) s.
              (s ≡ cfg.attestation_policy) × (file ≡ "" → r.0 ≡ none))
            (load_root_cas io file path) _ (load_root_cas-Set file path same)
            λ roots path' (same', u). (
              same',
              λ h. absurd (let named = (string_comparable.equal_iff file "").1 h in ground arith),
            )

  nonce-Set :
      (r : Result String Bytes) (path : String)
      → r ≡ ok nonce
      → path ≡ cfg.attestation_policy
      → Set (λ m. m ≡ nonce) (attempt io nonce_failed r path)
  nonce-Set (ok m) path h same = (same, ground (arith, h))
  nonce-Set (err e) path h same = tt

  with_client_cert-Set :
      (cert key path : String) (c : TlsConfig R Q) (s : Security)
      → path ≡ cfg.attestation_policy
      → Asks c
      → Set {A = TlsConfig R Q × Security}
          (λ q. Asks q.0)
          (with_client_cert io cert key (c, s) path)
  with_client_cert-Set cert key path c s same asks = by_name (cert == "" && key == "")
    where
      loaded :
          (r : Result String Q)
          → Set {A = TlsConfig R Q × Security}
              (λ q. Asks q.0)
              ((attempt io client_cert_failed r >>= λ pair.
                  pure (record c { certificates = pair ∷ [] }, with_mtls))
                path)
      loaded (err e) = tt
      loaded (ok pair) = (same, asks)

      by_name :
          (b : Bool)
          → Set {A = TlsConfig R Q × Security}
              (λ q. Asks q.0)
              ((if b
                  then pure (c, s)
                  else (attempt io client_cert_failed (io.load_key_pair cert key) >>= λ pair.
                      pure (record c { certificates = pair ∷ [] }, with_mtls)))
                path)
      by_name true = (same, asks)
      by_name false = loaded (io.load_key_pair cert key)

  pub load_atls_config-Asked :
      (path : String) → io.nonce ≡ ok nonce → Set Asked (load_atls_config io cfg path)
  unfolding load_atls_config
  load_atls_config-Asked path n =
      After-continue (λ s. Unit) (λ b s. Unit {0}) Q'
        (attempt io stat_failed (io.stat cfg.attestation_policy) path) _
        (nothing (attempt io stat_failed (io.stat cfg.attestation_policy) path))
        λ regular path' u.
          After-guard (λ s. Unit) Q' regular policy_irregular path' _ tt
            λ r.
              After-continue (λ s. Unit)
                (λ (r : Option (List R) × Security) s.
                  (s ≡ cfg.attestation_policy) × (cfg.standard.server_ca_file ≡ "" → r.0 ≡ none))
                Q' (roots_of io cfg.standard.server_ca_file cfg.attestation_policy) _
                (roots_of-Set cfg.standard.server_ca_file cfg.attestation_policy refl)
                λ r path'' (same, no_roots).
                  After-continue (λ s. Unit) (λ m s. (s ≡ cfg.attestation_policy) × (m ≡ nonce)) Q'
                    (attempt io nonce_failed io.nonce path'') _ (nonce-Set io.nonce path'' n same)
                    λ m path3 (same', e).
                      After-continue (λ s. Unit)
                        (λ (q : TlsConfig R Q × Security) s.
                          (s ≡ cfg.attestation_policy) × Asks q.0)
                        Q' _ _
                        (with_client_cert-Set cfg.standard.client_cert cfg.standard.client_key path3
                          _ r.1 same'
                          (
                            ap (λ m. encode m ++ nonce_suffix) e,
                            λ h.
                                ap (λ (o : Option (List R)). some (o, m)) (no_roots h)
                                ∙ ap (λ m. some (none, m)) e,
                          ))
                        λ q path4 (same'', asks). (same'', (q.0, refl, asks))
    where
      Q' : TlsResult R Q → String → Type 0
      Q' r s = (s ≡ cfg.attestation_policy) × Asked r

module _ {K P C Q : Type 0} (x : X509 K P C) (io : ClientIo (Certificate P C) Q) where
  -- A client without a CA of its own that LoadATLSConfig configures, and a server with a
  -- self-signed provider for a platform, where crypto/x509 keeps what it documents of the server's
  -- certificate and the platform's verifier, with the client's policy, accepts what the server's
  -- platform attests: the certificate that GetCertificate makes for the client's name is let
  -- through.
  pub connected_attested :
      {E : Type 0} (vs : Verifiers E) (cfg : AttestedClientConfig)
      (r : TlsResult (Certificate P C) Q) (c : TlsConfig (Certificate P C) Q) (before path : String)
      (verify : Verify E) (attester : Attester) (platform : PlatformType) (token cvm_id : String)
      (q : AttestedCertificateProvider K) (now : ℕ) (key : K) (nonce der : Bytes)
      → io.nonce ≡ ok nonce
      → AreBytes nonce
      → length nonce ≡ nonce_length
      → cfg.standard.server_ca_file ≡ ""
      → load_atls_config io cfg before ≡ (ok r, path)
      → r.config ≡ some c
      → new_provider x attester platform token cvm_id none ≡ ok q
      → get_certificate x now (ok key) q c.server_name ≡ ok (der, key)
      → ((t : Template) → x.create_certificate t key ≡ ok der → SelfSigned x t key der)
      → platform_verifier vs cfg.attestation_policy platform ≡ ok verify
      → ((tee vtpm a : Bytes) → attester.attestation tee vtpm ≡ ok a → verify a tee vtpm ≡ ok tt)
      → verify_peer vs x path c (der ∷ []) ≡ ok tt
  unfolding verify_peer
  connected_attested vs cfg r c before path verify attester platform token cvm_id q now key nonce
        der n small long no_ca loaded configured made issued x509 found accepts =
      let asked = load_atls_config-Asked io cfg nonce before n in
      let (same, (c', configured', (name, closure))) = rw loaded at asked in
      let equal : c ≡ c' = ground (arith, configured, configured') in
      let named : c.server_name ≡ encode nonce ++ nonce_suffix =
        ap (λ (d : TlsConfig (Certificate P C) Q). d.server_name) equal ∙ name in
      let verified : c.verify ≡ some (none, nonce) =
        ap (λ (d : TlsConfig (Certificate P C) Q). d.verify) equal ∙ closure no_ca in
      rw (verified, same)
        (handshake_attested x vs cfg.attestation_policy verify attester platform token cvm_id q now
          key nonce der made small long (rw named at issued) x509 found accepts)
