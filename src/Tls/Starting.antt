-- ===== src/Tls/Starting.antt =====
-- pkg/server/grpc/grpc.go: what the credentials of a server are, and how often it can be started.
use cocos.Common.{
  ◌≡◌, ◌≢◌, ◌↔◌, ◌⊎◌, inl, inr, refl, sym, ◌∙◌, subst, Bool, true, false, not, ◌&&◌, ◌||◌, Option,
  none, some, List, [], ◌∷◌, String, Bytes, is_some, if◌then◌else◌, arith,
}
use mathlib.Core.Path.{ap₂}
use cocos.Common.Exec.{Result, ok, err}
use cocos.Common.Results.{◌>>=◌, attempt, or_fail}
use cocos.Tls.Servers.{
  Config, ServerConfiguration, get_base_config, no_client_cert, require_and_verify_client_cert,
  TlsConfig, Credentials, insecure, tls, ServerError, ServerIo, null, trust_clients, trust_servers,
  configure_root_ca, configure_client_ca, configure_certificate_authorities, with_mtls, no_config,
  setup_regular_tls, new, asks_for_attested, should_use_attested_tls, should_use_regular_tls,
  configure_attested_tls, configure_regular_tls, configure_credentials, load_x509_key_pair,
  append_client_ca, append_to, load_cert_file, client_ca_failed, append_server_ca, server_ca_failed,
}

module _ {R Q G : Type 0} (io : ServerIo R Q) where
  -- A client's certificate is asked for exactly when there are CAs to verify it with.
  abbrev pub AsksClients : TlsConfig R Q G → Type 0
  AsksClients c = (c.client_auth ≡ require_and_verify_client_cert) ↔ (c.client_cas ≢ none)

  -- What is true of the credentials of a server with this configuration and provider.
  abbrev pub Secures :
      ServerConfiguration → Option G → Result ServerError (Credentials R Q G) → Type 0
  Secures cfg provider (err e) = Unit
  Secures cfg provider (ok insecure) =
      ((asks_for_attested cfg ≡ false) ⊎ (provider ≡ none))
      × ((get_base_config cfg).cert_file ≡ [])
      × ((get_base_config cfg).key_file ≡ [])
  Secures cfg provider (ok (tls c)) =
      AsksClients c
      × (((asks_for_attested cfg ≡ true) × (provider ≢ none) × (c.get_certificate ≡ provider))
          ⊎ (((asks_for_attested cfg ≡ false) ⊎ (provider ≡ none))
              × (c.get_certificate ≡ none)
              × ((q : Q) × (load_x509_key_pair io (get_base_config cfg).cert_file
                      (get_base_config cfg).key_file
                    ≡ ok q)
                  × (c.certificates ≡ q ∷ []))))

  -- From a configuration without CAs: the CAs that were loaded, and the rest as it was.
  Configured : TlsConfig R Q G → Result ServerError (TlsConfig R Q G × Bool) → Type 0
  Configured c (err e) = Unit
  Configured c (ok d) =
      AsksClients (with_mtls d)
      × ((with_mtls d).get_certificate ≡ c.get_certificate)
      × ((with_mtls d).certificates ≡ c.certificates)

  configure_client_ca-Configured :
      (c d : TlsConfig R Q G) (file : Bytes)
      → d.client_auth ≡ no_client_cert
      → d.client_cas ≡ none
      → d.get_certificate ≡ c.get_certificate
      → d.certificates ≡ c.certificates
      → Configured c (configure_client_ca io d file)
  unfolding configure_client_ca Configured
  configure_client_ca-Configured c d file auth cas get same = loaded (load_cert_file io file)
    where
      pool :
          (o : Option (List R))
          → Configured c (
              or_fail append_client_ca o >>= λ certs.
              ok (record d { client_cas = append_to d.client_cas certs }, true))
      pool none = tt
      pool (some certs) = ((λ e. rw cas (λ n. absurd (ground arith)), λ n. refl), get, same)

      loaded :
          (r : Result String Bytes)
          → Configured c (attempt client_ca_failed r >>= trust_clients io d)
      loaded (err e) = tt
      loaded (ok []) =
          ((λ e. absurd (let f = sym auth ∙ e in ground arith), λ n. absurd (n cas)), get, same)
      loaded (ok (b ∷ bs)) = pool (io.append_certs_from_pem (b ∷ bs))

  configure_certificate_authorities-Configured :
      (c : TlsConfig R Q G) (server_ca client_ca : Bytes)
      → c.client_auth ≡ no_client_cert
      → c.client_cas ≡ none
      → Configured c (configure_certificate_authorities io c server_ca client_ca)
  unfolding configure_certificate_authorities configure_root_ca Configured
  configure_certificate_authorities-Configured c server_ca client_ca auth cas =
      loaded (load_cert_file io server_ca)
    where
      pool :
          (o : Option (List R))
          → Configured c (
              (or_fail append_server_ca o >>= λ certs.
              ok (record c { root_cas = append_to c.root_cas certs }))
              >>= λ d. configure_client_ca io d client_ca)
      pool none = tt
      pool (some certs) = configure_client_ca-Configured c _ client_ca auth cas refl refl

      loaded :
          (r : Result String Bytes)
          → Configured c (
              (attempt server_ca_failed r >>= trust_servers io c) >>= λ d.
              configure_client_ca io d client_ca)
      loaded (err e) = tt
      loaded (ok []) = configure_client_ca-Configured c c client_ca auth cas refl refl
      loaded (ok (b ∷ bs)) = pool (io.append_certs_from_pem (b ∷ bs))

  setup_regular_tls-Secures :
      (cfg : ServerConfiguration) (provider : Option G) (server_ca client_ca : Bytes)
      → (asks_for_attested cfg ≡ false) ⊎ (provider ≡ none)
      → let c = get_base_config cfg in
        Secures cfg provider
          (setup_regular_tls io c.cert_file c.key_file server_ca client_ca >>= λ t. ok (tls t))
  unfolding setup_regular_tls Configured
  setup_regular_tls-Secures cfg provider server_ca client_ca why =
      paired (load_x509_key_pair io (get_base_config cfg).cert_file (get_base_config cfg).key_file)
        refl
    where
      pair_of : Result ServerError Q
      pair_of = load_x509_key_pair io (get_base_config cfg).cert_file (get_base_config cfg).key_file

      configured :
          (q : Q) (r : Result ServerError (TlsConfig R Q G × Bool))
          → pair_of ≡ ok q
          → Configured (record no_config { certificates = q ∷ [] }) r
          → Secures cfg provider ((r >>= λ c. ok (with_mtls c)) >>= λ t. ok (tls t))
      configured q (err e) found k = tt
      configured q (ok c) found (asks, get, same) = (asks, inr (why, get, (q, found, same)))

      paired :
          (r : Result ServerError Q)
          → pair_of ≡ r
          → Secures cfg provider (
              (r >>= λ pair.
              configure_certificate_authorities io
                (record no_config { certificates = pair ∷ [] })
                server_ca
                client_ca
              >>= λ c. ok (with_mtls c))
              >>= λ t. ok (tls t))
      paired (err e) found = tt
      paired (ok q) found =
          configured q _ found
            (configure_certificate_authorities-Configured _ server_ca client_ca refl refl)

  configure_attested_tls-Secures :
      (cfg : ServerConfiguration) (provider : Option G) (c : Config)
      → asks_for_attested cfg ≡ true
      → provider ≢ none
      → Secures cfg provider (configure_attested_tls io provider c)
  unfolding configure_attested_tls Configured
  configure_attested_tls-Secures cfg provider c asked there = configured _ (
      configure_certificate_authorities-Configured (record no_config { get_certificate = provider })
        c.server_ca_file c.client_ca_file refl refl)
    where
      configured :
          (r : Result ServerError (TlsConfig R Q G × Bool))
          → Configured (record no_config { get_certificate = provider }) r
          → Secures cfg provider (r >>= λ t. ok (tls (with_mtls t)))
      configured (err e) k = tt
      configured (ok t) (asks, get, same) = (asks, inl (asked, there, get))

  -- The credentials of a new server: it is in plain text only where no certificate and no key are
  -- named, and attested TLS is not asked for or no provider was given for it, which a request for
  -- attested TLS does not prevent. Otherwise a client's certificate is required exactly when there
  -- are CAs to verify it, and the server's certificate comes from the provider, where attested TLS
  -- is asked for and a provider was given, and is else the pair loaded from the configured files.
  pub configure_credentials-Secures :
      (cfg : ServerConfiguration) (authenticated : Bool) (provider : Option G)
      → Secures cfg provider (configure_credentials io (new cfg authenticated provider))
  unfolding configure_credentials new should_use_attested_tls configure_regular_tls
      should_use_regular_tls
  configure_credentials-Secures cfg authenticated provider =
      by_request (asks_for_attested cfg) refl provider refl
    where
      c : Config
      c = get_base_config cfg

      regular :
          ((asks_for_attested cfg ≡ false) ⊎ (provider ≡ none))
          → Secures cfg provider (
              if not (null c.cert_file) || not (null c.key_file)
              then (setup_regular_tls io c.cert_file c.key_file c.server_ca_file c.client_ca_file
                  >>= λ t. ok (tls t))
              else ok insecure)
      regular why = by_files c.cert_file refl c.key_file refl
        where
          secured :
              (cert : Bytes)
              → c.cert_file ≡ cert
              → (key : Bytes) → c.key_file ≡ key
              → Secures cfg provider (
                  setup_regular_tls io cert key c.server_ca_file c.client_ca_file >>= λ t.
                  ok (tls t))
          secured cert e key f =
              subst
                (λ (p : Bytes × Bytes). Secures cfg provider (
                  setup_regular_tls io p.0 p.1 c.server_ca_file c.client_ca_file >>= λ t.
                  ok (tls t)))
                (ap₂ (λ (x y : Bytes). (x, y)) e f)
                (setup_regular_tls-Secures cfg provider c.server_ca_file c.client_ca_file why)

          by_files :
              (cert : Bytes)
              → c.cert_file ≡ cert
              → (key : Bytes) → c.key_file ≡ key
              → Secures cfg provider (
                  if not (null cert) || not (null key)
                  then (setup_regular_tls io cert key c.server_ca_file c.client_ca_file >>= λ t.
                      ok (tls t))
                  else ok insecure)
          by_files [] e [] f = (why, e, f)
          by_files [] e (k ∷ ks) f = secured [] e (k ∷ ks) f
          by_files (b ∷ bs) e key f = secured (b ∷ bs) e key f

      by_request :
          (b : Bool)
          → asks_for_attested cfg ≡ b
          → (o : Option G) → provider ≡ o
          → Secures cfg provider (
              if (b && is_some o) && is_some o
              then configure_attested_tls io o c
              else if not (null c.cert_file) || not (null c.key_file)
              then (setup_regular_tls io c.cert_file c.key_file c.server_ca_file c.client_ca_file
                  >>= λ t. ok (tls t))
              else ok insecure)
      by_request false e none f = regular (inl e)
      by_request false e (some g) f = regular (inl e)
      by_request true e none f = regular (inr f)
      by_request true e (some g) f =
          subst (λ o. Secures cfg provider (configure_attested_tls io o c)) f
            (configure_attested_tls-Secures cfg provider c e
              (λ n. absurd (let h = sym f ∙ n in ground arith)))
