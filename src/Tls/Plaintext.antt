-- ===== src/Tls/Plaintext.antt =====
-- pkg/clients/tls.go and pkg/clients/grpc/grpc.go: when a client's connection is not secured.
use cocos.Common.{
  ◌≡◌, ◌⊎◌, inl, inr, refl, sym, ◌∙◌, Bool, true, false, not, ◌&&◌, Option, none, some, List, [],
  ◌∷◌, String, Bytes, ◌==◌, string_comparable, if◌then◌else◌, arith, Bool-cases,
}
use cocos.Common.Exec.{Result, ok, err, ◌>>=◌, pure, After, After-continue, After-check}
use cocos.Tls.Clients.{
  Security, without_tls, with_tls, with_mtls, with_atls, with_matls, StandardClientConfig,
  ClientConfig, attested_config, standard_config, config_of, ClientError, root_ca_failed,
  connect_failed, client_cert_failed, not_appended, TlsConfig, TlsResult, ClientIo, attempt,
  or_throw, empty_config, trusting_pool, with_server_ca, with_client_cert, load_basic_tls_config,
  load_atls_config, Credentials, insecure, secured, load_tls_config, new_tls, standard_credentials,
  choose, connect, Unprotected, AsksForAttested,
}

module _ {R Q : Type 0} (io : ClientIo R Q) where
  -- The answers that `S` holds of; an error is none.
  abbrev Answers : {A : Type 0} → (A → Type 0) → Result ClientError A × String → Type 0
  Answers S = After (λ a path. S a) (λ path. Unit)

  abbrev CaOpen : String → Type 0
  CaOpen file = (file ≡ "") ⊎ (io.read_file file ≡ ok [])

  abbrev CaKnown : String → TlsConfig R Q × Security → Type 0
  CaKnown file p = p.1 ≡ without_tls → CaOpen file

  with_server_ca-CaKnown :
      (file path : String)
      → Answers (CaKnown file) (with_server_ca io file (empty_config io, without_tls) path)
  with_server_ca-CaKnown file path = elim (Bool-cases (file == "")) [
    | inl e ↦ rw e (λ s. inl ((string_comparable.equal_iff file "").0 e))
    | inr n ↦ rw n (read (io.read_file file) refl)
  ]
    where
      pooled :
          (o : Option (List R))
          → Answers (CaKnown file) (
              (or_throw io not_appended o >>= λ pool.
              pure (record (empty_config io) { root_cas = some pool }, with_tls))
                path)
      pooled none = tt
      pooled (some pool) = λ s. absurd (ground arith)

      read :
          (r : Result String Bytes)
          → io.read_file file ≡ r
          → Answers (CaKnown file) (
              (attempt io root_ca_failed r >>= λ root_ca.
              trusting_pool io root_ca (empty_config io, without_tls))
                path)
      read (err e) h = tt
      read (ok []) h = λ s. inr h
      read (ok (b ∷ bs)) h = pooled (io.append_certs_from_pem (b ∷ bs))

  abbrev NoPair : String → String → String → TlsConfig R Q × Security → Type 0
  NoPair file cert key q = q.1 ≡ without_tls → (cert ≡ "") × (key ≡ "") × CaOpen file

  with_client_cert-NoPair :
      (file cert key : String) (p : TlsConfig R Q × Security) (path : String)
      → CaKnown file p
      → Answers (NoPair file cert key) (with_client_cert io cert key p path)
  with_client_cert-NoPair file cert key (c, s) path known =
      elim (Bool-cases (cert == "" && key == "")) [
        | inl e ↦ rw e (λ h. (
          (string_comparable.equal_iff cert "").0 (ground arith),
          (string_comparable.equal_iff key "").0 (ground arith),
          known h,
        ))
        | inr n ↦ rw n (loaded (io.load_key_pair cert key))
      ]
    where
      loaded :
          (r : Result String Q)
          → Answers (NoPair file cert key) (
              (attempt io client_cert_failed r >>= λ pair.
              pure (record c { certificates = pair ∷ [] }, with_mtls))
                path)
      loaded (err e) = tt
      loaded (ok pair) = λ s. absurd (ground arith)

  abbrev OnlyUnprotected : StandardClientConfig → Credentials R Q × Security → Type 0
  OnlyUnprotected c r = r.0 ≡ insecure → Unprotected io c × (r.1 ≡ without_tls)

  secured-insecure :
      (c : TlsConfig R Q) (s : Security) → secured io (some c) s ≡ insecure → s ≡ without_tls
  secured-insecure c without_tls h = refl
  secured-insecure c with_tls h = absurd (ground arith)
  secured-insecure c with_mtls h = absurd (ground arith)
  secured-insecure c with_atls h = absurd (ground arith)
  secured-insecure c with_matls h = absurd (ground arith)

  standard_credentials-OnlyUnprotected :
      (c : StandardClientConfig) (path : String)
      → Answers (OnlyUnprotected c) (standard_credentials io c path)
  unfolding load_tls_config load_basic_tls_config
  standard_credentials-OnlyUnprotected c path =
      elim (Bool-cases (c.server_ca_file == "" && (c.client_cert == "" && c.client_key == ""))) [
        | inl e ↦ rw e (λ h. (
          (
            (string_comparable.equal_iff c.client_cert "").0 (ground arith),
            (string_comparable.equal_iff c.client_key "").0 (ground arith),
            inl ((string_comparable.equal_iff c.server_ca_file "").0 (ground arith)),
          ),
          refl,
        ))
        | inr n ↦ rw n (
            After-continue (λ path. Unit) Mid (λ r path. OnlyUnprotected c r) _ _
              (After-continue (λ path. Unit) (λ p path. CaKnown c.server_ca_file p) Mid
                (with_server_ca io c.server_ca_file (empty_config io, without_tls) path) _
                (with_server_ca-CaKnown c.server_ca_file path)
                λ p path' known.
                  After-continue (λ path. Unit)
                    (λ q path. NoPair c.server_ca_file c.client_cert c.client_key q) Mid
                    (with_client_cert io c.client_cert c.client_key p path') _
                    (with_client_cert-NoPair c.server_ca_file c.client_cert c.client_key p path'
                      known)
                    λ q path' open'. (q.0, refl, open'))
              λ r path' (q, e, open').
                rw e (λ h. let s = secured-insecure q r.security h in (open' s, s)))
      ]
    where
      Mid : TlsResult R Q → String → Type 0
      Mid r path =
          (q : TlsConfig R Q) × (r.config ≡ some q)
          × NoPair c.server_ca_file c.client_cert c.client_key (q, r.security)

  abbrev OnlyAsked : ClientConfig → Credentials R Q × Security → Type 0
  OnlyAsked cfg r =
      r.0 ≡ insecure
      → (¬ AsksForAttested io cfg) × Unprotected io (config_of cfg) × (r.1 ≡ without_tls)

  any_answer : {A : Type 0} (m : Result ClientError A × String) → Answers (λ a. Unit {0}) m
  any_answer (ok a, path) = tt
  any_answer (err e, path) = tt

  new_tls-secure : (o : Option (TlsConfig R Q)) → new_tls io o ≡ insecure → ⊥
  new_tls-secure none h = absurd (ground arith)
  new_tls-secure (some c) h = absurd (ground arith)

  choose-OnlyAsked :
      (cfg : ClientConfig) (path : String) → Answers (OnlyAsked cfg) (choose io cfg path)
  choose-OnlyAsked (standard_config c) path =
      asked (standard_credentials io c path) (standard_credentials-OnlyUnprotected c path)
    where
      asked :
          (m : Result ClientError (Credentials R Q × Security) × String)
          → Answers (OnlyUnprotected c) m
          → Answers (OnlyAsked (standard_config c)) m
      asked (ok r, path) k = λ h. (λ n. n, (k h).0, (k h).1)
      asked (err e, path) k = tt
  choose-OnlyAsked (attested_config c) path = by_flag c.attested_tls refl
    where
      asked :
          c.attested_tls ≡ false
          → (m : Result ClientError (Credentials R Q × Security) × String)
          → Answers (OnlyUnprotected c.standard) m
          → Answers (OnlyAsked (attested_config c)) m
      asked n (ok r, path) k =
          λ h. (λ y. absurd (let b = sym y ∙ n in ground arith), (k h).0, (k h).1)
      asked n (err e, path) k = tt

      by_flag :
          (b : Bool)
          → c.attested_tls ≡ b
          → Answers (OnlyAsked (attested_config c)) (
              (if not b
                  then standard_credentials io c.standard
                  else (load_atls_config io c >>= λ r. pure (new_tls io r.config, r.security)))
                path)
      by_flag true e =
          After-continue (λ path. Unit) (λ r path. Unit {0})
            (λ r path. OnlyAsked (attested_config c) r) (load_atls_config io c path) _
            (any_answer (load_atls_config io c path))
            λ r path' u. λ h. absurd (new_tls-secure r.config h)
      by_flag false e =
          asked e (standard_credentials io c.standard path)
            (standard_credentials-OnlyUnprotected c.standard path)

  -- A connection is left in plain text only when no attested TLS is asked for, no client
  -- certificate and no key are named, and the server's CA is not named either or is an empty file;
  -- the answer then says that there is no TLS.
  pub connect_insecure :
      (cfg : ClientConfig) (path path' : String) (s : Security)
      → connect io cfg path ≡ (ok (insecure, s), path')
      → (¬ AsksForAttested io cfg) × Unprotected io (config_of cfg) × (s ≡ without_tls)
  unfolding connect
  connect_insecure cfg path path' s h =
      let chosen =
        After-continue (λ path. Unit) (λ r path. OnlyAsked cfg r) (λ r path. OnlyAsked cfg r)
          (choose io cfg path) _ (choose-OnlyAsked cfg path)
          λ r path' k.
            After-check (λ path. Unit) (λ r path. OnlyAsked cfg r) io.dial connect_failed path'
              (λ u. pure r) tt k in
      (rw h at chosen) refl
