-- ===== src/Tls/Clients.antt =====
-- pkg/clients/clients.go, pkg/clients/tls.go and pkg/clients/grpc/grpc.go: how a client's
-- connection is secured. LoadATLSConfig writes the path of the policy into a variable of
-- pkg/attestation, which is the state; the verification that it installs reads the path when a
-- server answers.
use cocos.Common.{
  ◌≡◌, ◌⊎◌, Bool, true, false, not, ◌&&◌, Option, none, some, List, [], ◌∷◌, ◌++◌, String, Bytes,
  ◌==◌, string_comparable, if◌then◌else◌,
}
use cocos.Common.Exec.{Exec, Result, ok, err, ◌>>=◌, ◌>>◌, pure, throw, modify, guard, check}
use cocos.Attestation.Hex.{Text, encode}
use cocos.Tls.Platforms.{nonce_suffix}
use cocos.Tls.Provider.{Certificate, X509}
use cocos.Tls.Verifier.{Verifiers, VerifyError, verify_peer_certificate}

pub data Security : Type 0 where
  without_tls with_tls with_mtls with_atls with_matls : Security

unfoldable pub security_text : Security → String
security_text with_tls = "with TLS"
security_text with_mtls = "with mTLS"
security_text with_atls = "with aTLS"
security_text with_matls = "with maTLS"
security_text without_tls = "without TLS"

pub record StandardClientConfig : Type 0 where
  pub url : String
  pub client_cert : String
  pub client_key : String
  pub server_ca_file : String

pub record AttestedClientConfig : Type 0 where
  pub standard : StandardClientConfig
  pub attestation_policy : String
  pub attested_tls : Bool

-- ClientConfiguration
pub data ClientConfig : Type 0 where
  attested_config : AttestedClientConfig → ClientConfig
  standard_config : StandardClientConfig → ClientConfig

abbrev pub config_of : ClientConfig → StandardClientConfig
config_of (attested_config c) = c.standard
config_of (standard_config c) = c

pub data ClientError : Type 0 where
  root_ca_failed client_cert_failed stat_failed read_failed parse_failed nonce_failed
        connect_failed :
      String → ClientError
  not_appended policy_irregular not_decoded : ClientError

-- tls.Config: `verify` is what VerifyPeerCertificate closes over, the roots and the nonce.
pub record TlsConfig (R Q : Type 0) : Type 0 where
  pub root_cas : Option (List R)
  pub certificates : List Q
  pub server_name : Text
  pub insecure_skip_verify : Bool
  pub verify : Option (Option (List R) × Bytes)

-- TLSResult
pub record TlsResult (R Q : Type 0) : Type 0 where
  pub config : Option (TlsConfig R Q)
  pub security : Security

-- The files, and crypto/tls and encoding/pem on their contents. `R` is a certificate, `Q` a key
-- pair.
pub record ClientIo (R Q : Type 0) : Type 0 where
  pub read_file : String → Result String Bytes
  -- whether the file is regular
  pub stat : String → Result String Bool
  pub load_key_pair : String → String → Result String Q
  pub append_certs_from_pem : Bytes → Option (List R)
  pub pem_decode : Bytes → Option Bytes
  pub parse_certificate : Bytes → Result String R
  -- 64 bytes of rand.Read
  pub nonce : Result String Bytes
  -- grpc.NewClient
  pub dial : Option String

-- The transport's credentials.
pub data Credentials (R Q : Type 0) : Type 0 where
  insecure : Credentials R Q
  tls : TlsConfig R Q → Credentials R Q

module _ {R Q : Type 0} (io : ClientIo R Q) where
  -- A call whose error is wrapped.
  abbrev pub attempt :
      {A : Type 0} → (String → ClientError) → Result String A → Exec String ClientError A
  attempt wrap (ok a) = pure a
  attempt wrap (err e) = throw (wrap e)

  abbrev pub or_throw : {A : Type 0} → ClientError → Option A → Exec String ClientError A
  or_throw e none = throw e
  or_throw e (some a) = pure a

  abbrev pub empty_config : TlsConfig R Q
  empty_config = record {
    root_cas = none;
    certificates = [];
    server_name = [];
    insecure_skip_verify = false;
    verify = none;
  }

  abbrev pub trusting_pool :
      Bytes → TlsConfig R Q × Security → Exec String ClientError (TlsConfig R Q × Security)
  trusting_pool [] (c, s) = pure (c, s)
  trusting_pool (b ∷ bs) (c, s) = do
    pool ← or_throw not_appended (io.append_certs_from_pem (b ∷ bs))
    pure (record c { root_cas = some pool }, with_tls)

  abbrev pub with_server_ca :
      String → TlsConfig R Q × Security → Exec String ClientError (TlsConfig R Q × Security)
  with_server_ca file p =
      if file == ""
      then pure p
      else do root_ca ← attempt root_ca_failed (io.read_file file); trusting_pool root_ca p

  abbrev pub with_client_cert :
      String
      → String
      → TlsConfig R Q × Security
      → Exec String ClientError (TlsConfig R Q × Security)
  with_client_cert cert key (c, s) = if cert == "" && key == "" then pure (c, s) else do
    pair ← attempt client_cert_failed (io.load_key_pair cert key)
    pure (record c { certificates = pair ∷ [] }, with_mtls)

  unfoldable pub load_basic_tls_config :
      String → String → String → Exec String ClientError (TlsResult R Q)
  load_basic_tls_config server_ca_file cert key =
      if server_ca_file == "" && (cert == "" && key == "")
      then pure (record { config = none; security = without_tls })
      else do
        p ← with_server_ca server_ca_file (empty_config, without_tls)
        q ← with_client_cert cert key p
        pure (record { config = some q.0; security = q.1 })

  -- loadRootCAs: the first certificate of the file
  unfoldable pub load_root_cas : String → Exec String ClientError (List R)
  load_root_cas file = do
    pem ← attempt read_failed (io.read_file file)
    block ← or_throw not_decoded (io.pem_decode pem)
    cert ← attempt parse_failed (io.parse_certificate block)
    pure (cert ∷ [])

  abbrev pub roots_of : String → Exec String ClientError (Option (List R) × Security)
  roots_of file =
      if file == ""
      then pure (none, with_atls)
      else do roots ← load_root_cas file; pure (some roots, with_matls)

  unfoldable pub load_atls_config : AttestedClientConfig → Exec String ClientError (TlsResult R Q)
  unfolding load_root_cas
  load_atls_config cfg = do
    regular ← attempt stat_failed (io.stat cfg.attestation_policy)
    guard regular policy_irregular
    modify λ path. cfg.attestation_policy
    r ← roots_of cfg.standard.server_ca_file
    nonce ← attempt nonce_failed io.nonce
    q ← with_client_cert cfg.standard.client_cert cfg.standard.client_key (
      record {
        root_cas = r.0;
        certificates = [];
        server_name = encode nonce ++ nonce_suffix;
        insecure_skip_verify = true;
        verify = some (r.0, nonce);
      },
      r.1,
    )
    pure (record { config = some q.0; security = r.1 })

  abbrev pub secured : Option (TlsConfig R Q) → Security → Credentials R Q
  secured none s = insecure
  secured (some c) without_tls = insecure
  secured (some c) s = tls c

  unfoldable pub load_tls_config :
      String → String → String → Exec String ClientError (Credentials R Q × Security)
  unfolding load_basic_tls_config
  load_tls_config server_ca_file cert key = do
    r ← load_basic_tls_config server_ca_file cert key
    pure (secured r.config r.security, r.security)

  -- credentials.NewTLS takes nil for an empty configuration.
  abbrev pub new_tls : Option (TlsConfig R Q) → Credentials R Q
  new_tls none = tls empty_config
  new_tls (some c) = tls c

  abbrev pub standard_credentials :
      StandardClientConfig → Exec String ClientError (Credentials R Q × Security)
  standard_credentials c = load_tls_config c.server_ca_file c.client_cert c.client_key

  abbrev pub choose : ClientConfig → Exec String ClientError (Credentials R Q × Security)
  choose (standard_config c) = standard_credentials c
  choose (attested_config c) =
      if not c.attested_tls
      then standard_credentials c.standard
      else do r ← load_atls_config c; pure (new_tls r.config, r.security)

  unfoldable pub connect : ClientConfig → Exec String ClientError (Credentials R Q × Security)
  unfolding load_tls_config load_atls_config
  connect cfg = do chosen ← choose cfg; check io.dial connect_failed; pure chosen

  -- No client certificate, and a server's CA that is not named or has no bytes.
  abbrev pub Unprotected : StandardClientConfig → Type 0
  Unprotected c =
      (c.client_cert ≡ "")
      × (c.client_key ≡ "")
      × ((c.server_ca_file ≡ "") ⊎ (io.read_file c.server_ca_file ≡ ok []))

  abbrev pub AsksForAttested : ClientConfig → Type 0
  AsksForAttested (attested_config c) = c.attested_tls ≡ true
  AsksForAttested (standard_config c) = ⊥

-- What VerifyPeerCertificate answers for a configuration, given the path that the variable then
-- holds.
unfoldable pub verify_peer :
    {E K P C Q : Type 0}
    → Verifiers E
    → X509 K P C
    → String
    → TlsConfig (Certificate P C) Q
    → List Bytes
    → Result (VerifyError E) (Unit {0})
unfolding verify_peer_certificate
verify_peer vs x path c raw = elim c.verify [
  | none ↦ ok tt
  | some v ↦ verify_peer_certificate vs x path v.0 raw v.1
]
