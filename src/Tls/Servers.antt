-- ===== src/Tls/Servers.antt =====
-- pkg/server/server.go, pkg/server/tlsutil.go and pkg/server/grpc/grpc.go: the credentials of a
-- gRPC server, its start and its stop. A path, or the data that stands in its place, is its bytes;
-- `R` is a certificate, `Q` a key pair, `G` a provider of certificates.
use cocos.Common.{
  Bool, true, false, not, ◌&&◌, ◌||◌, Option, none, some, List, [], ◌∷◌, ◌++◌, String, Bytes,
  length, ltb, eqb, is_some, if◌then◌else◌,
}
use cocos.Common.Exec.{Result, ok, err}
use cocos.Common.Results.{◌>>=◌, attempt, or_fail}
use cocos.Attestation.Hex.{Text}

pub record Config : Type 0 where
  pub host : String
  pub port : String
  pub server_ca_file : Text
  pub cert_file : Text
  pub key_file : Text
  pub client_ca_file : Text

-- ServerConfiguration: an AgentConfig with its AttestedTLS, or a ServerConfig.
pub data ServerConfiguration : Type 0 where
  agent_config : Config → Bool → ServerConfiguration
  server_config : Config → ServerConfiguration

unfoldable pub get_base_config : ServerConfiguration → Config
get_base_config (agent_config c attested) = c
get_base_config (server_config c) = c

pub data ClientAuth : Type 0 where
  no_client_cert require_and_verify_client_cert : ClientAuth

-- tls.Config
pub record TlsConfig (R Q G : Type 0) : Type 0 where
  pub client_auth : ClientAuth
  pub certificates : List Q
  pub get_certificate : Option G
  pub root_cas : Option (List R)
  pub client_cas : Option (List R)

pub data Credentials (R Q G : Type 0) : Type 0 where
  insecure : Credentials R Q G
  tls : TlsConfig R Q G → Credentials R Q G

pub data ServerError : Type 0 where
  server_ca_failed client_ca_failed cert_failed key_failed key_pair_failed listen_failed
        serve_failed :
      String → ServerError
  append_server_ca append_client_ca already_started already_stopped : ServerError

pub record ServerIo (R Q : Type 0) : Type 0 where
  pub read_file : Text → Result String Bytes
  pub x509_key_pair : Bytes → Bytes → Result String Q
  pub append_certs_from_pem : Bytes → Option (List R)
  -- net.Listen
  pub listen : Option String

abbrev pub null : Bytes → Bool
null [] = true
null (b ∷ bs) = false

abbrev pub has_newline : Text → Bool
has_newline [] = false
has_newline (c ∷ cs) = eqb c 10 || has_newline cs

-- The certificates are a pool of their own, or go to the one there is.
abbrev pub append_to : {R : Type 0} → Option (List R) → List R → Option (List R)
append_to none certs = some certs
append_to (some pool) certs = some (pool ++ certs)

module _ {R Q : Type 0} (io : ServerIo R Q) where
  unfoldable pub read_file_or_data : Text → Result String Bytes
  read_file_or_data input =
      if ltb (length input) 1000 && not (has_newline input) then io.read_file input else ok input

  unfoldable pub load_cert_file : Text → Result String Bytes
  unfolding read_file_or_data
  load_cert_file [] = ok []
  load_cert_file (c ∷ cs) = read_file_or_data (c ∷ cs)

  unfoldable pub load_x509_key_pair : Text → Text → Result ServerError Q
  unfolding read_file_or_data
  load_x509_key_pair cert_file key_file = do
    cert ← attempt cert_failed (read_file_or_data cert_file)
    key ← attempt key_failed (read_file_or_data key_file)
    attempt key_pair_failed (io.x509_key_pair cert key)

module _ {R Q G : Type 0} where
  -- if mtls { tlsConfig.ClientAuth = tls.RequireAndVerifyClientCert }
  abbrev pub with_mtls : TlsConfig R Q G × Bool → TlsConfig R Q G
  with_mtls (c, true) = record c { client_auth = require_and_verify_client_cert }
  with_mtls (c, false) = c

  abbrev pub no_config : TlsConfig R Q G
  no_config = record {
    client_auth = no_client_cert;
    certificates = [];
    get_certificate = none;
    root_cas = none;
    client_cas = none;
  }

module _ {R Q G : Type 0} (io : ServerIo R Q) where
  abbrev pub trust_servers : TlsConfig R Q G → Bytes → Result ServerError (TlsConfig R Q G)
  trust_servers c [] = ok c
  trust_servers c (b ∷ bs) = do
    certs ← or_fail append_server_ca (io.append_certs_from_pem (b ∷ bs))
    ok (record c { root_cas = append_to c.root_cas certs })

  unfoldable pub configure_root_ca : TlsConfig R Q G → Text → Result ServerError (TlsConfig R Q G)
  unfolding load_cert_file
  configure_root_ca c file = do
    root_ca ← attempt server_ca_failed (load_cert_file io file)
    trust_servers c root_ca

  abbrev pub trust_clients : TlsConfig R Q G → Bytes → Result ServerError (TlsConfig R Q G × Bool)
  trust_clients c [] = ok (c, false)
  trust_clients c (b ∷ bs) = do
    certs ← or_fail append_client_ca (io.append_certs_from_pem (b ∷ bs))
    ok (record c { client_cas = append_to c.client_cas certs }, true)

  unfoldable pub configure_client_ca :
      TlsConfig R Q G → Text → Result ServerError (TlsConfig R Q G × Bool)
  unfolding load_cert_file
  configure_client_ca c file = do
    client_ca ← attempt client_ca_failed (load_cert_file io file)
    trust_clients c client_ca

  unfoldable pub configure_certificate_authorities :
      TlsConfig R Q G → Text → Text → Result ServerError (TlsConfig R Q G × Bool)
  unfolding configure_root_ca configure_client_ca
  configure_certificate_authorities c server_ca_file client_ca_file = do
    c' ← configure_root_ca c server_ca_file
    configure_client_ca c' client_ca_file

  unfoldable pub setup_regular_tls :
      Text → Text → Text → Text → Result ServerError (TlsConfig R Q G)
  unfolding load_x509_key_pair configure_certificate_authorities
  setup_regular_tls cert_file key_file server_ca_file client_ca_file = do
    pair ← load_x509_key_pair io cert_file key_file
    c ←
        configure_certificate_authorities (record no_config { certificates = pair ∷ [] })
          server_ca_file client_ca_file
    ok (with_mtls c)

-- What a server's Serve was given.
pub record Serving (R Q G : Type 0) : Type 0 where
  pub credentials : Credentials R Q G
  -- whether the interceptors of the authenticator are in place
  pub authenticated : Bool
  -- the status of the health service
  pub healthy : Bool

-- `authenticated` is that there is an authenticator.
pub record Server (R Q G : Type 0) : Type 0 where
  pub config : ServerConfiguration
  pub cert_provider : Option G
  pub attested_tls_enabled : Bool
  pub authenticated : Bool
  pub started : Bool
  pub stopped : Bool
  pub cancelled : Bool
  pub server : Option (Serving R Q G)

abbrev pub asks_for_attested : ServerConfiguration → Bool
asks_for_attested (agent_config c attested) = attested
asks_for_attested (server_config c) = false

unfoldable pub new : {R Q G : Type 0} → ServerConfiguration → Bool → Option G → Server R Q G
new cfg authenticated cert_provider = record {
  config = cfg;
  cert_provider = cert_provider;
  attested_tls_enabled = asks_for_attested cfg && is_some cert_provider;
  authenticated = authenticated;
  started = false;
  stopped = false;
  cancelled = false;
  server = none;
}

unfoldable pub should_use_regular_tls : Config → Bool
should_use_regular_tls c = not (null c.cert_file) || not (null c.key_file)

-- How Serve ends: the context is done, or it returns, with an error or none.
pub data Ending : Type 0 where
  context_done : Ending
  served : Option String → Ending

module _ {R Q G : Type 0} (io : ServerIo R Q) where
  unfoldable pub should_use_attested_tls : Server R Q G → Bool
  should_use_attested_tls s = s.attested_tls_enabled && is_some s.cert_provider

  unfoldable pub configure_attested_tls : Option G → Config → Result ServerError (Credentials R Q G)
  unfolding configure_certificate_authorities
  configure_attested_tls provider c = do
    t ←
        configure_certificate_authorities io (record no_config { get_certificate = provider })
          c.server_ca_file c.client_ca_file
    ok (tls (with_mtls t))

  unfoldable pub configure_regular_tls : Config → Result ServerError (Credentials R Q G)
  unfolding setup_regular_tls
  configure_regular_tls c = do
    t ← setup_regular_tls io c.cert_file c.key_file c.server_ca_file c.client_ca_file
    ok (tls t)

  unfoldable pub configure_credentials : Server R Q G → Result ServerError (Credentials R Q G)
  unfolding should_use_attested_tls should_use_regular_tls configure_attested_tls
      configure_regular_tls get_base_config
  configure_credentials s =
      if should_use_attested_tls s
      then configure_attested_tls s.cert_provider (get_base_config s.config)
      else if should_use_regular_tls (get_base_config s.config)
      then configure_regular_tls (get_base_config s.config)
      else ok insecure

  -- Stop: what it leaves of the server, whether or not the graceful stop ends in time.
  abbrev pub shut : Serving R Q G → Serving R Q G
  shut v = record v { healthy = false }

  abbrev pub shut_server : Option (Serving R Q G) → Option (Serving R Q G)
  shut_server none = none
  shut_server (some v) = some (shut v)

  unfoldable pub stop : Server R Q G → Server R Q G
  stop s =
      if s.stopped
      then s
      else record s { stopped = true; cancelled = true; server = shut_server s.server }

  abbrev pub ended : Ending → Server R Q G → Option ServerError × Server R Q G
  ended context_done s = (none, stop s)
  ended (served none) s = (none, record s { cancelled = true })
  ended (served (some e)) s = (some (serve_failed e), record s { cancelled = true })

  abbrev pub listening :
      Ending → Server R Q G → Credentials R Q G → Option String → Option ServerError × Server R Q G
  listening ending s creds (some e) = (some (listen_failed e), s)
  listening ending s creds none = ended ending (record s {
    server = some (record { credentials = creds; authenticated = s.authenticated; healthy = true });
  })

  abbrev pub start_with :
      Ending
      → Server R Q G
      → Result ServerError (Credentials R Q G)
      → Option ServerError × Server R Q G
  start_with ending s (err e) = (some e, s)
  start_with ending s (ok creds) = listening ending s creds io.listen

  -- Start, from its call to its return.
  unfoldable pub start : Ending → Server R Q G → Option ServerError × Server R Q G
  unfolding configure_credentials stop
  start ending s =
      if s.started
      then (some already_started, s)
      else if s.stopped
      then (some already_stopped, s)
      else start_with ending (record s { started = true }) (configure_credentials s)
