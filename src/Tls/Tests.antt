-- ===== src/Tls/Tests.antt =====
-- Witnesses with toy packages: a certificate's bytes are its key and the value of its one
-- extension.
use cocos.Common.{
  ℕ, ◌≡◌, ◌↔◌, ◌⊎◌, inl, inr, refl, sym, ap, ◌∙◌, true, false, Option, none, some, List, [], ◌∷◌,
  ◌++◌, String, Bytes, ◌==◌, bytes_comparable, if◌then◌else◌, arith, Bool-cases,
}
use cocos.Common.Exec.{Result, ok, err}
use cocos.Attestation.Hex.{encode, decode}
use cocos.Attestation.Pcrs.{check_expected_pcr_values}
use cocos.Attestation.Reports.{
  SevGuest, milan, no_bundle, verify_report, validate_report, verify_and_validate,
  verify_attestation_report_tls,
}
use cocos.Attestation.Quotes.{TpmAttestation, TpmTools, VerifierPolicy, vtpm_verify, verify_quote}
use cocos.Attestation.Tdx
use cocos.Attestation.Tdx.{TdxGuest}
use cocos.Tls.Platforms.{
  Oid, oid, tdx, tdx_oid, snp_vtpm, snp_vtpm_oid, nonce_suffix, platform_type_from_oid,
  extract_nonce_from_sni, has_nonce_suffix,
}
use cocos.Tls.Provider.{
  Extension, Template, Attester, Certificate, X509, attest, hash_nonce, new_attested_provider,
  new_provider, new_attestation_provider, get_certificate, generate_self_signed_certificate,
}
use cocos.Tls.Verifier.{
  Verify, Verifiers, verify_peer_certificate, platform_verifier, Trusted,
  verify_peer_certificate_iff_Trusted,
}
use cocos.Tls.Handshake.{SelfSigned}
use cocos.Tls.Clients.{
  AttestedClientConfig, StandardClientConfig, ClientConfig, standard_config, ClientIo, TlsConfig,
  without_tls, with_atls, Unprotected, AsksForAttested, load_atls_config, load_basic_tls_config,
  load_tls_config, connect, verify_peer,
}
use cocos.Tls.Plaintext.{connect_insecure}
use cocos.Tls.Connected.{connected_attested}
use cocos.Tls.Wiring.{
  Packages, new_verifiers, new_tdx_verifier, new_vtpm_verifier, VtpmBound, attestation_relayed,
  peer_certificate-VtpmBound,
}
use cocos.Tls.Servers
use cocos.Tls.Servers.{ServerIo, Server, Config, agent_config, context_done}
use cocos.Tls.Starting.{configure_credentials-Secures}

abbrev ToyCertificate : Type 0
ToyCertificate = Certificate ℕ (Unit {0})

abbrev certificate : Oid → ℕ → Bytes → ToyCertificate
certificate id key value = record {
  extensions = record { id = id; value = value } ∷ [];
  public_key = key;
  others = tt;
}

-- Only templates with one extension of the identifier make a certificate.
abbrev created : Oid → List Extension → ℕ → Result String Bytes
created id [] key = err "no extension"
created id (e ∷ []) key = if e.id == id then ok (key ∷ e.value) else err "another extension"
created id (e ∷ f ∷ es) key = err "too many extensions"

abbrev parsed : Oid → Bytes → Result String ToyCertificate
parsed id [] = err "no certificate"
parsed id (key ∷ value) = ok (certificate id key value)

abbrev x509 : Oid → X509 ℕ ℕ (Unit {0})
x509 id = record {
  public_of = λ k. k;
  marshal_public_key = λ p. ok (p ∷ []);
  create_certificate = λ t k. created id t.extra_extensions k;
  parse_certificate = parsed id;
  verify = λ roots c. none;
  add_years = λ now years. now;
  pem_decode = λ text. (some text, []);
  sha3_512 = λ b. 8 ∷ b;
}

created-SelfSigned :
    (id : Oid) (t : Template) (key : ℕ) (der : Bytes)
    → created id t.extra_extensions key ≡ ok der
    → SelfSigned (x509 id) t key der
created-SelfSigned id t key der h = by_extensions t.extra_extensions refl h
  where
    by_extensions :
        (es : List Extension)
        → t.extra_extensions ≡ es
        → created id es key ≡ ok der
        → SelfSigned (x509 id) t key der
    by_extensions [] e k = absurd (ground arith)
    by_extensions (x ∷ []) e k = elim (Bool-cases (x.id == id)) [
      | inr other ↦ absurd (
          let bad : ◌≡◌ {A = Result String Bytes} (err "another extension") (ok der) =
            rw other at k in
          ground arith)
      | inl same ↦
          let made : ◌≡◌ {A = Result String Bytes} (ok (key ∷ x.value)) (ok der) = rw same at k in
          let equal : key ∷ x.value ≡ der = ground arith in
          let named : x.id ≡ id = (bytes_comparable.equal_iff x.id id).0 same in
          record {
            cert = certificate id key x.value;
            standard = [];
            parsed = ap (parsed id) (sym equal);
            extensions =
                ap (λ (i : Oid). record { id = i; value = x.value } ∷ []) (sym named) ∙ sym e;
            unknown = tt;
            key_kept = refl;
            verified = refl;
          }
    ]
    by_extensions (x ∷ y ∷ es) e k = absurd (ground arith)

-- A machine that attests by repeating the nonce, and a verifier that compares it.
abbrev attester : Attester
attester = record { attestation = λ tee vtpm. ok tee }

abbrev comparing : Verify String
comparing a tee vtpm = if a == tee then ok tt else err "another nonce"

comparing_accepts :
    (tee a : Bytes) → ◌≡◌ {A = Result String Bytes} (ok tee) (ok a) → comparing a tee [] ≡ ok tt
comparing_accepts tee a h =
    let same : tee ≡ a = ground arith in ground (arith, bytes_comparable.equal_iff a tee)

abbrev verifiers : Verifiers String
verifiers = record {
  vtpm_verifier = λ path. ok comparing;
  azure_verifier = λ path. err "no policy";
  tdx_verifier = λ path. err "no policy";
}

abbrev sixty_four : Bytes
sixty_four =
    let eight = λ (b : Bytes). 1 ∷ 2 ∷ 3 ∷ 4 ∷ 5 ∷ 6 ∷ 7 ∷ 255 ∷ b in
    eight (eight (eight (eight (eight (eight (eight (eight [])))))))

abbrev standard : StandardClientConfig
standard = record { url = "agent:7002"; client_cert = ""; client_key = ""; server_ca_file = "" }

abbrev attested : AttestedClientConfig
attested = record { standard = standard; attestation_policy = "policy.json"; attested_tls = true }

abbrev client_io : ClientIo ToyCertificate ℕ
client_io = record {
  read_file = λ file. ok [];
  stat = λ file. ok true;
  load_key_pair = λ cert key. ok 5;
  append_certs_from_pem = λ pem. none;
  pem_decode = λ pem. none;
  parse_certificate = parsed snp_vtpm_oid;
  nonce = ok sixty_four;
  dial = none;
}

abbrev configured : TlsConfig ToyCertificate ℕ
configured = record {
  root_cas = none;
  certificates = [];
  server_name = encode sixty_four ++ nonce_suffix;
  insecure_skip_verify = true;
  verify = some (none, sixty_four);
}

connected_attested_example :
    verify_peer verifiers
      (x509 snp_vtpm_oid)
      "policy.json"
      configured
      ((7 ∷ 8 ∷ 7 ∷ sixty_four) ∷ [])
    ≡ ok tt
unfolding load_atls_config new_provider new_attestation_provider new_attested_provider oid
    get_certificate attest hash_nonce generate_self_signed_certificate extract_nonce_from_sni
    has_nonce_suffix encode decode platform_verifier
connected_attested_example =
    connected_attested (x509 snp_vtpm_oid) client_io verifiers attested
      (record { config = some configured; security = with_atls }) configured "" "policy.json"
      comparing attester snp_vtpm "" "" _ 0 7 sixty_four (7 ∷ 8 ∷ 7 ∷ sixty_four) refl (omega arith)
      refl refl refl refl refl refl (λ t. created-SelfSigned snp_vtpm_oid t 7 _) refl
      (λ tee vtpm a. comparing_accepts tee a)

-- The CA's file is empty.
abbrev empty_ca : ClientConfig
empty_ca = standard_config (record standard { server_ca_file = "ca.pem" })

connect_insecure_example :
    (¬ AsksForAttested client_io empty_ca)
    × Unprotected client_io (record standard { server_ca_file = "ca.pem" })
    × (without_tls ≡ without_tls)
unfolding connect load_tls_config load_basic_tls_config
connect_insecure_example = connect_insecure client_io empty_ca "" "" without_tls refl

-- Packages of a TDX machine that accepts every quote, and of a vTPM with one attestation.
abbrev tdx_guest : TdxGuest Bytes (Unit {0})
tdx_guest = record {
  open_device = none;
  get_raw_quote = λ n. ok n;
  quote_to_proto = λ b. ok b;
  root_of_trust_to_options = λ d. none;
  verify_quote = λ d q. none;
  policy_to_options = λ d. none;
  validate_quote = λ d q. none;
  read_file = λ path. ok [];
  unmarshal = λ b d. ok d;
}

-- A report is its report data, and the digest of bytes is these bytes after a 9.
abbrev sev_guest : SevGuest Bytes (Unit {0})
sev_guest = record {
  root_of_trust_to_options = λ c. true;
  policy_to_options = λ c. true;
  user_home_dir = true;
  bundle_of = λ line. no_bundle;
  verify_snp = λ a c name. true;
  validate_snp = λ a c. a.report == c.report_data;
}

abbrev quote : TpmAttestation Bytes
quote = record {
  ak_pub = 3 ∷ [];
  quotes = [];
  nonce = 8 ∷ 1 ∷ 7 ∷ [];
  snp_attestation = some (record { report = 9 ∷ 8 ∷ 1 ∷ 7 ∷ 3 ∷ []; certificate_chain = none });
}

abbrev tools : TpmTools Bytes
tools = record {
  unmarshal = λ b. some quote;
  marshal = λ a. some (1 ∷ []);
  decode_public = λ b. true;
  public_key = λ b. true;
  verify_attestation = λ a nonce. a.nonce == nonce;
  sha3_512 = λ b. 9 ∷ b;
}

abbrev policy : VerifierPolicy (Unit {0})
policy = record {
  check_config = record { report_data = []; product = some milan; product_line = ""; others = tt };
  pcr_values = record { sha256 = none; sha384 = none; sha1 = none };
}

abbrev packages : Packages Bytes (Unit {0}) Bytes (Unit {0})
packages = record {
  tools = tools;
  sev = sev_guest;
  tdx_guest = tdx_guest;
  read_policy = λ path. ok policy;
  empty_tdx_policy = tt;
}

verify_peer_certificate_iff_Trusted_example :
    (verify_peer_certificate verifiers
        (x509 snp_vtpm_oid)
        ""
        none
        ((1 ∷ 8 ∷ 1 ∷ 7 ∷ []) ∷ [])
        (7 ∷ [])
      ≡ ok tt)
    ↔ Trusted verifiers (x509 snp_vtpm_oid) "" none ((1 ∷ 8 ∷ 1 ∷ 7 ∷ []) ∷ []) (7 ∷ [])
verify_peer_certificate_iff_Trusted_example =
    verify_peer_certificate_iff_Trusted verifiers (x509 snp_vtpm_oid) "" none
      ((1 ∷ 8 ∷ 1 ∷ 7 ∷ []) ∷ []) (7 ∷ [])

-- The certificate of key 1, let through for the nonce 7.
abbrev trusted_tdx :
    Trusted (new_verifiers packages) (x509 tdx_oid) "" none ((1 ∷ 5 ∷ []) ∷ []) (7 ∷ [])
unfolding new_verifiers new_tdx_verifier platform_verifier platform_type_from_oid hash_nonce
    Tdx.read_tdx_attestation_policy Tdx.verify_attestation Tdx.verif_tee_attestation
trusted_tdx = record {
  first = 1 ∷ 5 ∷ [];
  more = [];
  cert = certificate tdx_oid 1 (5 ∷ []);
  sent = refl;
  parsed = refl;
  signed = refl;
  attested = record {
    before = [];
    extension = record { id = tdx_oid; value = 5 ∷ [] };
    after = [];
    platform = tdx;
    pub_key = 1 ∷ [];
    verify = _;
    split = refl;
    none_before = tt;
    recognised = refl;
    key = refl;
    with_policy = refl;
    accepted = refl;
  };
}

-- The same quote in the certificate of key 2, for the nonce 9.
attestation_relayed_example :
    verify_peer_certificate
      (new_verifiers packages)
      (x509 tdx_oid)
      ""
      none
      ((2 ∷ 5 ∷ []) ∷ [])
      (9 ∷ [])
    ≡ ok tt
unfolding trusted_tdx
attestation_relayed_example =
    attestation_relayed packages (x509 tdx_oid) "" none none ((1 ∷ 5 ∷ []) ∷ []) [] (2 ∷ 5 ∷ [])
      (7 ∷ []) (9 ∷ []) (2 ∷ []) (certificate tdx_oid 2 (5 ∷ [])) trusted_tdx (inr refl) refl refl
      refl refl

abbrev trusted_vtpm :
    Trusted (new_verifiers packages) (x509 snp_vtpm_oid) "" none ((1 ∷ 5 ∷ []) ∷ []) (7 ∷ [])
unfolding new_verifiers new_vtpm_verifier platform_verifier platform_type_from_oid hash_nonce
    vtpm_verify verify_quote check_expected_pcr_values verify_attestation_report_tls
    verify_and_validate verify_report validate_report
trusted_vtpm = record {
  first = 1 ∷ 5 ∷ [];
  more = [];
  cert = certificate snp_vtpm_oid 1 (5 ∷ []);
  sent = refl;
  parsed = refl;
  signed = refl;
  attested = record {
    before = [];
    extension = record { id = snp_vtpm_oid; value = 5 ∷ [] };
    after = [];
    platform = snp_vtpm;
    pub_key = 1 ∷ [];
    verify = _;
    split = refl;
    none_before = tt;
    recognised = refl;
    key = refl;
    with_policy = refl;
    accepted = refl;
  };
}

peer_certificate-VtpmBound_example :
    VtpmBound packages
      (x509 snp_vtpm_oid)
      ""
      (λ r. r)
      (certificate snp_vtpm_oid 1 (5 ∷ []))
      (7 ∷ [])
      (5 ∷ [])
unfolding trusted_vtpm
peer_certificate-VtpmBound_example =
    peer_certificate-VtpmBound packages (x509 snp_vtpm_oid) "" (λ r. r) none ((1 ∷ 5 ∷ []) ∷ [])
      (7 ∷ []) (λ r cfg v n. (bytes_comparable.equal_iff r.report cfg.report_data).0 v)
      (λ b e. absurd (ground arith)) trusted_vtpm refl

abbrev server_io : ServerIo ℕ ℕ
server_io = record {
  read_file = λ file. ok (1 ∷ []);
  x509_key_pair = λ cert key. ok 5;
  append_certs_from_pem = λ pem. some (4 ∷ []);
  listen = none;
}

abbrev plain_config : Config
plain_config = record {
  host = "localhost";
  port = "7002";
  server_ca_file = [];
  cert_file = [];
  key_file = [];
  client_ca_file = 99 ∷ [];
}

-- Attested TLS is asked for without a provider: the server listens in plain text.
configure_credentials-Secures_example :
    ((Servers.asks_for_attested (agent_config plain_config true) ≡ false)
      ⊎ (◌≡◌ {A = Option ℕ} none none))
    × ([] ≡ plain_config.cert_file)
    × ([] ≡ plain_config.key_file)
unfolding Servers.configure_credentials Servers.new Servers.should_use_attested_tls
    Servers.should_use_regular_tls Servers.get_base_config
configure_credentials-Secures_example =
    configure_credentials-Secures {G = ℕ} server_io (agent_config plain_config true) true none
