-- ===== src/Tls/Provider.antt =====
-- pkg/atls/attestation_provider.go and pkg/atls/certificate_provider.go: the certificate that a
-- server makes for a client's hello. `K` is a private key, `P` a public key, `C` a parsed
-- certificate's remaining fields; crypto/x509, crypto/ecdsa, the SDK of the certificate authority,
-- encoding/pem and the platform's attestation.Provider are records of functions.
use cocos.Common.{
  ℕ, Bool, true, false, Option, none, some, List, [], ◌∷◌, ◌++◌, String, Bytes, take, eqb,
  if◌then◌else◌,
}
use cocos.Common.Exec.{Result, ok, err}
use cocos.Common.Results.{◌>>=◌, attempt, or_fail}
use cocos.Attestation.Hex.{Text}
use cocos.Tls.Platforms.{PlatformType, Oid, oid, NameError, extract_nonce_from_sni}

-- pkix.Extension
pub record Extension : Type 0 where
  pub id : Oid
  pub value : Bytes

pub record CertificateSubject : Type 0 where
  pub organization : String
  pub common_name : String
  pub country : String
  pub province : String
  pub locality : String
  pub street_address : String
  pub postal_code : String

unfoldable pub default_certificate_subject : CertificateSubject
default_certificate_subject = record {
  organization = "Ultraviolet";
  common_name = "Ultraviolet";
  country = "Serbia";
  province = "";
  locality = "Belgrade";
  street_address = "Bulevar Arsenija Carnojevica 103";
  postal_code = "11000";
}

-- The fields of x509.Certificate that a certificate of the agent sets, the constants left out.
pub record Template : Type 0 where
  pub serial_number : ℕ
  pub subject : CertificateSubject
  pub not_before : ℕ
  pub not_after : ℕ
  pub extra_extensions : List Extension

-- certs.CSRMetadata
pub record CsrMetadata : Type 0 where
  pub subject : CertificateSubject
  pub extra_extensions : List Extension

-- attestation.Provider, its one method that is used here
pub record Attester : Type 0 where
  pub attestation : Bytes → Bytes → Result String Bytes

-- x509.Certificate after parsing: its extensions and its public key.
pub record Certificate (P C : Type 0) : Type 0 where
  pub extensions : List Extension
  pub public_key : P
  pub others : C

pub record Sdk (K : Type 0) : Type 0 where
  pub create_csr : CsrMetadata → K → Result String Bytes
  -- the arguments: the machine's identifier, the time to live, the request and the token
  pub issue_from_csr : String → ℕ → Bytes → String → Result String Text

pub record X509 (K P C : Type 0) : Type 0 where
  pub public_of : K → P
  pub marshal_public_key : P → Result String Bytes
  pub create_certificate : Template → K → Result String Bytes
  pub parse_certificate : Bytes → Result String (Certificate P C)
  -- cert.Verify with the roots
  pub verify : List (Certificate P C) → Certificate P C → Option String
  pub add_years : ℕ → ℕ → ℕ
  -- pem.Decode: the block's bytes, and the rest
  pub pem_decode : Text → Option Bytes × Bytes
  pub sha3_512 : Bytes → Bytes

pub data CertError : Type 0 where
  generate_key_failed marshal_key_failed attestation_failed create_failed csr_failed issue_failed :
      String → CertError
  bad_name : NameError → CertError
  remaining_data no_pem_block : CertError
  unsupported_platform : CertError
  -- a nil SDK
  panic : CertError

pub record AttestationProvider : Type 0 where
  pub provider : Attester
  pub oid : Oid
  pub platform_type : PlatformType

unfoldable pub new_attestation_provider :
    Attester → PlatformType → Result CertError AttestationProvider
new_attestation_provider provider platform = do
  id ← or_fail unsupported_platform (oid platform)
  ok (record { provider = provider; oid = id; platform_type = platform })

pub record AttestedCertificateProvider (K : Type 0) : Type 0 where
  pub attestation_provider : AttestationProvider
  pub certs_sdk : Option (Sdk K)
  pub agent_token : String
  pub subject : CertificateSubject
  pub use_ca : Bool
  pub cvm_id : String
  pub ttl : ℕ
  pub not_after_years : ℕ

abbrev pub default_not_after_years : ℕ
default_not_after_years = 1

-- time.Hour * 24 * 365, in nanoseconds
abbrev pub one_year : ℕ
one_year = 31536000000000000

-- One step of strings.ReplaceAll(text, "\\n", "\n"): what it writes for a character, and whether it
-- holds back a backslash, as it does before when `held`.
abbrev pub unescape_step : Bool → ℕ → Text × Bool
unescape_step true c =
    if eqb c 110
    then (10 ∷ [], false)
    else if eqb c 92
    then (92 ∷ [], true)
    else (92 ∷ c ∷ [], false)
unescape_step false c = if eqb c 92 then ([], true) else (c ∷ [], false)

abbrev pub unescape_from : Bool → Text → Text
unescape_from true [] = 92 ∷ []
unescape_from false [] = []
unescape_from held (c ∷ text) =
    (unescape_step held c).0 ++ unescape_from (unescape_step held c).1 text

unfoldable pub clean_certificate : Text → Text
clean_certificate text = unescape_from false text

module _ {K P C : Type 0} (x : X509 K P C) where
  -- sha3.Sum512(append(pubKey, nonce...))
  unfoldable pub hash_nonce : Bytes → Bytes → Bytes
  hash_nonce pub_key nonce = x.sha3_512 (pub_key ++ nonce)

  unfoldable pub attest : AttestationProvider → Bytes → Bytes → Result String Bytes
  unfolding hash_nonce
  attest p pub_key nonce =
      p.provider.attestation (hash_nonce pub_key nonce) (take 32 (hash_nonce pub_key nonce))

  unfoldable pub new_attested_provider :
      AttestationProvider → CertificateSubject → AttestedCertificateProvider K
  new_attested_provider p subject = record {
    attestation_provider = p;
    certs_sdk = none;
    agent_token = "";
    subject = subject;
    use_ca = false;
    cvm_id = "";
    ttl = 0;
    not_after_years = default_not_after_years;
  }

  unfoldable pub new_attested_ca_provider :
      AttestationProvider
      → CertificateSubject
      → Option (Sdk K)
      → String
      → String
      → AttestedCertificateProvider K
  new_attested_ca_provider p subject sdk cvm_id agent_token = record {
    attestation_provider = p;
    certs_sdk = sdk;
    agent_token = agent_token;
    subject = subject;
    use_ca = true;
    cvm_id = cvm_id;
    ttl = one_year;
    not_after_years = 0;
  }

  unfoldable pub set_ttl : ℕ → AttestedCertificateProvider K → AttestedCertificateProvider K
  set_ttl ttl p = record p { ttl = ttl }

  abbrev pub provider_for :
      AttestationProvider → String → String → Option (Sdk K) → AttestedCertificateProvider K
  provider_for p agent_token cvm_id none = new_attested_provider p default_certificate_subject
  provider_for p agent_token cvm_id (some sdk) =
      new_attested_ca_provider p default_certificate_subject (some sdk) cvm_id agent_token

  unfoldable pub new_provider :
      Attester
      → PlatformType
      → String
      → String
      → Option (Sdk K)
      → Result CertError (AttestedCertificateProvider K)
  unfolding new_attestation_provider new_attested_provider new_attested_ca_provider
  new_provider provider platform agent_token cvm_id sdk = do
    p ← new_attestation_provider provider platform
    ok (provider_for p agent_token cvm_id sdk)

  -- `now` is what time.Now returns, in seconds.
  unfoldable pub generate_self_signed_certificate :
      ℕ → AttestedCertificateProvider K → K → Extension → Result String Bytes
  generate_self_signed_certificate now p key extension =
      x.create_certificate
        (record {
          serial_number = now;
          subject = p.subject;
          not_before = now;
          not_after = x.add_years now p.not_after_years;
          extra_extensions = extension ∷ [];
        })
        key

  abbrev pub decoded_block : Option Bytes × Bytes → Result CertError Bytes
  decoded_block (block, r ∷ rest) = err remaining_data
  decoded_block (none, []) = err no_pem_block
  decoded_block (some bytes, []) = ok bytes

  unfoldable pub generate_ca_signed_certificate :
      AttestedCertificateProvider K → K → Extension → Result CertError Bytes
  unfolding clean_certificate
  generate_ca_signed_certificate p key extension = do
    sdk ← or_fail panic p.certs_sdk
    csr ←
        attempt csr_failed
          (sdk.create_csr (record { subject = p.subject; extra_extensions = extension ∷ [] }) key)
    certificate ← attempt issue_failed (sdk.issue_from_csr p.cvm_id p.ttl csr p.agent_token)
    decoded_block (x.pem_decode (clean_certificate certificate))

  -- What ecdsa.GenerateKey returns is an argument. The answer is the certificate's bytes and its
  -- key.
  unfoldable pub get_certificate :
      ℕ → Result String K → AttestedCertificateProvider K → Text → Result CertError (Bytes × K)
  unfolding attest generate_self_signed_certificate generate_ca_signed_certificate
  get_certificate now generated p server_name = do
    key ← attempt generate_key_failed generated
    pub_key ← attempt marshal_key_failed (x.marshal_public_key (x.public_of key))
    nonce ← attempt bad_name (extract_nonce_from_sni server_name)
    data' ← attempt attestation_failed (attest p.attestation_provider pub_key nonce)
    let extension : Extension = record { id = p.attestation_provider.oid; value = data' }
    der ←
        if p.use_ca
        then generate_ca_signed_certificate p key extension
        else attempt create_failed (generate_self_signed_certificate now p key extension)
    ok (der, key)
