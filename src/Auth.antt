-- ===== src/Auth.antt =====
-- agent/auth/auth.go: who a caller is, by a signature over the name of a role. `Crypto` stands for
-- crypto/x509, crypto/sha256, encoding/base64 and the signature schemes, of which nothing is
-- assumed.
pub mod Consumers
pub mod Interceptor
mod Tests
use cocos.Common.{
  ℕ, zero, suc, Bool, true, false, Option, none, some, List, [], ◌∷◌, String, Bytes, map, pos,
}
use cocos.Common.Exec.{Result, ok, err}
use cocos.Agent.Types.{Computation, Context, Dataset, ResultConsumer}

pub data UserRole : Type 0 where
  consumer data_provider algorithm_provider : UserRole

abbrev pub role_name : UserRole → String
role_name consumer = "consumer"
role_name data_provider = "data-provider"
role_name algorithm_provider = "algorithm-provider"

pub data AuthError : Type 0 where
  missing_metadata invalid_metadata signature_verification_failed unsupported_public_key : AuthError
  -- an error that is returned as it came
  plain : String → AuthError

-- What a parsed key is a key of.
pub data PublicKey (K : Type 0) : Type 0 where
  rsa ecdsa ed25519 other : K → PublicKey K

pub record Crypto (K : Type 0) : Type 0 where
  pub text_bytes : String → Bytes
  pub sha256 : Bytes → Bytes
  pub decode_base64 : String → Result String Bytes
  pub parse_key : Bytes → Result String (PublicKey K)
  pub verify_rsa : K → Bytes → Bytes → Option String
  pub verify_ecdsa : K → Bytes → Bytes → Bool
  pub verify_ed25519 : K → Bytes → Bytes → Bool

pub record Service (K : Type 0) : Type 0 where
  pub result_consumers : List (PublicKey K)
  pub dataset_providers : List (PublicKey K)
  pub algorithm_provider_key : PublicKey K

module _ {K : Type 0} (c : Crypto K) where
  unfoldable pub decode_public_key : PublicKey K → Result AuthError (PublicKey K)
  decode_public_key (other k) = err unsupported_public_key
  decode_public_key key = ok key

  abbrev pub decode_parsed : Result String (PublicKey K) → Result AuthError (PublicKey K)
  unfolding decode_public_key
  decode_parsed (err e) = err (plain e)
  decode_parsed (ok key) = decode_public_key key

  -- The two calls that New makes for a key.
  unfoldable pub decode_key : Bytes → Result AuthError (PublicKey K)
  decode_key user_key = decode_parsed (c.parse_key user_key)

  abbrev pub add_key :
      Result AuthError (PublicKey K)
      → Result AuthError (List (PublicKey K))
      → Result AuthError (List (PublicKey K))
  add_key (err e) keys = err e
  add_key (ok k) (err e) = err e
  add_key (ok k) (ok keys) = ok (k ∷ keys)

  -- A loop of New: the first key that is refused ends it.
  unfoldable pub decode_keys : List Bytes → Result AuthError (List (PublicKey K))
  unfolding decode_key
  decode_keys [] = ok []
  decode_keys (k ∷ ks) = add_key (decode_key k) (decode_keys ks)

  abbrev pub consumer_keys : Computation → List Bytes
  consumer_keys manifest = map (λ r. ResultConsumer.user_key r) manifest.result_consumers

  abbrev pub provider_keys : Computation → List Bytes
  provider_keys manifest = map (λ d. Dataset.user_key d) manifest.datasets

  abbrev pub service_of :
      Result AuthError (List (PublicKey K))
      → Result AuthError (List (PublicKey K))
      → Result AuthError (PublicKey K)
      → Result AuthError (Service K)
  service_of (err e) ds a = err e
  service_of (ok cs) (err e) a = err e
  service_of (ok cs) (ok ds) (err e) = err e
  service_of (ok cs) (ok ds) (ok a) =
      ok (record { result_consumers = cs; dataset_providers = ds; algorithm_provider_key = a })

  unfoldable pub new_service : Computation → Result AuthError (Service K)
  unfolding decode_keys decode_key
  new_service manifest =
      service_of (decode_keys (consumer_keys manifest)) (decode_keys (provider_keys manifest))
        (decode_key manifest.algorithm.user_key)

  abbrev pub verified : Bool → Option AuthError
  verified true = none
  verified false = some signature_verification_failed

  abbrev pub rsa_error : Option String → Option AuthError
  rsa_error none = none
  rsa_error (some e) = some (plain e)

  abbrev pub verify_bytes : UserRole → PublicKey K → Result String Bytes → Option AuthError
  verify_bytes role key (err e) = some (plain e)
  verify_bytes role (rsa k) (ok s) =
      rsa_error (c.verify_rsa k (c.sha256 (c.text_bytes (role_name role))) s)
  verify_bytes role (ecdsa k) (ok s) =
      verified (c.verify_ecdsa k (c.sha256 (c.text_bytes (role_name role))) s)
  verify_bytes role (ed25519 k) (ok s) =
      verified (c.verify_ed25519 k (c.text_bytes (role_name role)) s)
  verify_bytes role (other k) (ok s) = some signature_verification_failed

  -- The error of a signature, `none` when it is the key's.
  unfoldable pub verify_signature : UserRole → String → PublicKey K → Option AuthError
  verify_signature role signature key = verify_bytes role key (c.decode_base64 signature)

  -- The first of the keys, from index `i` on, that the signature verifies with.
  unfoldable pub first_verified : UserRole → String → ℕ → List (PublicKey K) → Option ℕ
  unfolding verify_signature
  first_verified role signature i [] = none
  first_verified role signature i (k ∷ ks) =
      let later = first_verified role signature (suc i) ks in
      elim (verify_signature role signature k) [ none ↦ some i | some e ↦ later ]

  abbrev pub with_index : Option ℕ → Context → Result AuthError Context
  with_index none ctx = err signature_verification_failed
  with_index (some i) ctx = ok (record ctx { manifest_index = some (pos i) })

  abbrev pub without_index : Option ℕ → Context → Result AuthError Context
  without_index none ctx = err signature_verification_failed
  without_index (some i) ctx = ok ctx

  abbrev pub authenticate : Service K → String → Context → UserRole → Result AuthError Context
  authenticate s signature ctx consumer =
      with_index (first_verified consumer signature 0 s.result_consumers) ctx
  authenticate s signature ctx data_provider =
      without_index (first_verified data_provider signature 0 s.dataset_providers) ctx
  authenticate s signature ctx algorithm_provider =
      without_index (first_verified algorithm_provider signature 0 (s.algorithm_provider_key ∷ []))
        ctx

  -- The request's metadata is `none`, or the values of its signature header.
  unfoldable pub authenticate_user :
      Service K → Option (List String) → Context → UserRole → Result AuthError Context
  unfolding first_verified
  authenticate_user s none ctx role = err missing_metadata
  authenticate_user s (some (signature ∷ [])) ctx role = authenticate s signature ctx role
  authenticate_user s (some headers) ctx role = err invalid_metadata
