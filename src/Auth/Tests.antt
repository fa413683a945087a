-- ===== src/Auth/Tests.antt =====
-- Witnesses with a toy scheme: a signature is good when it decodes to the key's own byte.
use cocos.Common.{
  ℕ, ◌≡◌, refl, inl, inr, false, Option, none, some, [], ◌∷◌, String, Bytes, pos, get_elem?, eqb,
  if◌then◌else◌,
}
use cocos.Common.Exec.{Result, ok}
use cocos.Agent.Types.{Computation, Context, ResultConsumer, no_computation, complete}
use cocos.Agent.State.{Agent}
use cocos.Agent.Manifest.{new}
use cocos.Agent.Running.{result, error_of}
use cocos.Auth.{
  consumer, Crypto, PublicKey, rsa, Service, new_service, decode_key, decode_keys,
  decode_public_key, verify_signature, first_verified, authenticate_user,
}
use cocos.Auth.Consumers.{authenticate_user-consumer}
use cocos.Auth.Interceptor.{auth_stream, auth_stream-result}

abbrev parse : Bytes → Result String (PublicKey ℕ)
parse [] = ok (rsa 0)
parse (b ∷ bs) = ok (rsa b)

abbrev check_rsa : ℕ → Bytes → Bytes → Option String
check_rsa k hash [] = some "no signature"
check_rsa k hash (b ∷ bs) = if eqb k b then none else some "verification error"

abbrev toy : Crypto ℕ
toy = record {
  text_bytes = λ t. [];
  sha256 = λ b. b;
  decode_base64 = λ t. ok (6 ∷ []);
  parse_key = parse;
  verify_rsa = check_rsa;
  verify_ecdsa = λ k h s. false;
  verify_ed25519 = λ k m s. false;
}

abbrev consumer_of : ℕ → ResultConsumer
consumer_of b = record { user_key = b ∷ [] }

abbrev manifest : Computation
manifest = record no_computation { result_consumers = consumer_of 5 ∷ consumer_of 6 ∷ [] }

abbrev service : Service ℕ
service = record {
  result_consumers = rsa 5 ∷ rsa 6 ∷ [];
  dataset_providers = [];
  algorithm_provider_key = rsa 0;
}

abbrev context : Context
context = record {
  algo_type = [];
  algo_args = [];
  python_runtime = [];
  decompress = [];
  manifest_index = none;
}

abbrev second : Context
second = record context { manifest_index = some (pos 1) }

authenticate_user-consumer_example :
    (signature : String) × (i : ℕ) × (r : ResultConsumer) × (key : PublicKey ℕ) × (some
        ("c2ln" ∷ [])
      ≡ some (signature ∷ []))
    × (get_elem? (consumer_of 5 ∷ consumer_of 6 ∷ []) i ≡ some r)
    × (decode_key toy r.user_key ≡ ok key)
    × (verify_signature toy consumer signature key ≡ none)
    × (second ≡ record context { manifest_index = some (pos i) })
unfolding new_service decode_keys decode_key decode_public_key authenticate_user first_verified
    verify_signature
authenticate_user-consumer_example =
    authenticate_user-consumer toy manifest service (some ("c2ln" ∷ [])) context second refl refl

abbrev agent : Agent
agent = record new { computation = manifest; result = 1 ∷ 2 ∷ [] }

-- The manifest that the authenticator was made of, with a dataset that has come in since.
abbrev first_manifest : Computation
first_manifest = record manifest {
  datasets = record { dataset = []; hash = 3 ∷ []; user_key = 9 ∷ []; filename = "table.csv" } ∷ [];
}

abbrev first_service : Service ℕ
first_service = record service { dataset_providers = rsa 9 ∷ [] }

auth_stream-result_example :
    (result complete second agent).0 ≡ (1 ∷ 2 ∷ [], error_of agent.run_error)
unfolding new_service decode_keys decode_key decode_public_key authenticate_user first_verified
    verify_signature auth_stream
auth_stream-result_example =
    auth_stream-result toy first_service (some ("c2ln" ∷ [])) context complete first_manifest agent
      (result complete second agent) refl refl (inr (inl refl)) refl
