-- ===== src/Api/Endpoints.antt =====
-- agent/api/grpc/endpoint.go, agent/api/grpc/requests.go, agent/api/grpc/responses.go and the
-- decoders and encoders of agent/api/grpc/server.go. An endpoint acts on the agent, and what is
-- answered to its calls is an argument. A request or response with no field but bytes is these
-- bytes.
use cocos.Common.{
  ℕ, Bool, true, false, Option, none, some, [], ◌∷◌, String, Bytes, ℤ, pos, negsuc, eqb,
  if◌then◌else◌,
}
use cocos.Common.Exec.{Exec, Result, ok, err, ◌>>=◌, ◌>>◌, pure, throw}
use cocos.Agent.Types.{AgentState, AgentError, Context, zero_hash}
use cocos.Agent.State.{Agent}
use cocos.Agent.Inputs.{AlgoIo, DataIo, algo, add_dataset}
use cocos.Agent.Running.{result}
use cocos.Stream.Receiving.{NonceError, tee_nonce, vtpm_nonce, validate_nonce}
use cocos.Stream.Sending.{GrpcError}
use cocos.Tls.Platforms.{PlatformType, snp, vtpm, snp_vtpm, azure, tdx, no_cc, other}

pub data ApiError : Type 0 where
  algorithm_required dataset_required invalid_attestation_type not_cast : ApiError
  agent_error : AgentError → ApiError
  bad_nonce : NonceError → ApiError
  grpc_error : GrpcError → ApiError
  -- status.Errorf(codes.NotFound, ...), of the handler's name
  not_found : String → ApiError
  attestation_failed measurements_failed token_failed : String → ApiError

abbrev pub Action : Type 0 → Type 0
Action = Exec Agent ApiError

-- The agent's error is the endpoint's.
abbrev pub refused : {A : Type 0} → Result AgentError A × Agent → Result ApiError A × Agent
refused (ok a, s) = (ok a, s)
refused (err e, s) = (err (agent_error e), s)

abbrev pub lift : {A : Type 0} → Exec Agent AgentError A → Action A
lift m s = refused (m s)

pub record AlgoReq : Type 0 where
  pub algorithm : Bytes
  pub requirements : Bytes

pub record DataReq : Type 0 where
  pub dataset : Bytes
  pub filename : String

pub record AttestationReq : Type 0 where
  pub tee_nonce : Bytes
  pub vtpm_nonce : Bytes
  pub att_type : PlatformType

-- agent.AttestationRequest, with its type as the int32 that it is
pub record AttestationRequest : Type 0 where
  pub tee_nonce : Bytes
  pub vtpm_nonce : Bytes
  pub kind : ℤ

abbrev pub null : Bytes → Bool
null [] = true
null (b ∷ bs) = false

unfoldable pub validate_algo : AlgoReq → Action (Unit {0})
validate_algo req = if null req.algorithm then throw algorithm_required else pure tt

unfoldable pub validate_data : DataReq → Action (Unit {0})
validate_data req = if null req.dataset then throw dataset_required else pure tt

unfoldable pub validate_attestation_type : PlatformType → Action (Unit {0})
validate_attestation_type snp = pure tt
validate_attestation_type vtpm = pure tt
validate_attestation_type snp_vtpm = pure tt
validate_attestation_type tdx = pure tt
validate_attestation_type _ = throw invalid_attestation_type

-- attestation.PlatformType(req.Type)
unfoldable pub platform_type : ℤ → PlatformType
platform_type (negsuc n) = other (negsuc n)
platform_type (pos n) =
    if eqb n 0
    then snp
    else if eqb n 1
    then vtpm
    else if eqb n 2
    then snp_vtpm
    else if eqb n 3
    then azure
    else if eqb n 4
    then tdx
    else if eqb n 5
    then no_cc
    else other (pos n)

unfoldable pub decode_nonce : Bytes → ℕ → Result ApiError Bytes
unfolding validate_nonce
decode_nonce nonce max = elim (validate_nonce nonce max) [ ok a ↦ ok a | err e ↦ err (bad_nonce e) ]

abbrev pub with_vtpm_nonce : ℤ → Bytes → Result ApiError Bytes → Result ApiError AttestationReq
with_vtpm_nonce kind report_data (err e) = err e
with_vtpm_nonce kind report_data (ok nonce) =
    ok (record { tee_nonce = report_data; vtpm_nonce = nonce; att_type = platform_type kind })

abbrev pub with_tee_nonce :
    AttestationRequest → Result ApiError Bytes → Result ApiError AttestationReq
with_tee_nonce req (err e) = err e
with_tee_nonce req (ok report_data) =
    with_vtpm_nonce req.kind report_data (decode_nonce req.vtpm_nonce vtpm_nonce)

unfoldable pub decode_attestation_request : AttestationRequest → Result ApiError AttestationReq
unfolding decode_nonce platform_type
decode_attestation_request req = with_tee_nonce req (decode_nonce req.tee_nonce tee_nonce)

unfoldable pub decode_attestation_token_request : Bytes → Result ApiError Bytes
unfolding decode_nonce
decode_attestation_token_request token_nonce = decode_nonce token_nonce vtpm_nonce

-- The attestation client, and what IMAMeasurements reads of the file and of the TPM.
pub record AttestationIo : Type 0 where
  pub get_attestation : Bytes → Bytes → PlatformType → Result String Bytes
  pub get_azure_token : Bytes → Result String Bytes
  pub read_measurements : Result String Bytes
  pub pcr_value : Result String Bytes

abbrev pub attempt : {A : Type 0} → (String → ApiError) → Result String A → Action A
attempt wrap (ok a) = pure a
attempt wrap (err e) = throw (wrap e)

module _ (sha3 : Bytes → Bytes) where
  unfoldable pub algo_endpoint : AlgoIo → Context → AlgoReq → Action (Unit {0})
  unfolding validate_algo algo
  algo_endpoint io ctx req = do
    validate_algo req
    lift (
        algo sha3 io ctx (record {
          algorithm = req.algorithm;
          hash = zero_hash;
          user_key = [];
          requirements = req.requirements;
        }))

  unfoldable pub data_endpoint : DataIo → Context → DataReq → Action (Unit {0})
  unfolding validate_data add_dataset
  data_endpoint io ctx req = do
    validate_data req
    lift (add_dataset sha3 io ctx req.dataset req.filename)

-- file, err := svc.Result(ctx)
abbrev pub result_answer : (Bytes × Option AgentError) × Agent → Result ApiError Bytes × Agent
result_answer ((file, none), a) = (ok file, a)
result_answer ((file, some e), a) = (err (agent_error e), a)

-- `observed` is the state that Result reads before it takes the mutex.
unfoldable pub result_endpoint : AgentState → Context → Action Bytes
unfolding result
result_endpoint observed ctx a = result_answer (result observed ctx a)

-- The service's Attestation, IMAMeasurements and AzureAttestationToken
unfoldable pub attestation : AttestationIo → Bytes → Bytes → PlatformType → Action Bytes
attestation io report_data nonce att_type =
    attempt attestation_failed (io.get_attestation report_data nonce att_type)

unfoldable pub ima_measurements : AttestationIo → Action (Bytes × Bytes)
ima_measurements io = do
  file ← attempt measurements_failed io.read_measurements
  pcr10 ← attempt measurements_failed io.pcr_value
  pure (file, pcr10)

unfoldable pub azure_attestation_token : AttestationIo → Bytes → Action Bytes
azure_attestation_token io nonce = attempt token_failed (io.get_azure_token nonce)

unfoldable pub attestation_endpoint : AttestationIo → AttestationReq → Action Bytes
unfolding validate_attestation_type attestation
attestation_endpoint io req = do
  validate_attestation_type req.att_type
  attestation io req.tee_nonce req.vtpm_nonce req.att_type

unfoldable pub ima_measurements_endpoint : AttestationIo → Action (Bytes × Bytes)
unfolding ima_measurements
ima_measurements_endpoint io = ima_measurements io

unfoldable pub azure_attestation_token_endpoint : AttestationIo → Bytes → Action Bytes
unfolding azure_attestation_token
azure_attestation_token_endpoint io nonce = azure_attestation_token io nonce
