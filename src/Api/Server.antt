-- ===== src/Api/Server.antt =====
-- agent/api/grpc/server.go: the handlers, which go-kit makes of the decoders, endpoints and
-- encoders (`Kit`), and the methods of the gRPC service. What Recv returns is a list and the error
-- that ends it; `answers` is what a stream answers to its sends. The methods leave the agent and
-- what was sent.
use cocos.Common.{ℕ, ◌≡◌, Option, none, some, List, [], String, Bytes, length}
use cocos.Common.Exec.{Result, ok, err, ◌>>=◌, ◌>>◌, pure, throw, check}
use cocos.Agent.Types.{AgentState, Context}
use cocos.Agent.State.{Agent}
use cocos.Agent.Inputs.{AlgoIo, DataIo}
use cocos.Stream.Sending.{GrpcError, internal, stream_file_data}
use cocos.Stream.Receiving.{receive_streaming_data, receive_algo_data}
use cocos.Stream.Download.{stream_dual_buffers}
use cocos.Api.Endpoints.{
  ApiError, grpc_error, not_found, Action, AlgoReq, DataReq, AttestationRequest, AttestationIo,
  algo_endpoint, data_endpoint, result_endpoint, attestation_endpoint, ima_measurements_endpoint,
  azure_attestation_token_endpoint, decode_attestation_request, decode_attestation_token_request,
}

-- transport/grpc of go-kit: NewServer and ServeGRPC
pub record Kit : Type 1 where
  pub serve :
      {Q R A B : Type 0}
      → (R → Action A)
      → (Q → Result ApiError R)
      → (A → Result ApiError B)
      → Q
      → Action B

abbrev pub answer : {A : Type 0} → Result ApiError A → Action A
answer r s = (r, s)

-- What go-kit documents: a request is decoded, the endpoint is called, and its response encoded.
abbrev pub Lawful : Kit → Type 1
Lawful kit =
    (Q R A B : Type 0) (endpoint : R → Action A) (decode : Q → Result ApiError R)
    (encode : A → Result ApiError B) (q : Q) (a : Agent)
    → kit.serve endpoint decode encode q a
      ≡ (answer (decode q) >>= λ r. endpoint r >>= λ x. answer (encode x)) a

-- The handlers, each with its decoder and encoder.
pub record Handlers : Type 0 where
  pub algo_handler : AlgoIo → Context → AlgoReq → Action (Unit {0})
  pub data_handler : DataIo → Context → DataReq → Action (Unit {0})
  pub result_handler : AgentState → Context → Action Bytes
  pub attestation_handler : AttestationIo → AttestationRequest → Action Bytes
  pub measurements_handler : AttestationIo → Action (Bytes × Bytes)
  pub token_handler : AttestationIo → Bytes → Action Bytes

unfoldable pub new_server : Kit → (Bytes → Bytes) → Handlers
unfolding algo_endpoint data_endpoint result_endpoint attestation_endpoint ima_measurements_endpoint
    azure_attestation_token_endpoint decode_attestation_request decode_attestation_token_request
new_server kit sha3 = record {
  algo_handler = λ io ctx.
      kit.serve (algo_endpoint sha3 io ctx)
        (λ (q : AlgoReq). ok (record { algorithm = q.algorithm; requirements = q.requirements }))
        (λ u. ok tt);
  data_handler = λ io ctx.
      kit.serve (data_endpoint sha3 io ctx)
        (λ (q : DataReq). ok (record { dataset = q.dataset; filename = q.filename })) (λ u. ok tt);
  result_handler = λ observed ctx.
      kit.serve (λ u. result_endpoint observed ctx) (λ (q : Unit {0}). ok tt) (λ file. ok file) tt;
  attestation_handler =
      λ io. kit.serve (attestation_endpoint io) decode_attestation_request (λ file. ok file);
  measurements_handler =
      λ io. kit.serve (λ u. ima_measurements_endpoint io) (λ (q : Unit {0}). ok tt) (λ r. ok r) tt;
  token_handler = λ io.
      kit.serve (azure_attestation_token_endpoint io) decode_attestation_token_request
        (λ file. ok file);
}

-- What the client sees of a download: the header with the file's size, the chunks, and the end.
pub record Download (A : Type 0) : Type 0 where
  pub file_size : Option ℕ
  pub chunks : List A
  pub outcome : Result ApiError (Unit {0})

abbrev pub wrapped : Result GrpcError (Unit {0}) → Result ApiError (Unit {0})
wrapped (ok u) = ok u
wrapped (err e) = err (grpc_error e)

abbrev pub sent_after :
    {A : Type 0} → ℕ → Option (Result GrpcError (Unit {0}) × List A) → Option (Download A)
sent_after size none = none
sent_after size (some (r, chunks)) =
    some (record { file_size = some size; chunks = chunks; outcome = wrapped r })

abbrev pub after_header :
    {A : Type 0}
    → Option String
    → ℕ
    → Option (Result GrpcError (Unit {0}) × List A)
    → Option (Download A)
after_header (some e) size rest =
    some (record { file_size = none; chunks = []; outcome = err (grpc_error (internal e)) })
after_header none size rest = sent_after size rest

abbrev pub stream_answer :
    ℕ
    → Option String
    → (ℕ → Option String)
    → Result ApiError Bytes × Agent
    → Option (Download Bytes) × Agent
stream_answer fuel header answers (err e, a) =
    (some (record { file_size = none; chunks = []; outcome = err e }), a)
stream_answer fuel header answers (ok file, a) =
    (after_header header (length file) (stream_file_data fuel answers 0 file), a)

-- streamingHandler, of the handler that is found under a name, if any. `none` is that the fuel for
-- the file's chunks did not do.
unfoldable pub streaming_handler :
    ℕ
    → Option String
    → (ℕ → Option String)
    → String
    → Option (Action Bytes)
    → Agent
    → Option (Download Bytes) × Agent
unfolding stream_file_data
streaming_handler fuel header answers name none a =
    (some (record { file_size = none; chunks = []; outcome = err (not_found name) }), a)
streaming_handler fuel header answers name (some handler) a =
    stream_answer fuel header answers (handler a)

module _ (s : Handlers) where
  -- Algo and Data: `close` is what SendAndClose answers.
  abbrev pub received : {A : Type 0} → Result GrpcError A → Action A
  received (ok a) = pure a
  received (err e) = throw (grpc_error e)

  unfoldable pub algo :
      AlgoIo → Context → List (Bytes × Bytes) → Option String → Option String → Action (Unit {0})
  unfolding receive_algo_data
  algo io ctx chunks end close = do
    files ← received (receive_algo_data chunks end)
    s.algo_handler io ctx (record { algorithm = files.0; requirements = files.1 })
    check close (λ e. grpc_error (internal e))

  unfoldable pub data_upload :
      DataIo → Context → List (Bytes × String) → Option String → Option String → Action (Unit {0})
  unfolding receive_streaming_data
  data_upload io ctx chunks end close = do
    file ← received (receive_streaming_data chunks end)
    s.data_handler io ctx (record { dataset = file.0; filename = file.1 })
    check close (λ e. grpc_error (internal e))

  unfoldable pub result :
      ℕ
      → Option String
      → (ℕ → Option String)
      → AgentState
      → Context
      → Agent
      → Option (Download Bytes) × Agent
  unfolding streaming_handler
  result fuel header answers observed ctx =
      streaming_handler fuel header answers "result" (some (s.result_handler observed ctx))

  unfoldable pub attestation :
      ℕ
      → Option String
      → (ℕ → Option String)
      → AttestationIo
      → AttestationRequest
      → Agent
      → Option (Download Bytes) × Agent
  unfolding streaming_handler
  attestation fuel header answers io req =
      streaming_handler fuel header answers "attestation" (some (s.attestation_handler io req))

  abbrev pub measured :
      ℕ
      → Option String
      → (ℕ → Option String)
      → Result ApiError (Bytes × Bytes) × Agent
      → Option (Download (Bytes × Bytes)) × Agent
  measured fuel header answers (err e, a) =
      (some (record { file_size = none; chunks = []; outcome = err e }), a)
  measured fuel header answers (ok (file, pcr10), a) =
      (after_header header (length file) (stream_dual_buffers fuel answers 0 file pcr10), a)

  unfoldable pub ima_measurements :
      ℕ
      → Option String
      → (ℕ → Option String)
      → AttestationIo
      → Agent
      → Option (Download (Bytes × Bytes)) × Agent
  unfolding stream_dual_buffers
  ima_measurements fuel header answers io a =
      measured fuel header answers (s.measurements_handler io a)

  unfoldable pub azure_attestation_token : AttestationIo → Bytes → Action Bytes
  azure_attestation_token io token_nonce = s.token_handler io token_nonce
