-- ===== src/Cvms/Tests.antt =====
-- Witnesses on manifests whose chunks interleave, on two pending messages, and on a run request
-- with a scheme of signatures that takes none.
use cocos.Common.{
  ℕ, zero, suc, ◌≡◌, ◌↔◌, ◌⊎◌, refl, true, false, Option, none, some, List, [], ◌∷◌, Bytes, arith,
  string_comparable, lookup, insert,
}
use cocos.Common.Exec.{ok}
use cocos.StateMachine.{
  new_state_machine, add_transition, set_action, next, handle_event, send_event, get_state,
}
use cocos.Agent.Types.{Computation, no_algorithm, state_comparable, event_comparable}
use cocos.Agent.State.{send, turn, come_back}
use cocos.Agent.Manifest.{new, initial, new_sm, start_machine, init_computation, state}
use cocos.Auth.{Crypto, rsa, Service, new_service, decode_public_key, decode_key, decode_keys}
use cocos.Cvms.Manifests.{send_chunks, send_run_req_in_chunks}
use cocos.Cvms.Arrival.{
  as_chunks, interleave, completed, completed_as, messages_of, manifest_arrives,
}
use cocos.Cvms.RunReq.{
  ComputationRunReq, DatasetSpec, no_config, to_array, datasets_of, computation_of,
}
use cocos.Cvms.Incoming.{
  ExecuteIo, Guest, PartyServer, StopRunIo, run_res, execute_run, config_of, default_port,
}
use cocos.Cvms.Execution.{AnyShort, ShortAlgorithm, execute_run-none, execute_run_lem}
use cocos.Cvms.RunRequests.{Chunk, new_run_request_manager, arrive, feed, last_chunk_completes}
use cocos.Cvms.Storage.{Codec, Message, write_failed, new_file_storage}
use cocos.Cvms.Outgoing.{Answer, Client}

abbrev chunks : List Chunk
chunks =
    record { time = 1; id = "a"; content = 1 ∷ []; is_last = false }
    ∷ record { time = 2; id = "b"; content = 9 ∷ []; is_last = true }
    ∷ record { time = 3; id = "a"; content = 2 ∷ []; is_last = false }
    ∷ []

last_chunk_completes_example :
    let last : Chunk = record { time = 4; id = "a"; content = 3 ∷ []; is_last = true } in
    let r = arrive last (feed chunks new_run_request_manager) in
    (r.0 ≡ (1 ∷ 2 ∷ 3 ∷ [], true)) × (lookup "a" r.1 ≡ none)
last_chunk_completes_example =
    last_chunk_completes "a" chunks 4 (3 ∷ []) (refl, (refl, (refl, tt)))
      (tt, (omega arith, (omega arith, (omega arith, tt))))

abbrev other : List Chunk
other = record { time = 2; id = "b"; content = 9 ∷ []; is_last = true } ∷ []

abbrev lengths : Codec (Message ℕ)
lengths = record { marshal = λ ms. some []; unmarshal = λ b. some [] }

abbrev pending : List (Message ℕ × Answer)
pending =
    (record { message = 1; time = 0 }, record { sent = true; write = none; now = 5 })
    ∷ (
      record { message = 2; time = 0 },
      record { sent = false; write = some write_failed; now = 6 },
    )
    ∷ []

abbrev client : Client ℕ
client = record { storage = new_file_storage none; delivered = 7 ∷ [] }

manifest_arrives_example :
    let sent = messages_of (send_run_req_in_chunks 3 (λ i. none) (some (4 ∷ 5 ∷ []))) in
    (send_run_req_in_chunks 3 (λ i. none) (some (4 ∷ 5 ∷ [])) ≡ some (none, sent))
    × (completed_as "a" (
          completed
            (interleave (true ∷ false ∷ []) (as_chunks "a" (λ i. i) 0 sent) other)
            new_run_request_manager)
        ≡ (4 ∷ 5 ∷ []) ∷ [])
unfolding send_run_req_in_chunks send_chunks
manifest_arrives_example =
    manifest_arrives "a" (4 ∷ 5 ∷ []) 3 (λ i. none) (λ i. i) (true ∷ false ∷ []) other (λ k. refl)
      (omega arith) refl (tt, (omega arith, (omega arith, tt)))

abbrev bytes_of : ℕ → Bytes
bytes_of zero = []
bytes_of (suc n) = 1 ∷ bytes_of n

abbrev table : DatasetSpec
table = record { hash = bytes_of 32; user_key = []; filename = "table.csv" }

abbrev request : ComputationRunReq
request = record {
  id = "c";
  name = "count";
  description = "";
  datasets = table ∷ [];
  algorithm = none;
  result_consumers = [];
  agent_config = none;
}

abbrev short_request : ComputationRunReq
short_request = record request { algorithm = some (record { hash = 1 ∷ []; user_key = [] }) }

abbrev computation : Computation
computation = record {
  id = "c";
  name = "count";
  description = "";
  datasets = record { dataset = []; hash = bytes_of 32; user_key = []; filename = "" } ∷ [];
  algorithm = no_algorithm;
  result_consumers = [];
}

abbrev no_keys : Crypto ℕ
no_keys = record {
  text_bytes = λ t. [];
  sha256 = λ b. b;
  decode_base64 = λ t. ok [];
  parse_key = λ b. ok (rsa 0);
  verify_rsa = λ k h s. some "refused";
  verify_ecdsa = λ k h s. false;
  verify_ed25519 = λ k m s. false;
}

abbrev service : Service ℕ
service = record {
  result_consumers = [];
  dataset_providers = rsa 0 ∷ [];
  algorithm_provider_key = rsa 0;
}

abbrev json : Computation → Option Bytes
json c = some (7 ∷ [])

abbrev execute_io : ExecuteIo
execute_io = record { extends_pcr = true; extend_pcr = none; queued = true }

abbrev guest : Guest ℕ
guest = record {
  agent = new;
  server = none;
  requests = new_run_request_manager;
  queue = [];
  tasks = [];
  measured = [];
  connected = true;
}

abbrev party_server : PartyServer ℕ
party_server = record { config = no_config; auth = service; launched = true }

abbrev serving : Guest ℕ
serving = record guest { server = some party_server }

abbrev stop_io : StopRunIo
stop_io = record {
  agent_io = record { stop_algorithm = none; remove_datasets = none; remove_results = none };
  server_stop = none;
  queued = true;
}

execute_run-none_example :
    (execute_run no_keys json execute_io short_request guest ≡ none)
    ↔ (ShortAlgorithm short_request.algorithm ⊎ AnyShort short_request.datasets)
execute_run-none_example = execute_run-none no_keys json execute_io short_request guest

execute_run_lem_example :
    (after : Guest ℕ) × (execute_run no_keys json execute_io request guest ≡ some after)
    × (after.agent.computation ≡ computation)
    × (after.server
        ≡ some (record {
          config = record (config_of request.agent_config) {
            port = default_port (config_of request.agent_config).port;
          };
          auth = service;
          launched = true;
        }))
    × (new_service no_keys after.agent.computation ≡ ok service)
    × (after.queue ≡ run_res "c" none ∷ [])
unfolding computation_of datasets_of to_array new_service decode_public_key decode_key decode_keys
    new initial new_sm start_machine init_computation state send turn come_back new_state_machine
    add_transition set_action next handle_event send_event get_state lookup insert
execute_run_lem_example =
    execute_run_lem no_keys json execute_io request computation service guest refl refl refl refl
