-- ===== src/Agent/Types.antt =====
-- The data of the agent: its states and events, the computation manifest, and its errors.
use cocos.Common.{
  ℕ, ◌≡◌, ◌↔◌, true, Option, List, [], ◌∷◌, String, Bytes, ℤ, Comparable, eqb, arith,
}

pub data AgentState : Type 0 where
  idle receiving_manifest receiving_algorithm receiving_data running consuming_results complete
        failed :
      AgentState

pub data AgentEvent : Type 0 where
  start manifest_received algorithm_received data_received run_complete results_consumed
        run_failed :
      AgentEvent

pub data Status : Type 0 where
  idle_state in_progress ready completed terminated warning starting : Status

abbrev pub state_index : AgentState → ℕ
state_index idle = 0
state_index receiving_manifest = 1
state_index receiving_algorithm = 2
state_index receiving_data = 3
state_index running = 4
state_index consuming_results = 5
state_index complete = 6
state_index failed = 7

abbrev pub event_index : AgentEvent → ℕ
event_index start = 0
event_index manifest_received = 1
event_index algorithm_received = 2
event_index data_received = 3
event_index run_complete = 4
event_index results_consumed = 5
event_index run_failed = 6

pub state_index_iff : (a b : AgentState) → (eqb (state_index a) (state_index b) ≡ true) ↔ (a ≡ b)
state_index_iff a b = ground arith

pub event_index_iff : (a b : AgentEvent) → (eqb (event_index a) (event_index b) ≡ true) ↔ (a ≡ b)
event_index_iff a b = ground arith

instance abbrev pub state_comparable : Comparable AgentState
state_comparable = record {
  equal = λ a b. eqb (state_index a) (state_index b);
  equal_iff = state_index_iff;
}

instance abbrev pub event_comparable : Comparable AgentEvent
event_comparable = record {
  equal = λ a b. eqb (event_index a) (event_index b);
  equal_iff = event_index_iff;
}

-- AgentState.String
abbrev pub state_name : AgentState → String
state_name idle = "Idle"
state_name receiving_manifest = "ReceivingManifest"
state_name receiving_algorithm = "ReceivingAlgorithm"
state_name receiving_data = "ReceivingData"
state_name running = "Running"
state_name consuming_results = "ConsumingResults"
state_name complete = "Complete"
state_name failed = "Failed"

-- Status.String
abbrev pub status_name : Status → String
status_name idle_state = "IdleState"
status_name in_progress = "InProgress"
status_name ready = "Ready"
status_name completed = "Completed"
status_name terminated = "Terminated"
status_name warning = "Warning"
status_name starting = "Starting"

pub record Dataset : Type 0 where
  pub dataset : Bytes
  pub hash : Bytes
  pub user_key : Bytes
  pub filename : String

pub record Algorithm : Type 0 where
  pub algorithm : Bytes
  pub hash : Bytes
  pub user_key : Bytes
  pub requirements : Bytes

pub record ResultConsumer : Type 0 where
  pub user_key : Bytes

pub record Computation : Type 0 where
  pub id : String
  pub name : String
  pub description : String
  pub datasets : List Dataset
  pub algorithm : Algorithm
  pub result_consumers : List ResultConsumer

-- `Computation{}`: empty texts and lists, and hashes of 32 zero bytes.
abbrev pub zero_hash : Bytes
zero_hash =
    0 ∷ 0 ∷ 0 ∷ 0 ∷ 0 ∷ 0 ∷ 0 ∷ 0 ∷ 0 ∷ 0 ∷ 0 ∷ 0 ∷ 0 ∷ 0 ∷ 0 ∷ 0 ∷ 0 ∷ 0 ∷ 0 ∷ 0 ∷ 0 ∷ 0 ∷ 0 ∷ 0
    ∷ 0 ∷ 0 ∷ 0 ∷ 0 ∷ 0 ∷ 0 ∷ 0 ∷ 0 ∷ []

abbrev pub no_algorithm : Algorithm
no_algorithm = record { algorithm = []; hash = zero_hash; user_key = []; requirements = [] }

abbrev pub no_computation : Computation
no_computation = record {
  id = "";
  name = "";
  description = "";
  datasets = [];
  algorithm = no_algorithm;
  result_consumers = [];
}

-- The values that a request's context carries. A header is the list of its values.
pub record Context : Type 0 where
  pub algo_type : List String
  pub algo_args : List String
  pub python_runtime : List String
  pub decompress : List String
  pub manifest_index : Option ℤ

-- What runs the received algorithm, as its constructor was given it.
pub data Runner : Type 0 where
  binary : String → List String → String → Runner
  python : String → String → String → List String → String → Runner
  wasm : List String → String → String → Runner
  docker : String → String → Runner

-- An error of the operating system or of another package is its text.
pub data AgentError : Type 0 where
  state_not_ready all_manifest_items_received hash_mismatch file_name_mismatch : AgentError
  undeclared_dataset undeclared_consumer results_not_ready : AgentError
  wrapped : String → String → AgentError
  run_error : String → AgentError
  -- a panic: index out of range
  panic : AgentError
