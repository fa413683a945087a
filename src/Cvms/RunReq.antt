-- ===== src/Cvms/RunReq.antt =====
-- agent/cvms/api/grpc/client.go: the computation that executeRun makes of a run request.
use cocos.Common.{
  Bool, false, Option, none, some, List, [], ◌∷◌, String, Bytes, length, take, ltb, if◌then◌else◌,
}
use cocos.Agent.Types.{Algorithm, Computation, Dataset, ResultConsumer, no_algorithm}

-- The messages of cvms.proto that the client reads.
pub record DatasetSpec : Type 0 where
  pub hash : Bytes
  pub user_key : Bytes
  pub filename : String

pub record AlgorithmSpec : Type 0 where
  pub hash : Bytes
  pub user_key : Bytes

pub record AgentConfig : Type 0 where
  pub port : String
  pub cert_file : String
  pub key_file : String
  pub server_ca_file : String
  pub client_ca_file : String
  pub attested_tls : Bool

pub record ComputationRunReq : Type 0 where
  pub id : String
  pub name : String
  pub description : String
  pub datasets : List DatasetSpec
  pub algorithm : Option AlgorithmSpec
  pub result_consumers : List Bytes
  pub agent_config : Option AgentConfig

abbrev pub no_config : AgentConfig
no_config = record {
  port = "";
  cert_file = "";
  key_file = "";
  server_ca_file = "";
  client_ca_file = "";
  attested_tls = false;
}

-- [32]byte(hash): a slice that is too short panics, and a longer one is cut.
unfoldable pub to_array : Bytes → Option Bytes
to_array hash = if ltb (length hash) 32 then none else some (take 32 hash)

abbrev pub algorithm_with : Bytes → Option Bytes → Option Algorithm
algorithm_with key none = none
algorithm_with key (some hash) =
    some (record { algorithm = []; hash = hash; user_key = key; requirements = [] })

abbrev pub algorithm_of : Option AlgorithmSpec → Option Algorithm
unfolding to_array
algorithm_of none = some no_algorithm
algorithm_of (some a) = algorithm_with a.user_key (to_array a.hash)

abbrev pub add_dataset : Bytes → Option Bytes → Option (List Dataset) → Option (List Dataset)
add_dataset key none later = none
add_dataset key (some hash) none = none
add_dataset key (some hash) (some ds) =
    some (record { dataset = []; hash = hash; user_key = key; filename = "" } ∷ ds)

-- The loop over the datasets: the name is not copied.
unfoldable pub datasets_of : List DatasetSpec → Option (List Dataset)
unfolding to_array
datasets_of [] = some []
datasets_of (d ∷ ds) = add_dataset d.user_key (to_array d.hash) (datasets_of ds)

abbrev pub consumers_of : List Bytes → List ResultConsumer
consumers_of [] = []
consumers_of (key ∷ keys) = record { user_key = key } ∷ consumers_of keys

abbrev pub computation_with :
    ComputationRunReq → Option Algorithm → Option (List Dataset) → Option Computation
computation_with req none ds = none
computation_with req (some a) none = none
computation_with req (some a) (some ds) = some (record {
  id = req.id;
  name = req.name;
  description = req.description;
  datasets = ds;
  algorithm = a;
  result_consumers = consumers_of req.result_consumers;
})

-- The computation of a request, `none` where a conversion panics.
unfoldable pub computation_of : ComputationRunReq → Option Computation
unfolding datasets_of to_array
computation_of req = computation_with req (algorithm_of req.algorithm) (datasets_of req.datasets)
