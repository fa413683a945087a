-- ===== src/Agent/Inputs.antt =====
-- agent/service.go: Algo and Data. `sha3` is golang.org/x/crypto/sha3.Sum256.
use cocos.Common.{
  Bool, true, false, not, ◌&&◌, Option, none, some, List, [], ◌∷◌, String, Bytes, ◌==◌,
  if◌then◌else◌, is_some, insert, bytes_comparable, string_comparable,
}
use cocos.Common.Exec.{Exec, Result, ok, err, ◌>>=◌, ◌>>◌, pure, gets, modify, guard, check, throw}
use cocos.Agent.Types.{
  receiving_algorithm, receiving_data, algorithm_received, data_received, Algorithm, Dataset,
  Context, Runner, binary, python, wasm, docker, AgentError, state_not_ready,
  all_manifest_items_received, hash_mismatch, file_name_mismatch, undeclared_dataset, wrapped,
  panic, state_comparable,
}
use cocos.Agent.State.{Agent, send}
use cocos.Agent.Manifest.{state}

-- metadata.ValueFromIncomingContext(ctx, key)[0]
abbrev pub first_value : List String → Exec Agent AgentError String
first_value [] = throw panic
first_value (v ∷ vs) = pure v

-- What the operating system answers to the calls of Algo, with the names of the files it makes.
pub record AlgoIo : Type 0 where
  pub getwd : Option String
  pub create : Option String
  pub algo_name : String
  pub write : Option String
  pub chmod : Option String
  pub close : Option String
  pub create_requirements : Option String
  pub requirements_name : String
  pub write_requirements : Option String
  pub close_requirements : Option String
  pub mkdir_datasets : Option String

-- The temporary file of the requirements, where there are any.
abbrev pub requirements_file : AlgoIo → Bytes → Exec Agent AgentError String
requirements_file io [] = pure ""
requirements_file io (b ∷ bs) = do
  check io.create_requirements (wrapped "error creating requirments file")
  check io.write_requirements (wrapped "error writing requirements to file")
  check io.close_requirements (wrapped "error closing file")
  pure io.requirements_name

abbrev pub set_runner : Runner → Exec Agent AgentError (Unit {0})
set_runner r = modify λ a. record a { algorithm = some r }

abbrev pub python_runner : AlgoIo → Context → Algorithm → String → Exec Agent AgentError (Unit {0})
python_runner io ctx algo id = do
  file ← requirements_file io algo.requirements
  runtime ← first_value ctx.python_runtime
  set_runner (python runtime file io.algo_name ctx.algo_args id)

-- The switch on the algorithm's type: another type sets no algorithm.
unfoldable pub set_algorithm :
    AlgoIo → Context → Algorithm → String → String → Exec Agent AgentError (Unit {0})
set_algorithm io ctx algo id kind =
    if kind == "bin"
    then set_runner (binary io.algo_name ctx.algo_args id)
    else if kind == "python"
    then python_runner io ctx algo id
    else if kind == "wasm"
    then set_runner (wasm ctx.algo_args io.algo_name id)
    else if kind == "docker"
    then set_runner (docker io.algo_name id)
    else pure tt

abbrev pub send_if_set : Option Runner → Agent → Agent
send_if_set none a = a
send_if_set (some r) a = send algorithm_received a

abbrev pub install_kind : AlgoIo → Context → Algorithm → String → Exec Agent AgentError (Unit {0})
install_kind io ctx received kind = do
  id ← gets λ (a : Agent). a.computation.id
  set_algorithm io ctx received id kind
  check io.mkdir_datasets (wrapped "error creating datasets directory")
  modify λ a. send_if_set a.algorithm a

-- The rest of Algo, from the values of the type's header on: AlgorithmTypeFromContext reads the
-- first value of a header that may be missing.
unfoldable pub install_algorithm :
    AlgoIo → Context → Algorithm → List String → Exec Agent AgentError (Unit {0})
unfolding set_algorithm
install_algorithm io ctx received [] = throw panic
install_algorithm io ctx received (header ∷ more) =
    install_kind io ctx received (if header == "" then "bin" else header)

module _ (sha3 : Bytes → Bytes) where
  unfoldable pub accept_algorithm : Algorithm → Exec Agent AgentError (Unit {0})
  unfolding state
  accept_algorithm algo = do
    s ← gets state
    guard (s == receiving_algorithm) state_not_ready
    present ← gets λ a. is_some a.algorithm
    guard (not present) all_manifest_items_received
    expected ← gets λ a. a.computation.algorithm.hash
    guard (sha3 algo.algorithm == expected) hash_mismatch

  -- os.Create truncates the file.
  unfoldable pub write_algorithm : AlgoIo → Algorithm → Exec Agent AgentError (Unit {0})
  write_algorithm io algo = do
    check io.getwd (wrapped "error getting current directory")
    check io.create (wrapped "error creating algorithm file")
    modify λ a. record a { algo_file = some [] }
    check io.write (wrapped "error writing algorithm to file")
    modify λ a. record a { algo_file = some algo.algorithm }
    check io.chmod (wrapped "error changing file permissions")
    check io.close (wrapped "error closing file")

  unfoldable pub algo : AlgoIo → Context → Algorithm → Exec Agent AgentError (Unit {0})
  unfolding accept_algorithm write_algorithm install_algorithm
  algo io ctx received = do
    accept_algorithm received
    write_algorithm io received
    install_algorithm io ctx received ctx.algo_type

-- What the manifest says of an uploaded dataset: its hash is not declared, its name is another, or
-- it is declared, and these datasets are left.
pub data Match : Type 0 where
  undeclared : Match
  misnamed : Match
  declared : List Dataset → Match

abbrev pub keep_dataset : Dataset → Match → Match
keep_dataset d undeclared = undeclared
keep_dataset d misnamed = misnamed
keep_dataset d (declared ds) = declared (d ∷ ds)

-- The loop of Data over as.computation.Datasets, with slices.Delete.
unfoldable pub match_dataset : Bytes → String → List Dataset → Match
match_dataset hash name [] = undeclared
match_dataset hash name (d ∷ ds) =
    if hash == d.hash
    then (if not (d.filename == "") && not (d.filename == name) then misnamed else declared ds)
    else keep_dataset d (match_dataset hash name ds)

-- DecompressFromContext
unfoldable pub decompress_from_context : Context → Bool
decompress_from_context ctx = elim ctx.decompress [ [] ↦ false | v ∷ vs ↦ v == "true" ]

-- What is answered to the calls of Data; the archive's files, where it can be read.
pub record DataIo : Type 0 where
  pub unzip : Result String (List (String × Bytes))
  pub create : Option String
  pub write : Option String
  pub close : Option String

abbrev pub put_files : List (String × Bytes) → List (String × Bytes) → List (String × Bytes)
put_files [] dir = dir
put_files ((name, content) ∷ fs) dir = put_files fs (insert name content dir)

abbrev pub unzipped : Result String (List (String × Bytes)) → Exec Agent AgentError (Unit {0})
unzipped (err e) = throw (wrapped "error decompressing dataset" e)
unzipped (ok files) = modify λ a. record a { datasets_dir = put_files files a.datasets_dir }

unfoldable pub store_dataset : DataIo → Context → Bytes → String → Exec Agent AgentError (Unit {0})
unfolding decompress_from_context
store_dataset io ctx content name = if decompress_from_context ctx then unzipped io.unzip else do
  check io.create (wrapped "error creating dataset file")
  modify λ a. record a { datasets_dir = insert name [] a.datasets_dir }
  check io.write (wrapped "error writing dataset to file")
  modify λ a. record a { datasets_dir = insert name content a.datasets_dir }
  check io.close (wrapped "error closing file")

abbrev pub declared_left : Match → Exec Agent AgentError (List Dataset)
declared_left undeclared = throw undeclared_dataset
declared_left misnamed = throw file_name_mismatch
declared_left (declared ds) = pure ds

abbrev pub null {ℓ} : {A : Type ℓ} → List A → Bool
null [] = true
null (x ∷ xs) = false

abbrev pub send_if_all : List Dataset → Agent → Agent
send_if_all [] a = send data_received a
send_if_all (d ∷ ds) a = a

-- The match of a declared dataset: its manifest entry is deleted before the dataset is stored.
unfoldable pub accept_dataset :
    DataIo → Context → Bytes → String → Match → Exec Agent AgentError (Unit {0})
unfolding store_dataset
accept_dataset io ctx content name found = do
  left ← declared_left found
  modify λ a. record a { computation = record (a.computation) { datasets = left } }
  store_dataset io ctx content name
  modify (send_if_all left)

module _ (sha3 : Bytes → Bytes) where
  unfoldable pub add_dataset : DataIo → Context → Bytes → String → Exec Agent AgentError (Unit {0})
  unfolding state match_dataset accept_dataset
  add_dataset io ctx content name = do
    s ← gets state
    guard (s == receiving_data) state_not_ready
    expected ← gets λ a. a.computation.datasets
    guard (not (null expected)) all_manifest_items_received
    accept_dataset io ctx content name (match_dataset (sha3 content) name expected)
