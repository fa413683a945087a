-- ===== src/Agent/Tests.antt =====
-- Witnesses on a concrete service: the digest of bytes is their first byte, so that a manifest can
-- be written down.
use cocos.Common.{
  ◌↔◌, ◌≡◌, refl, inr, ◌≢◌, true, none, some, [], ◌∷◌, Bytes, lookup, insert, is_some, pos,
  bytes_comparable, string_comparable, nat_comparable, arith,
}
use mathlib.Core.Option
use cocos.Common.Exec.{ok, err}
use cocos.StateMachine.{
  handled, new_state_machine, add_transition, set_action, next, handle_event, send_event, get_state,
}
use cocos.Agent.Types.{
  receiving_manifest, receiving_algorithm, receiving_data, running, Dataset, Algorithm, Computation,
  Context, wrapped, all_manifest_items_received, state_comparable, event_comparable,
}
use cocos.Agent.State.{Agent, spawned, publish_event, send, turn, come_back}
use cocos.Agent.Manifest.{
  new, initial, new_sm, start_machine, init_computation, state, StopIo, stop_computation,
}
use cocos.Agent.Inputs.{
  declared, AlgoIo, algo, accept_algorithm, write_algorithm, install_algorithm, set_algorithm,
  DataIo, add_dataset, match_dataset, decompress_from_context,
}
use cocos.Agent.Running.{RunIo, begin_run}
use cocos.Agent.World.{Reach, begin, followed, inits, algos, turns, comes_back}
use cocos.Agent.Races.{raced_run_unverified}
use cocos.Agent.Properties.{run_only_verified, begin_run-ne-none}
use cocos.Agent.Behaviour.{Acceptable, algo-turn}
use cocos.Agent.DataBehaviour.{Takes, match_dataset_declared, add_dataset_lost}
use cocos.Agent.Stopping.{Restarted, stop_computation_restarts}

abbrev digest : Bytes → Bytes
digest [] = []
digest (b ∷ bs) = b ∷ []

abbrev program : Algorithm
program = record { algorithm = 7 ∷ 8 ∷ []; hash = 7 ∷ []; user_key = []; requirements = [] }

abbrev other_program : Algorithm
other_program = record { algorithm = 9 ∷ []; hash = 7 ∷ []; user_key = []; requirements = [] }

abbrev table : Dataset
table = record { dataset = []; hash = 5 ∷ []; user_key = []; filename = "table.csv" }

abbrev weights : Dataset
weights = record { dataset = []; hash = 6 ∷ []; user_key = []; filename = "" }

abbrev manifest : Computation
manifest = record {
  id = "c";
  name = "";
  description = "";
  datasets = [];
  algorithm = program;
  result_consumers = [];
}

abbrev data_manifest : Computation
data_manifest = record manifest { datasets = table ∷ [] }

abbrev context : Context
context = record {
  algo_type = "bin" ∷ [];
  algo_args = "-v" ∷ [];
  python_runtime = [];
  decompress = [];
  manifest_index = some (pos 0);
}

abbrev bare : Context
bare = record context { algo_type = [] }

abbrev algo_io : AlgoIo
algo_io = record {
  getwd = none;
  create = none;
  algo_name = "algo";
  write = none;
  chmod = none;
  close = none;
  create_requirements = none;
  requirements_name = "requirements.txt";
  write_requirements = none;
  close_requirements = none;
  mkdir_datasets = none;
}

abbrev full_disk : DataIo
full_disk = record {
  unzip = err "disk full";
  create = some "disk full";
  write = none;
  close = none;
}

abbrev stop_io : StopIo
stop_io = record { stop_algorithm = none; remove_datasets = none; remove_results = none }

abbrev unstoppable : StopIo
unstoppable = record stop_io { stop_algorithm = some "no such process" }

abbrev run_io : RunIo
run_io = record { run = some "killed"; zip = err ""; remove_datasets = none }

-- The manifest is taken, and the loop waits again.
abbrev awaiting : Agent
awaiting = come_back (turn (init_computation (state new) manifest new).1)

-- The manifest is taken, and the loop has not come back.
abbrev hurried : Agent
hurried = turn (init_computation (state new) manifest new).1

abbrev at_run : Agent
at_run = turn (algo digest algo_io context program awaiting).1

-- The manifest with a dataset, and its algorithm, are taken.
abbrev awaiting_data : Agent
awaiting_data = come_back (
    turn
      (algo digest algo_io context program
        (come_back (turn (init_computation (state new) data_manifest new).1))).1)

at_run-Reach : Reach digest at_run
at_run-Reach =
    followed
      (followed (followed (followed (followed begin (inits manifest)) turns) comes_back)
        (algos algo_io context program))
      turns

run_only_verified_example :
    (is_some at_run.algorithm ≡ true)
    × (Option.map digest at_run.algo_file ≡ some at_run.computation.algorithm.hash)
    × (at_run.computation.datasets ≡ [])
unfolding new initial new_sm start_machine init_computation state send turn come_back algo
    accept_algorithm write_algorithm install_algorithm set_algorithm new_state_machine
    add_transition set_action next handle_event send_event get_state lookup insert
run_only_verified_example = run_only_verified digest at_run at_run-Reach refl

begin_run-ne-none_example :
    let b = record at_run {
      tasks = spawned (publish_event "InProgress") receiving_algorithm ∷ [];
    } in
    (begin_run none running b ≢ none)
    × (begin_run none running (stop_computation stop_io b).1 ≡ none)
unfolding new initial new_sm start_machine init_computation state send turn come_back algo
    accept_algorithm write_algorithm install_algorithm set_algorithm new_state_machine
    add_transition set_action next handle_event send_event get_state lookup insert
begin_run-ne-none_example =
    begin_run-ne-none digest at_run (spawned (publish_event "InProgress") receiving_algorithm ∷ [])
      [] running none stop_io at_run-Reach refl (refl, refl, refl)

-- Another manifest, of another algorithm.
abbrev second_manifest : Computation
second_manifest = record manifest { algorithm = record (manifest.algorithm) { hash = 77 ∷ [] } }

raced_run_unverified_example :
    let b = (init_computation receiving_manifest second_manifest at_run).1 in
    ((init_computation receiving_manifest second_manifest at_run).0 ≡ ok tt)
    × (b.computation ≡ second_manifest)
    × (b.tasks ≡ at_run.tasks)
    × (begin_run none running
          (record b { tasks = spawned (publish_event "InProgress") receiving_algorithm ∷ [] })
        ≢ none)
    × (Option.map digest b.algo_file ≢ some b.computation.algorithm.hash)
unfolding new initial new_sm start_machine init_computation state send turn come_back algo
    accept_algorithm write_algorithm install_algorithm set_algorithm new_state_machine
    add_transition set_action next handle_event send_event get_state lookup insert
raced_run_unverified_example =
    raced_run_unverified digest at_run second_manifest
      (spawned (publish_event "InProgress") receiving_algorithm ∷ []) [] running at_run-Reach refl
      (λ e. absurd (ground arith))

algo-turn_example :
    (at_run.sm.current_state ≡ running)
    × (at_run.algo_file ≡ some (7 ∷ 8 ∷ []))
    × (at_run.loop ≡ handled)
unfolding new initial new_sm start_machine init_computation state send turn come_back algo
    accept_algorithm write_algorithm install_algorithm set_algorithm new_state_machine
    add_transition set_action next handle_event send_event get_state lookup insert
algo-turn_example =
    algo-turn digest algo_io context program [] awaiting running
      (refl, refl, refl, refl, refl, refl) refl (refl, refl, refl) refl refl

unacceptable : ¬ (Acceptable digest other_program awaiting)
unfolding new initial new_sm start_machine init_computation state send turn come_back algo
    accept_algorithm write_algorithm install_algorithm set_algorithm new_state_machine
    add_transition set_action next handle_event send_event get_state lookup insert
unacceptable h = absurd (ground (arith, h.2))

match_dataset_declared_example :
    (match_dataset (5 ∷ []) "table.csv" (weights ∷ table ∷ []) ≡ declared (weights ∷ []))
    ↔ Takes (5 ∷ []) "table.csv" (weights ∷ table ∷ []) (weights ∷ [])
match_dataset_declared_example =
    match_dataset_declared (5 ∷ []) "table.csv" (weights ∷ table ∷ []) (weights ∷ [])

add_dataset_lost_example :
    let b = (add_dataset digest full_disk context (5 ∷ []) "table.csv" awaiting_data).1 in
    ((add_dataset digest full_disk context (5 ∷ []) "table.csv" awaiting_data).0
      ≡ err (wrapped "error creating dataset file" "disk full"))
    × (b.sm.current_state ≡ receiving_data)
    × (b.computation.datasets ≡ [])
    × (b.loop ≡ awaiting_data.loop)
    × (add_dataset digest full_disk context (5 ∷ []) "table.csv" b
        ≡ (err all_manifest_items_received, b))
unfolding new initial new_sm start_machine init_computation state send turn come_back algo
    accept_algorithm write_algorithm install_algorithm set_algorithm new_state_machine
    add_transition set_action next handle_event send_event get_state lookup insert
    decompress_from_context
add_dataset_lost_example =
    add_dataset_lost digest full_disk full_disk context context (5 ∷ []) (5 ∷ []) "table.csv"
      "table.csv" "disk full" table awaiting_data refl refl refl (inr refl) refl refl

stop_computation_restarts_example :
    ((stop_computation stop_io at_run).0 ≡ ok tt)
    × Restarted at_run (stop_computation stop_io at_run).1
    × ((stop_computation stop_io at_run).1.datasets_dir ≡ [])
unfolding new initial new_sm start_machine init_computation state send turn come_back algo
    accept_algorithm write_algorithm install_algorithm set_algorithm new_state_machine
    add_transition set_action next handle_event send_event get_state lookup insert
stop_computation_restarts_example = stop_computation_restarts stop_io at_run (refl, refl, refl) refl
