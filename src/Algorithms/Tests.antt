-- ===== src/Algorithms/Tests.antt =====
-- Witnesses: a binary that a signal ended, and an image that was left behind.
use cocos.Common.{◌≡◌, refl, none, some, [], ◌∷◌, lookup, string_comparable, true}
use cocos.Common.Exec.{ok, err}
use cocos.StateMachine.{returned}
use cocos.Agent.Types.{binary, data_received, wrapped}
use cocos.Agent.State.{Agent, send, turn}
use cocos.Agent.Manifest.{new, StopIo, stop_computation}
use cocos.Algorithms.Processes.{
  ProcessIo, by_signal, execution_failed, fresh, run, run_binary, start_command, stop,
}
use cocos.Algorithms.Containers.{
  Image, Docker, DockerIo, container_name, start_container, last_tagged_image_started,
}
use cocos.Algorithms.Endings.{signalled_algorithm_stuck}

abbrev process_io : ProcessIo
process_io = record {
  make_venv = none;
  update_pip = none;
  install_requirements = none;
  start = none;
  ending = by_signal "signal: killed";
  remove_venv = none;
}

abbrev stop_io : StopIo
stop_io = record {
  stop_algorithm = some "error stopping algorithm: os: process already finished";
  remove_datasets = none;
  remove_results = none;
}

abbrev crashed : Agent
crashed = record new { algorithm = some (binary "algo" [] "c") }

signalled_algorithm_stuck_example :
    let b = (stop_computation stop_io crashed).1 in
    ((run process_io (binary "algo" [] "c") (λ h. (ok tt, h)) fresh).0
      ≡ err (execution_failed "signal: killed"))
    × ((stop_computation stop_io crashed).0
        ≡ err (
            wrapped "error stopping computation"
              "error stopping algorithm: os: process already finished"))
    × (b.loop ≡ returned)
    × (send data_received b ≡ b)
    × (turn b ≡ b)
unfolding run run_binary start_command stop
signalled_algorithm_stuck_example =
    signalled_algorithm_stuck process_io (binary "algo" [] "c") (λ h. (ok tt, h)) "signal: killed"
      "os: process already finished" stop_io crashed data_received tt
      (record { venv = refl; pip = refl; requirements = refl; start = refl }) refl refl refl

abbrev docker_io : DockerIo
docker_io = record {
  client = none;
  open_file = none;
  load = λ is. ok (record { id = "new"; repo_tags = "algo:2" ∷ [] } ∷ is);
  list = λ is. ok is;
  create = none;
  start = none;
  stdout = none;
  stderr = none;
  wait = none;
  remove_container = none;
  remove_image = none;
}

abbrev left_behind : Image
left_behind = record { id = "old"; repo_tags = "algo:1" ∷ [] }

abbrev host : Docker
host = record { images = left_behind ∷ []; containers = [] }

last_tagged_image_started_example :
    let (answer, d) = start_container docker_io host in
    (answer ≡ ok ("old", "algo:1"))
    × (lookup container_name d.containers ≡ some (record { image = "algo:1"; started = true }))
unfolding lookup
last_tagged_image_started_example =
    last_tagged_image_started docker_io
      (record { id = "new"; repo_tags = "algo:2" ∷ [] } ∷ left_behind ∷ [])
      (record { id = "new"; repo_tags = "algo:2" ∷ [] } ∷ []) [] left_behind "algo:1" [] host refl
      refl refl refl refl refl refl refl tt refl
