-- ===== src/Algorithms/Endings.antt =====
-- agent/algorithm and agent/service.go: how an algorithm that a signal ended is stopped.
use mathlib.Core.Option
use cocos.Common.{
  ◌≡◌, refl, ◌∙◌, inl, inr, Option, none, some, String, ◌==◌, string_comparable, Bool-cases,
}
use cocos.Common.Exec.{Result, err}
use cocos.StateMachine.{returned}
use cocos.Agent.Types.{Runner, binary, python, wasm, docker, AgentEvent, wrapped}
use cocos.Agent.State.{Agent, send, turn}
use cocos.Agent.Manifest.{StopIo, stop_computation}
use cocos.Agent.Stopping.{stop_computation_stuck}
use cocos.Algorithms.Processes.{
  Host, Act, RunError, ProcessIo, by_signal, execution_failed, fresh, run, run_binary, run_python,
  run_wasm, start_command, stop, stopping_failed,
}

abbrev pub IsProcess : Runner → Type 0
IsProcess (docker file id) = ⊥
IsProcess r = Unit

-- Everything up to the algorithm's own end goes well.
pub record Starts (io : ProcessIo) : Type 0 where
  pub venv : io.make_venv ≡ none
  pub pip : io.update_pip ≡ none
  pub requirements : io.install_requirements ≡ none
  pub start : io.start ≡ none

abbrev Killed : Result RunError (Unit {0}) × Host → String → Type 0
Killed answer e =
    (answer.0 ≡ err (execution_failed e))
    × ((kill : Option String) → stop kill answer.1 ≡ Option.map stopping_failed kill)

run-Killed :
    (io : ProcessIo) (r : Runner) (container : Act) (e : String)
    → IsProcess r
    → Starts io
    → io.ending ≡ by_signal e
    → Killed (run io r container fresh) e
unfolding run run_binary run_python run_wasm start_command stop
run-Killed io (binary file args id) container e p s h = rw (s.start, h) (refl, λ kill. refl)
run-Killed io (wasm args file id) container e p s h = rw (s.start, h) (refl, λ kill. refl)
run-Killed io (python runtime requirements file args id) container e p s h =
    elim (Bool-cases (requirements == "")) [
      | inl none_given ↦ rw (s.venv, s.pip, none_given, s.start, h) (refl, λ kill. refl)
      | inr given ↦ rw (s.venv, s.pip, given, s.requirements, s.start, h) (refl, λ kill. refl)
    ]
run-Killed io (docker file id) container e p s h = absurd p

-- An algorithm that runs as a process and that a signal ends: its run fails, and where Process.Kill
-- answers an error for a process that has ended, its Stop fails with this error and, with that,
-- StopComputation fails; the loop has returned, and the agent drops every later event.
pub signalled_algorithm_stuck :
    (io : ProcessIo) (r : Runner) (container : Act) (e done : String) (sio : StopIo) (a : Agent)
    (event : AgentEvent)
    → IsProcess r
    → Starts io
    → io.ending ≡ by_signal e
    → a.algorithm ≡ some r
    → sio.stop_algorithm ≡ stop (some done) (run io r container fresh).1
    → let b = (stop_computation sio a).1 in
      ((run io r container fresh).0 ≡ err (execution_failed e))
      × ((stop_computation sio a).0
          ≡ err (wrapped "error stopping computation" (stopping_failed done)))
      × (b.loop ≡ returned)
      × (send event b ≡ b)
      × (turn b ≡ b)
signalled_algorithm_stuck io r container e done sio a event p s h set answered =
    let (failed, kills) = run-Killed io r container e p s h in
    let (refused, same, kept, gone, dropped, still) =
      stop_computation_stuck sio a r (stopping_failed done) event set
        (answered ∙ kills (some done)) in
    (failed, refused, gone, dropped, still)
