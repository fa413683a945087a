-- ===== src/Agent/Manifest.antt =====
-- agent/service.go: New, State, InitComputation and StopComputation.
use cocos.Common.{false, Option, none, some, List, [], ◌∷◌, ◌++◌, String, ◌==◌}
use cocos.Common.Exec.{Exec, ◌>>=◌, ◌>>◌, gets, modify, guard, check}
use cocos.StateMachine.{
  Machine, waiting, returned, new_state_machine, add_transition, set_action, get_state, reset,
}
use cocos.Agent.Types.{
  AgentState, idle, receiving_manifest, receiving_algorithm, receiving_data, running,
  consuming_results, complete, failed, AgentEvent, start, manifest_received, algorithm_received,
  data_received, run_complete, results_consumed, run_failed, in_progress, ready, completed,
  status_name, state_name, Computation, Dataset, no_computation, AgentError, state_not_ready,
  wrapped, state_comparable, event_comparable,
}
use cocos.Agent.State.{Agent, Action, publish_event, run_computation, send, turn, come_back}

abbrev pub Sm : Type 0
Sm = Machine AgentState AgentEvent Action

abbrev pub transition : AgentState → AgentEvent → AgentState → Sm → Sm
transition s e t = add_transition (record { source = s; event = e; target = t })

-- The machine that New builds.
unfoldable pub new_sm : Sm
new_sm = set_action failed (publish_event (state_name failed)) (
    set_action complete (publish_event (status_name completed)) (
      set_action consuming_results (publish_event (status_name ready)) (
        set_action running run_computation (
          set_action receiving_data (publish_event (status_name in_progress)) (
            set_action receiving_algorithm (publish_event (status_name in_progress)) (
              transition consuming_results results_consumed complete (
                transition running run_failed failed (
                  transition running run_complete consuming_results (
                    transition receiving_manifest manifest_received receiving_algorithm
                      (transition idle start receiving_manifest (new_state_machine idle)))))))))))

-- `go sm.Start(ctx)`, a sleep in which the loop comes to wait, `sm.SendEvent(Start)`, and a sleep
-- in which the loop handles it.
unfoldable pub start_machine : Agent → Agent
start_machine a = come_back (turn (send start (record a { loop = waiting a.sm.channels })))

unfoldable pub initial : Agent
unfolding new_sm
initial = record {
  computation = no_computation;
  algorithm = none;
  result = [];
  sm = new_sm;
  loop = returned;
  run_error = none;
  results_consumed = false;
  tasks = [];
  published = [];
  algo_file = none;
  datasets_dir = [];
}

unfoldable pub new : Agent
unfolding initial start_machine
new = start_machine initial

-- State, without the name's text.
unfoldable pub state : Agent → AgentState
unfolding get_state
state a = get_state a.sm

-- The transitions that InitComputation adds.
abbrev pub input_transitions : List Dataset → Sm → Sm
input_transitions [] m = transition receiving_algorithm algorithm_received running m
input_transitions (d ∷ ds) m =
    transition receiving_data data_received running
      (transition receiving_algorithm algorithm_received receiving_data m)

-- `observed` is the state as GetState read it, before as.mu.Lock.
unfoldable pub init_computation : AgentState → Computation → Exec Agent AgentError (Unit {0})
init_computation observed cmp = do
  guard (observed == receiving_manifest) state_not_ready
  modify λ a. record a { computation = cmp }
  modify λ a. record a { sm = input_transitions cmp.datasets a.sm }
  modify (send manifest_received)

-- What the operating system answers to the calls of StopComputation.
pub record StopIo : Type 0 where
  pub stop_algorithm : Option String
  pub remove_datasets : Option String
  pub remove_results : Option String

-- `if as.algorithm != nil { as.algorithm.Stop() }`
abbrev pub stop_answer : StopIo → Agent → Option String
stop_answer io a = elim a.algorithm [ none ↦ none | some r ↦ io.stop_algorithm ]

-- The event that is published first, and `as.cancel()`, after which the loop returns.
unfoldable pub announce_stop : Agent → Agent
announce_stop a = record a {
  published =
      a.published
      ++ record { computation_id = a.computation.id; event = "Stopped"; status = "Stopped" } ∷ [];
  loop = returned;
}

-- The reset of the machine and of the service, and the start of a new loop.
unfoldable pub restart : Agent → Agent
unfolding start_machine
restart a = start_machine (record a {
  sm = reset idle a.sm;
  computation = no_computation;
  algorithm = none;
  result = [];
  run_error = none;
  results_consumed = false;
})

unfoldable pub stop_computation : StopIo → Exec Agent AgentError (Unit {0})
unfolding announce_stop restart
stop_computation io = do
  modify announce_stop
  stopped ← gets (stop_answer io)
  check stopped (wrapped "error stopping computation")
  check io.remove_datasets (wrapped "error removing datasets directory")
  modify λ a. record a { datasets_dir = [] }
  check io.remove_results (wrapped "error removing results directory")
  modify restart
