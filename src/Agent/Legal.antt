-- ===== src/Agent/Legal.antt =====
-- The transition table of the agent stays within the declared moves.
use cocos.Common.{◌≡◌, refl, Bool, true, false, some, List, [], ◌∷◌, arith, lookup, insert}
use cocos.StateMachine.{next, add_transition, set_action, reset, new_state_machine}
use cocos.StateMachine.Table.{next-add_transition}
use cocos.Agent.Types.{
  AgentState, idle, receiving_manifest, receiving_algorithm, receiving_data, running,
  consuming_results, complete, failed, AgentEvent, start, manifest_received, algorithm_received,
  data_received, run_complete, results_consumed, run_failed, Dataset, state_comparable,
  event_comparable,
}
use cocos.Agent.State.{run_computation}
use cocos.Agent.Manifest.{Sm, new_sm, transition, input_transitions}

-- The moves that the program declares.
abbrev pub allowed : AgentState → AgentEvent → AgentState → Bool
allowed idle start receiving_manifest = true
allowed receiving_manifest manifest_received receiving_algorithm = true
allowed receiving_algorithm algorithm_received receiving_data = true
allowed receiving_algorithm algorithm_received running = true
allowed receiving_data data_received running = true
allowed running run_complete consuming_results = true
allowed running run_failed failed = true
allowed consuming_results results_consumed complete = true
allowed _ _ _ = false

abbrev pub Moves : Sm → Type 0
Moves m =
    (s : AgentState) (e : AgentEvent) (t : AgentState)
    → next m s (some e) ≡ some t
    → allowed s e t ≡ true

abbrev pub Runs : Sm → Type 0
Runs m = (s : AgentState) → lookup s m.actions ≡ some run_computation → s ≡ running

pub transition-Moves :
    (s : AgentState) (e : AgentEvent) (t : AgentState) (m : Sm)
    → allowed s e t ≡ true
    → Moves m
    → Moves (transition s e t m)
transition-Moves s e t m ok h s' e' t' p = ground (
  arith,
  next-add_transition (record { source = s; event = e; target = t }) m s' e',
  state_comparable.equal_iff s s',
  event_comparable.equal_iff e e',
  h s' e' t',
)

pub transition-Runs :
    (s : AgentState) (e : AgentEvent) (t : AgentState) (m : Sm) → Runs m → Runs (transition s e t m)
unfolding add_transition
transition-Runs s e t m h s' p = h s' p

pub input_transitions-Moves :
    (ds : List Dataset) (m : Sm) → Moves m → Moves (input_transitions ds m)
input_transitions-Moves [] m h =
    transition-Moves receiving_algorithm algorithm_received running m refl h
input_transitions-Moves (d ∷ ds) m h =
    transition-Moves receiving_data data_received running _ refl
      (transition-Moves receiving_algorithm algorithm_received receiving_data m refl h)

pub input_transitions-Runs : (ds : List Dataset) (m : Sm) → Runs m → Runs (input_transitions ds m)
input_transitions-Runs [] m h = transition-Runs receiving_algorithm algorithm_received running m h
input_transitions-Runs (d ∷ ds) m h =
    transition-Runs receiving_data data_received running _
      (transition-Runs receiving_algorithm algorithm_received receiving_data m h)

-- The algorithm leads straight to the run exactly when no dataset is declared.
pub input_transitions_target :
    (ds : List Dataset) (m : Sm)
    → next (input_transitions ds m) receiving_algorithm (some algorithm_received) ≡ some running
    → ds ≡ []
input_transitions_target [] m p = refl
input_transitions_target (d ∷ ds) m p = ground (
  arith,
  next-add_transition (record { source = receiving_data; event = data_received; target = running })
      (transition receiving_algorithm algorithm_received receiving_data m) receiving_algorithm
      algorithm_received,
  next-add_transition
      (record { source = receiving_algorithm; event = algorithm_received; target = receiving_data })
      m receiving_algorithm algorithm_received,
)

pub new_sm-Moves : Moves new_sm
unfolding new_sm next set_action add_transition lookup insert new_state_machine
new_sm-Moves s e t p = ground arith

pub new_sm-Runs : Runs new_sm
unfolding new_sm set_action add_transition lookup insert new_state_machine
new_sm-Runs s p = ground arith

pub input_transitions-state :
    (ds : List Dataset) (m : Sm) → (input_transitions ds m).current_state ≡ m.current_state
unfolding add_transition
input_transitions-state [] m = refl
input_transitions-state (d ∷ ds) m = refl

pub reset-Moves : (m : Sm) → Moves m → Moves (reset idle m)
unfolding reset next
reset-Moves m h s e t p = h s e t p

pub reset-Runs : (m : Sm) → Runs m → Runs (reset idle m)
unfolding reset
reset-Runs m h s p = h s p

pub reset-state : (m : Sm) → (reset idle m).current_state ≡ idle
unfolding reset
reset-state m = refl

pub new_sm-state : new_sm.current_state ≡ idle
unfolding new_sm set_action add_transition new_state_machine
new_sm-state = refl
