-- ===== src/Agent/State.antt =====
-- The state of the agent service, its goroutines and the files that it writes.
use cocos.Common.{ℕ, Bool, Option, some, List, [], ◌∷◌, ◌++◌, String, Bytes}
use cocos.StateMachine.{
  Machine, Loop, Outcome, waiting, took, handled, moved, send_event, handle_event, after_event,
}
use cocos.Agent.Types.{
  AgentState, AgentEvent, Computation, Runner, state_name, state_comparable, event_comparable,
}

-- The actions of the state machine.
pub data Action : Type 0 where
  publish_event : String → Action
  run_computation : Action

-- A goroutine that has work left: an action that was spawned for a state, or a computation whose
-- algorithm is running.
pub data Task : Type 0 where
  spawned : Action → AgentState → Task
  computing : AgentState → Task

pub record Published : Type 0 where
  pub computation_id : String
  pub event : String
  pub status : String

pub record Agent : Type 0 where
  pub computation : Computation
  pub algorithm : Option Runner
  pub result : Bytes
  pub sm : Machine AgentState AgentEvent Action
  pub loop : Loop AgentEvent
  pub run_error : Option String
  pub results_consumed : Bool
  -- goroutines, and what was sent to the event service
  pub tasks : List Task
  pub published : List Published
  -- the file "algo", and the files below DatasetsDir
  pub algo_file : Option Bytes
  pub datasets_dir : List (String × Bytes)

-- as.sm.SendEvent
unfoldable pub send : AgentEvent → Agent → Agent
unfolding send_event
send e a = record a { loop = send_event e a.sm a.loop }

-- as.publishEvent(status)(state)
unfoldable pub publish : String → AgentState → Agent → Agent
publish status s a = record a {
  published =
      a.published
      ++ record { computation_id = a.computation.id; event = state_name s; status = status } ∷ [];
}

abbrev pub spawn : Outcome AgentState AgentEvent Action → List Task → List Task
spawn (moved s (some act)) ts = ts ++ spawned act s ∷ []
spawn _ ts = ts

-- The loop handles the event that it took, and starts the action of the new state.
abbrev pub turn_on : Loop AgentEvent → Agent → Agent
turn_on (took e) a = record a {
  sm = (handle_event e a.sm).1;
  loop = after_event (handle_event e a.sm).0;
  tasks = spawn (handle_event e a.sm).0 a.tasks;
}
turn_on l a = a

unfoldable pub turn : Agent → Agent
turn a = turn_on a.loop a

-- The loop comes back to its select.
abbrev pub back_on : Loop AgentEvent → ℕ → Loop AgentEvent
back_on handled g = waiting g
back_on l g = l

unfoldable pub come_back : Agent → Agent
come_back a = record a { loop = back_on a.loop a.sm.channels }
