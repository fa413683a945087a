-- ===== src/Agent/Invariant.antt =====
-- What holds of the agent between any two steps of its clients, its loop and its goroutines: the
-- invariant, and what may change under it.
use cocos.Common.{
  ◌≡◌, inl, inr, Bool, true, false, ◌||◌, Option, none, some, List, [], ◌∷◌, String, Bytes, arith,
  Bool-cases, eqb, string_comparable, is_some, bytes_comparable,
}
use mathlib.Core.Option
use cocos.StateMachine.{Loop, returned, waiting, took, handled, next, send_event}
use cocos.Agent.Types.{
  AgentState, idle, receiving_manifest, receiving_algorithm, receiving_data, running,
  consuming_results, complete, failed, AgentEvent, start, manifest_received, algorithm_received,
  data_received, run_complete, results_consumed, run_failed, Dataset, state_comparable,
  event_comparable,
}
use cocos.Agent.State.{
  Agent, Published, Task, spawned, computing, publish_event, run_computation, send,
}
use cocos.Agent.Manifest.{Sm}
use cocos.Agent.Legal.{Moves, Runs}

abbrev pub is_early : AgentState → Bool
is_early idle = true
is_early receiving_manifest = true
is_early _ = false

-- The states in which every declared input has arrived.
abbrev pub is_ready : AgentState → Bool
is_ready running = true
is_ready consuming_results = true
is_ready complete = true
is_ready failed = true
is_ready _ = false

abbrev pub is_late : AgentState → Bool
is_late receiving_data = true
is_late s = is_ready s

-- A computation is about to run, or runs.
abbrev pub is_run : Task → Bool
is_run (spawned (publish_event status) s) = false
is_run (spawned run_computation s) = true
is_run (computing s) = true

abbrev pub busy : List Task → Bool
busy [] = false
busy (t ∷ ts) = is_run t || busy ts

-- What an event that the loop took says of the state, of whether there is an algorithm, and of the
-- datasets that are still expected.
abbrev pub EventFits : Option AgentEvent → AgentState → Bool → List Dataset → Type 0
EventFits none s present left = Unit {0}
EventFits (some start) s present left = s ≡ idle
EventFits (some manifest_received) s present left = s ≡ receiving_manifest
EventFits (some algorithm_received) s present left = (s ≡ receiving_algorithm) × (present ≡ true)
EventFits (some data_received) s present left = (s ≡ receiving_data) × (left ≡ [])
EventFits (some run_complete) s present left = is_ready s ≡ true
EventFits (some results_consumed) s present left = is_ready s ≡ true
EventFits (some run_failed) s present left = is_ready s ≡ true

abbrev pub LoopFits : Loop AgentEvent → AgentState → Bool → List Dataset → Type 0
LoopFits (took e) s present left = EventFits e s present left
LoopFits l s present left = Unit {0}

pub LoopFits_set :
    (l : Loop AgentEvent) (s : AgentState) (present : Bool) (left : List Dataset)
    → LoopFits l s present left
    → LoopFits l s true left
LoopFits_set l s true left h = h
LoopFits_set l s false left h = ground arith

pub send_event-fits :
    (e : AgentEvent) (m : Sm) (l : Loop AgentEvent) (s : AgentState) (present : Bool)
    (left : List Dataset)
    → EventFits (some e) s present left
    → LoopFits l s present left
    → LoopFits (send_event e m l) s present left
unfolding send_event
send_event-fits e m returned s present left f k = tt
send_event-fits e m (waiting g) s present left f k = elim (Bool-cases (eqb g m.channels)) [
  | inl same ↦ rw same f
  | inr other ↦ rw other tt
]
send_event-fits e m (took d) s present left f k = k
send_event-fits e m handled s present left f k = tt

module _ (sha3 : Bytes → Bytes) where
  pub record Safe (a : Agent) : Type 0 where
    pub verified :
        is_some a.algorithm ≡ true → Option.map sha3 a.algo_file ≡ some a.computation.algorithm.hash
    pub early : is_early a.sm.current_state ≡ true → a.algorithm ≡ none
    pub late : is_late a.sm.current_state ≡ true → is_some a.algorithm ≡ true
    pub received : is_ready a.sm.current_state ≡ true → a.computation.datasets ≡ []
    pub direct :
        next a.sm receiving_algorithm (some algorithm_received) ≡ some running
        → a.computation.datasets ≡ []
    pub moves : Moves a.sm
    pub acts : Runs a.sm
    pub taken : LoopFits a.loop a.sm.current_state (is_some a.algorithm) a.computation.datasets
    pub runs : busy a.tasks ≡ true → is_ready a.sm.current_state ≡ true

  -- What the invariant does not read may change, and goroutines may end.
  pub frame-Safe :
      (a : Agent) (bytes : Bytes) (error : Option String) (consumed : Bool) (ts : List Task)
      (ps : List Published) (dir : List (String × Bytes))
      → (busy ts ≡ true → busy a.tasks ≡ true)
      → Safe a
      → Safe (record a {
        result = bytes;
        run_error = error;
        results_consumed = consumed;
        tasks = ts;
        published = ps;
        datasets_dir = dir;
      })
  frame-Safe a bytes error consumed ts ps dir k h = record {
    verified = h.verified;
    early = h.early;
    late = h.late;
    received = h.received;
    direct = h.direct;
    moves = h.moves;
    acts = h.acts;
    taken = h.taken;
    runs = λ e. h.runs (k e);
  }

  pub dir-Safe :
      (dir : List (String × Bytes)) (a : Agent) → Safe a → Safe (record a { datasets_dir = dir })
  dir-Safe dir a h =
      frame-Safe a a.result a.run_error a.results_consumed a.tasks a.published dir (λ e. e) h

  -- An event that fits may be sent: the loop takes it or it is dropped.
  pub send-Safe :
      (e : AgentEvent) (a : Agent)
      → Safe a
      → EventFits (some e) a.sm.current_state (is_some a.algorithm) a.computation.datasets
      → Safe (send e a)
  unfolding send
  send-Safe e a h f = record {
    verified = h.verified;
    early = h.early;
    late = h.late;
    received = h.received;
    direct = h.direct;
    moves = h.moves;
    acts = h.acts;
    taken = send_event-fits e a.sm a.loop _ _ _ f h.taken;
    runs = h.runs;
  }
