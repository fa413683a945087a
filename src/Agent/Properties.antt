-- ===== src/Agent/Properties.antt =====
-- What holds of every agent that an orderly sequence of calls, loop moves and goroutines leads to,
-- and what a StopComputation does to a run otherwise.
use mathlib.Core.Option
use cocos.Common.{
  ◌≡◌, refl, ◌≢◌, true, Option, none, some, List, [], ◌∷◌, ◌++◌, String, Bytes, arith, is_some,
  string_comparable,
}
use cocos.Common.Exec.{Keeps-state}
use cocos.Agent.Types.{AgentState, state_comparable, event_comparable}
use cocos.Agent.State.{Agent, Task, spawned, run_computation}
use cocos.Agent.Stopping.{StopsWell, stopped_algorithm}
use cocos.Agent.Manifest.{state, StopIo, new, initial, init_computation, stop_computation}
use cocos.Agent.Inputs.{algo, add_dataset}
use cocos.Agent.Running.{begin_run}
use cocos.Agent.Legal.{new_sm-Moves, new_sm-Runs, new_sm-state}
use cocos.Agent.Invariant.{Safe, frame-Safe, is_ready, is_late, busy, is_run}
use cocos.Agent.AlgoSafety.{algo-Keeps}
use cocos.Agent.DataSafety.{add_dataset-Keeps}
use cocos.Agent.LoopSafety.{busy-append, turn-Safe, come_back-Safe, publish-Safe}
use cocos.Agent.ManifestSafety.{init_computation-Keeps, stop_computation-Keeps, start_machine-Safe}
use cocos.Agent.RunSafety.{begin_run-Safe, end_run-Safe, result-Safe}
use cocos.Agent.World.{
  Step, Reach, begin, followed, inits, algos, datas, results, stops, turns, comes_back, publishes,
  begins, ends,
}

-- A task that is taken off the list was there.
busy-remove :
    (ts us : List Task) (t : Task) (l : List Task)
    → l ≡ ts ++ t ∷ us
    → busy (ts ++ us) ≡ true
    → busy l ≡ true
busy-remove ts us t l e b = rw e (ground (arith, busy-append ts us, busy-append ts (t ∷ us)))

pub busy_of_run :
    (ts us : List Task) (t : Task) (l : List Task)
    → l ≡ ts ++ t ∷ us
    → is_run t ≡ true
    → busy l ≡ true
busy_of_run ts us t l e b = rw e (ground (arith, busy-append ts (t ∷ us)))

nil_algorithm : (s : AgentState) (a : Agent) → a.algorithm ≡ none → begin_run none s a ≡ none
unfolding begin_run
nil_algorithm s a h = rw h refl

module _ (sha3 : Bytes → Bytes) where
  tasks-Safe :
      (a : Agent) (ts us : List Task) (t : Task)
      → a.tasks ≡ ts ++ t ∷ us
      → Safe sha3 a
      → Safe sha3 (record a { tasks = ts ++ us })
  tasks-Safe a ts us t e h =
      frame-Safe sha3 a a.result a.run_error a.results_consumed (ts ++ us) a.published
        a.datasets_dir (busy-remove ts us t a.tasks e) h

  new-Safe : Safe sha3 new
  unfolding new initial
  new-Safe = start_machine-Safe sha3 initial new_sm-state (record {
    verified = λ e. cc;
    early = λ e. refl;
    late = λ e. absurd (ground (arith, new_sm-state));
    received = λ e. refl;
    direct = λ e. refl;
    moves = new_sm-Moves;
    acts = new_sm-Runs;
    taken = tt;
    runs = λ e. cc;
  })

  Step-Safe : {a b : Agent} → Step sha3 a b → Safe sha3 a → Safe sha3 b
  Step-Safe {a} (inits cmp) h =
      Keeps-state (Safe sha3) (init_computation (state a) cmp a)
        (init_computation-Keeps sha3 cmp a h)
  Step-Safe {a} (algos io ctx x) h =
      Keeps-state (Safe sha3) (algo sha3 io ctx x a) (algo-Keeps sha3 io ctx x a h)
  Step-Safe {a} (datas io ctx content name) h =
      Keeps-state (Safe sha3) (add_dataset sha3 io ctx content name a)
        (add_dataset-Keeps sha3 io ctx content name a h)
  Step-Safe {a} (results ctx) h = result-Safe sha3 ctx a h
  Step-Safe {a} (stops io s b) h =
      Keeps-state (Safe sha3) (stop_computation io a) (stop_computation-Keeps sha3 io a b h)
  Step-Safe {a} turns h = turn-Safe sha3 a h
  Step-Safe {a} comes_back h = come_back-Safe sha3 a h
  Step-Safe {a} (publishes ts us status s e) h =
      publish-Safe sha3 status s _ (tasks-Safe a ts us _ e h)
  Step-Safe {a} (begins ts us s mkdir {b = b} e r) h =
      begin_run-Safe sha3 mkdir s (record a { tasks = ts ++ us }) b
        (h.runs (busy_of_run ts us _ a.tasks e refl)) (tasks-Safe a ts us _ e h) r
  Step-Safe {a} (ends ts us s io e) h =
      end_run-Safe sha3 io s (record a { tasks = ts ++ us })
        (h.runs (busy_of_run ts us _ a.tasks e refl)) (tasks-Safe a ts us _ e h)

  pub Reach-Safe : {a : Agent} → Reach sha3 a → Safe sha3 a
  Reach-Safe begin = new-Safe
  Reach-Safe (followed r s) = Step-Safe s (Reach-Safe r)

  pub run_only_verified :
      (a : Agent)
      → Reach sha3 a
      → busy a.tasks ≡ true
      → (is_some a.algorithm ≡ true)
        × (Option.map sha3 a.algo_file ≡ some a.computation.algorithm.hash)
        × (a.computation.datasets ≡ [])
  run_only_verified a r b =
      let h = Reach-Safe r in
      let ready = h.runs b in
      let present = h.late (late_of_ready a.sm.current_state ready) in
      (present, h.verified present, h.received ready)
    where
      late_of_ready : (s : AgentState) → is_ready s ≡ true → is_late s ≡ true
      late_of_ready s e = ground arith

  -- A run that was started in an agent which an orderly sequence leads to meets an algorithm when
  -- it begins there; but after a StopComputation that succeeds in between, a run that can make its
  -- directory dereferences the nil algorithm.
  pub begin_run-ne-none :
      (a : Agent) (ts us : List Task) (s : AgentState) (mkdir : Option String) (io : StopIo)
      → Reach sha3 a
      → a.tasks ≡ ts ++ spawned run_computation s ∷ us
      → StopsWell io
      → let b = record a { tasks = ts ++ us } in
        (begin_run mkdir s b ≢ none) × (begin_run none s (stop_computation io b).1 ≡ none)
  unfolding begin_run
  begin_run-ne-none a ts us s mkdir io r e w =
      let held = (run_only_verified a r (busy_of_run ts us _ a.tasks e refl)).0 in
      let gone = stopped_algorithm io (record a { tasks = ts ++ us }) w in
      (ground (arith, held), nil_algorithm s _ gone)
