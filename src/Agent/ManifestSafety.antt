-- ===== src/Agent/ManifestSafety.antt =====
-- InitComputation and StopComputation keep the invariant of the agent.
use cocos.Common.{◌≡◌, refl, ◌∙◌, false, none, some, [], Bytes, arith, is_some}
use cocos.Common.Exec.{Keeps, After-check, After-guard}
use cocos.StateMachine.{get_state, waiting, next, reset}
use cocos.Agent.Types.{
  idle, receiving_manifest, receiving_algorithm, running, start, manifest_received,
  algorithm_received, Computation, state_comparable, event_comparable, state_not_ready,
  no_computation,
}
use cocos.Agent.State.{Agent, send}
use cocos.Agent.Manifest.{
  state, Sm, input_transitions, init_computation, StopIo, stop_computation, stop_answer,
  announce_stop, restart, start_machine,
}
use cocos.Agent.Legal.{
  Moves, Runs, input_transitions_target, input_transitions-state, input_transitions-Moves,
  input_transitions-Runs, reset-Moves, reset-Runs, reset-state,
}
use cocos.Agent.Invariant.{Safe, frame-Safe, send-Safe, dir-Safe, busy}
use cocos.Agent.LoopSafety.{LoopFits_manifest, returned-Safe, turn-Safe, come_back-Safe}

module _ (sha3 : Bytes → Bytes) where
  declare-Safe :
      (cmp : Computation) (m : Sm) (a : Agent)
      → m.current_state ≡ a.sm.current_state
      → (next m receiving_algorithm (some algorithm_received) ≡ some running → cmp.datasets ≡ [])
      → Moves m
      → Runs m
      → a.sm.current_state ≡ receiving_manifest
      → Safe sha3 a
      → Safe sha3 (record a { computation = cmp; sm = m })
  declare-Safe cmp m a p d mv rn s h = record {
    verified = λ q. absurd (ground (arith, h.early));
    early = λ q. h.early (ground arith);
    late = λ q. absurd (ground arith);
    received = λ q. absurd (ground arith);
    direct = d;
    moves = mv;
    acts = rn;
    taken = rw p (
        LoopFits_manifest a.loop a.sm.current_state (is_some a.algorithm) a.computation.datasets
          cmp.datasets s h.taken);
    runs = λ q. rw p (h.runs q);
  }

  pub init_computation-Keeps :
      (cmp : Computation) (a : Agent)
      → Safe sha3 a
      → Keeps (Safe sha3) (init_computation (state a) cmp a)
  unfolding init_computation state get_state
  init_computation-Keeps cmp a h = After-guard (Safe sha3) _ _ state_not_ready a _ h (λ p.
      let s : a.sm.current_state ≡ receiving_manifest =
        (state_comparable.equal_iff a.sm.current_state receiving_manifest).0 p in
      let same = input_transitions-state cmp.datasets a.sm in
      send-Safe sha3 manifest_received _
        (declare-Safe cmp (input_transitions cmp.datasets a.sm) a same
          (input_transitions_target cmp.datasets a.sm)
          (input_transitions-Moves cmp.datasets a.sm h.moves)
          (input_transitions-Runs cmp.datasets a.sm h.acts) s h)
        (same ∙ s))

  pub start_machine-Safe :
      (a : Agent)
      → a.sm.current_state ≡ idle
      → Safe sha3 (record a { loop = waiting a.sm.channels })
      → Safe sha3 (start_machine a)
  unfolding start_machine send
  start_machine-Safe a s h = come_back-Safe sha3 _ (turn-Safe sha3 _ (send-Safe sha3 start _ h s))

  restart-Safe : (a : Agent) → busy a.tasks ≡ false → Safe sha3 a → Safe sha3 (restart a)
  unfolding restart
  restart-Safe a b h =
      start_machine-Safe
        (record a {
          sm = reset idle a.sm;
          computation = no_computation;
          algorithm = none;
          result = [];
          run_error = none;
          results_consumed = false;
        })
        (reset-state a.sm)
        (record {
          verified = λ e. cc;
          early = λ e. refl;
          late = λ e. absurd (ground (arith, reset-state a.sm));
          received = λ e. refl;
          direct = λ e. refl;
          moves = reset-Moves a.sm h.moves;
          acts = reset-Runs a.sm h.acts;
          taken = tt;
          runs = λ e. cc;
        })

  announce_stop-Safe : (a : Agent) → Safe sha3 a → Safe sha3 (announce_stop a)
  unfolding announce_stop
  announce_stop-Safe a h = returned-Safe sha3 _ (
      frame-Safe sha3 a a.result a.run_error a.results_consumed a.tasks _ a.datasets_dir (λ e. e) h)

  pub stop_computation-Keeps :
      (io : StopIo) (a : Agent)
      → busy a.tasks ≡ false
      → Safe sha3 a
      → Keeps (Safe sha3) (stop_computation io a)
  unfolding stop_computation announce_stop
  stop_computation-Keeps io a b h =
      let s = announce_stop-Safe a h in
      let d = dir-Safe sha3 [] _ s in
      After-check (Safe sha3) _ (stop_answer io (announce_stop a)) _ (announce_stop a) _ s (
        After-check (Safe sha3) _ io.remove_datasets _ (announce_stop a) _ s (
          After-check (Safe sha3) _ io.remove_results _
            (record (announce_stop a) { datasets_dir = [] }) _ d (restart-Safe _ b d)))
