-- ===== src/Agent/RunSafety.antt =====
-- runComputation and Result keep the invariant of the agent.
use cocos.Common.{
  ◌≡◌, refl, sym, subst, ◌∙◌, ◌⊎◌, inl, inr, true, Option, none, some, [], ◌∷◌, ◌++◌, String, Bytes,
  arith, Option-cases,
}
use cocos.Common.Exec.{Result, ok, err}
use cocos.Agent.Types.{
  AgentState, consuming_results, run_complete, results_consumed, run_failed, Runner, Context,
  state_comparable, event_comparable, status_name, completed, starting, in_progress,
}
use cocos.Agent.State.{Agent, computing, send, publish}
use cocos.Agent.Manifest.{state}
use cocos.Agent.Running.{
  RunIo, begin_run, end_run, result, send_outcome, run_result, fail_run, clean_up,
}
use cocos.Agent.Invariant.{Safe, frame-Safe, send-Safe, dir-Safe, is_ready}
use cocos.Agent.LoopSafety.{publish-Safe}

some_inj : {a b : Agent} → some a ≡ some b → a ≡ b
some_inj e = cc

begun : AgentState → Agent → Agent
begun s a =
    let b = publish (status_name in_progress) s (publish (status_name starting) s a) in
    record b { tasks = b.tasks ++ computing s ∷ [] }

begin_run_present :
    (s : AgentState) (a : Agent) (q : Runner)
    → a.algorithm ≡ some q
    → begin_run none s a ≡ some (begun s a)
unfolding begin_run begun
begin_run_present s a q e = rw e

module _ (sha3 : Bytes → Bytes) where
  send_outcome_of-Safe :
      (a : Agent) (o : Option String)
      → a.run_error ≡ o
      → is_ready a.sm.current_state ≡ true
      → Safe sha3 a
      → Safe sha3 (send_outcome a)
  unfolding send_outcome
  send_outcome_of-Safe a none e r h = rw (e, send_outcome) (send-Safe sha3 run_complete a h r)
  send_outcome_of-Safe a (some x) e r h = rw (e, send_outcome) (send-Safe sha3 run_failed a h r)

  fail_run-Safe :
      (x : String) (s : AgentState) (a : Agent) → Safe sha3 a → Safe sha3 (fail_run x s a)
  fail_run-Safe x s a h = publish-Safe sha3 _ s _ (
      frame-Safe sha3 a a.result (some x) a.results_consumed a.tasks a.published a.datasets_dir
        (λ e. e) h)

  clean_up-Safe : (o : Option String) (a : Agent) → Safe sha3 a → Safe sha3 (clean_up o a)
  clean_up-Safe none a h = dir-Safe sha3 [] a h
  clean_up-Safe (some x) a h = h

  run_result-Safe :
      (o : Option String) (z : Result String Bytes) (s : AgentState) (a : Agent)
      → Safe sha3 a
      → Safe sha3 (run_result o z s a)
  run_result-Safe (some x) z s a h = fail_run-Safe x s a h
  run_result-Safe none (err x) s a h = fail_run-Safe x s a h
  run_result-Safe none (ok bytes) s a h =
      let p = publish-Safe sha3 (status_name completed) s a h in
      frame-Safe sha3 _ bytes _ _ _ _ _ (λ e. e) p

  run_result-state :
      (o : Option String) (z : Result String Bytes) (s : AgentState) (c : Option String) (a : Agent)
      → (clean_up c (run_result o z s a)).sm ≡ a.sm
  unfolding publish
  run_result-state o z s c a = ground arith

  pub end_run-Safe :
      (io : RunIo) (s : AgentState) (a : Agent)
      → is_ready a.sm.current_state ≡ true
      → Safe sha3 a
      → Safe sha3 (end_run io s a)
  unfolding end_run
  end_run-Safe io s a r h =
      send_outcome_of-Safe _ _ refl (rw (run_result-state io.run io.zip s io.remove_datasets a) r)
        (clean_up-Safe io.remove_datasets _ (run_result-Safe io.run io.zip s a h))

  computing-Safe :
      (s : AgentState) (a : Agent)
      → is_ready a.sm.current_state ≡ true
      → Safe sha3 a
      → Safe sha3 (record a { tasks = a.tasks ++ computing s ∷ [] })
  computing-Safe s a r h = record {
    verified = h.verified;
    early = h.early;
    late = h.late;
    received = h.received;
    direct = h.direct;
    moves = h.moves;
    acts = h.acts;
    taken = h.taken;
    runs = λ e. r;
  }

  pub begin_run-Safe :
      (o : Option String) (s : AgentState) (a b : Agent)
      → is_ready a.sm.current_state ≡ true
      → Safe sha3 a
      → begin_run o s a ≡ some b
      → Safe sha3 b
  unfolding begin_run begun publish
  begin_run-Safe (some x) s a b r h e = subst (Safe sha3) (some_inj e) (
      send_outcome_of-Safe _ (some x) refl r
        (fail_run-Safe x s _ (publish-Safe sha3 (status_name starting) s a h)))
  begin_run-Safe none s a b r h e = elim (Option-cases a.algorithm) [
    | inl absent ↦ absurd (ground arith)
    | inr (q, present) ↦ subst (Safe sha3) (some_inj (sym (begin_run_present s a q present) ∙ e)) (
        computing-Safe s _ r (
          publish-Safe sha3 (status_name in_progress) s _
            (publish-Safe sha3 (status_name starting) s a h)))
  ]

  result_cases :
      (ctx : Context) (a : Agent)
      → ((result (state a) ctx a).1 ≡ a)
        ⊎ (((result (state a) ctx a).1
              ≡ send results_consumed (record a { results_consumed = true }))
            × (a.sm.current_state ≡ consuming_results))
  unfolding result state
  result_cases ctx a = ground arith

  pub result-Safe : (ctx : Context) (a : Agent) → Safe sha3 a → Safe sha3 (result (state a) ctx a).1
  result-Safe ctx a h = elim (result_cases ctx a) [
    | inl same ↦ rw same h
    | inr (sent, s) ↦ rw sent (
        send-Safe sha3 results_consumed _
          (frame-Safe sha3 a a.result a.run_error true a.tasks a.published a.datasets_dir (λ e. e)
            h)
          (rw s refl))
  ]
