-- ===== src/Agent/Running.antt =====
-- agent/service.go: runComputation and Result.
use cocos.Common.{
  ℕ, Bool, true, false, not, ◌&&◌, Option, none, some, [], ◌∷◌, ◌++◌, String, Bytes, ◌==◌,
  if◌then◌else◌, length, ltb, ℤ, pos, negsuc,
}
use cocos.Common.Exec.{Result, ok, err}
use cocos.Agent.Types.{
  AgentState, consuming_results, complete, failed, run_complete, run_failed, results_consumed,
  starting, in_progress, completed, status_name, state_name, Context, AgentError, results_not_ready,
  undeclared_consumer, run_error, state_comparable,
}
use cocos.Agent.State.{Agent, computing, send, publish}

-- The deferred send at the end of runComputation.
unfoldable pub send_outcome : Agent → Agent
send_outcome a = elim a.run_error [ none ↦ send run_complete a | some e ↦ send run_failed a ]

-- `return` after a failure: the error is kept and published.
abbrev pub fail_run : String → AgentState → Agent → Agent
fail_run e s a = publish (state_name failed) s (record a { run_error = some e })

-- Given the text of the error that it keeps when the results directory cannot be made:
-- runComputation up to the call of `as.algorithm.Run()`, which is left to a task. A call on a nil
-- algorithm panics: `none`.
unfoldable pub begin_run : Option String → AgentState → Agent → Option Agent
unfolding send_outcome
begin_run (some e) s a = some (send_outcome (fail_run e s (publish (status_name starting) s a)))
begin_run none s a =
    let b = publish (status_name in_progress) s (publish (status_name starting) s a) in
    elim a.algorithm [
      | none ↦ none
      | some r ↦ some (record b { tasks = b.tasks ++ computing s ∷ [] })
    ]

-- How the algorithm ended, and what the results directory zips to.
pub record RunIo : Type 0 where
  pub run : Option String
  pub zip : Result String Bytes
  pub remove_datasets : Option String

abbrev pub run_result : Option String → Result String Bytes → AgentState → Agent → Agent
run_result (some e) z s a = fail_run e s a
run_result none (err e) s a = fail_run e s a
run_result none (ok bytes) s a = record (publish (status_name completed) s a) { result = bytes }

-- The deferred removal of the directories, whose errors are only logged.
abbrev pub clean_up : Option String → Agent → Agent
clean_up none a = record a { datasets_dir = [] }
clean_up (some e) a = a

-- runComputation from the return of `as.algorithm.Run()` on.
unfoldable pub end_run : RunIo → AgentState → Agent → Agent
unfolding send_outcome
end_run io s a = send_outcome (clean_up io.remove_datasets (run_result io.run io.zip s a))

-- index >= 0 && index < len(consumers)
abbrev pub in_range : ℤ → ℕ → Bool
in_range (pos i) n = ltb i n
in_range (negsuc i) n = false

abbrev pub error_of : Option String → Option AgentError
error_of none = none
error_of (some e) = some (run_error e)

-- The state is read before the mutex is taken: `observed`.
unfoldable pub result : AgentState → Context → Agent → (Bytes × Option AgentError) × Agent
result observed ctx a =
    if not (observed == consuming_results) && not (observed == complete) && not (observed == failed)
    then (([], some results_not_ready), a)
    else elim ctx.manifest_index [
      | none ↦ (([], some undeclared_consumer), a)
      | some i ↦
          if not (in_range i (length a.computation.result_consumers))
          then (([], some undeclared_consumer), a)
          else (
            (a.result, error_of a.run_error),
            if not a.results_consumed && observed == consuming_results
                then send results_consumed (record a { results_consumed = true })
                else a,
          )
    ]
