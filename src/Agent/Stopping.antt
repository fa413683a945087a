-- ===== src/Agent/Stopping.antt =====
-- StopComputation on its branches, a run that outlives it, and a result that is asked for twice.
use cocos.Common.{
  ◌≡◌, refl, ◌∙◌, false, Option, none, some, [], String, arith, equal_self, nat_comparable, suc,
}
use cocos.Common.Exec.{ok, err}
use cocos.StateMachine.{returned, waiting, next, send_event, reset}
use cocos.StateMachine.Runs.{handle_event_valid, handle_event_invalid}
use cocos.Agent.Types.{
  AgentState, idle, receiving_manifest, AgentEvent, start, run_failed, Context, Runner,
  no_computation, wrapped, state_comparable, event_comparable,
}
use cocos.Agent.State.{Agent, send, turn, come_back, publish}
use cocos.Agent.Manifest.{StopIo, stop_answer, stop_computation, announce_stop, restart}
use cocos.Agent.Running.{RunIo, end_run, result}

abbrev pub StopsWell : StopIo → Type 0
StopsWell io = (io.stop_algorithm ≡ none) × (io.remove_datasets ≡ none) × (io.remove_results ≡ none)

-- What StopComputation leaves, over the machine that it had.
abbrev pub Restarted : Agent → Agent → Type 0
Restarted a b =
    (b.sm.current_state ≡ receiving_manifest)
    × (b.sm.channels ≡ suc a.sm.channels)
    × (b.loop ≡ waiting b.sm.channels)
    × (b.computation ≡ no_computation)
    × (b.algorithm ≡ none)
    × (b.result ≡ [])
    × (b.run_error ≡ none)
    × (b.results_consumed ≡ false)

next-reset :
    (a : Agent) (s : AgentState) (e : AgentEvent)
    → next (reset idle a.sm) s (some e) ≡ next a.sm s (some e)
unfolding next reset
next-reset a s e = refl

restart-Restarted :
    (a : Agent) → next a.sm idle (some start) ≡ some receiving_manifest → Restarted a (restart a)
unfolding restart turn come_back send send_event reset next
restart-Restarted a n =
    rw
      (
        equal_self nat_comparable (suc a.sm.channels),
        handle_event_valid (some start) (reset idle a.sm) receiving_manifest n,
      )
      (refl, refl, refl, refl, refl, refl, refl, refl)

unwell :
    (io : StopIo) (a : Agent) (r : Runner) (failure : String)
    → a.algorithm ≡ some r
    → io.stop_algorithm ≡ some failure
    → stop_answer io (announce_stop a) ≡ some failure
unfolding announce_stop
unwell io a r failure p s = ground arith

restart-next :
    (a : Agent) (s : AgentState) (e : AgentEvent)
    → next a.sm idle (some start) ≡ some receiving_manifest
    → next (restart a).sm s (some e) ≡ next a.sm s (some e)
unfolding restart turn come_back send send_event reset next
restart-next a s e n = rw (
  equal_self nat_comparable (suc a.sm.channels),
  handle_event_valid (some start) (reset idle a.sm) receiving_manifest n,
)

stale_end :
    (rio : RunIo) (o : Option String) (s : AgentState) (c : Agent) (failure : String)
    (e : AgentEvent)
    → rio.run ≡ some failure
    → rio.remove_datasets ≡ o
    → c.sm.current_state ≡ receiving_manifest
    → c.loop ≡ waiting c.sm.channels
    → next c.sm receiving_manifest (some run_failed) ≡ none
    → let b = turn (end_run rio s c) in
      (b.run_error ≡ some failure)
      × (b.sm.current_state ≡ receiving_manifest)
      × (b.loop ≡ returned)
      × ((send e b).loop ≡ returned)
unfolding end_run turn send send_event publish next
stale_end rio none s c failure e f q st l m =
    rw
      (
        f,
        q,
        l,
        equal_self nat_comparable c.sm.channels,
        handle_event_invalid (some run_failed) c.sm (rw st m),
      )
      (refl, st, refl, refl)
stale_end rio (some x) s c failure e f q st l m =
    rw
      (
        f,
        q,
        l,
        equal_self nat_comparable c.sm.channels,
        handle_event_invalid (some run_failed) c.sm (rw st m),
      )
      (refl, st, refl, refl)

restart-dir : (a : Agent) → (restart a).datasets_dir ≡ a.datasets_dir
unfolding restart turn come_back send send_event
restart-dir a = rw (equal_self nat_comparable (reset idle a.sm).channels)

well_answered : (io : StopIo) (a : Agent) → io.stop_algorithm ≡ none → stop_answer io a ≡ none
well_answered io a s = ground arith

stop_computation_ok :
    (io : StopIo) (a : Agent)
    → StopsWell io
    → stop_computation io a ≡ (ok tt, restart (record (announce_stop a) { datasets_dir = [] }))
unfolding stop_computation announce_stop
stop_computation_ok io a (s, d, r) = rw (well_answered io (announce_stop a) s, d, r)

restart-algorithm : (a : Agent) → (restart a).algorithm ≡ none
unfolding restart turn come_back send send_event
restart-algorithm a = rw (equal_self nat_comparable (reset idle a.sm).channels)

pub stopped_algorithm :
    (io : StopIo) (a : Agent) → StopsWell io → (stop_computation io a).1.algorithm ≡ none
stopped_algorithm io a w = rw (stop_computation_ok io a w) (restart-algorithm _)

-- A StopComputation whose calls succeed, with a table that leads from Idle by Start to
-- ReceivingManifest, returns no error and leaves a service that awaits a manifest, as a new one
-- does: on new channels with a loop that waits on them, with no algorithm, result, error or dataset
-- of before.
pub stop_computation_restarts :
    (io : StopIo) (a : Agent)
    → StopsWell io
    → next a.sm idle (some start) ≡ some receiving_manifest
    → ((stop_computation io a).0 ≡ ok tt)
      × Restarted a (stop_computation io a).1
      × ((stop_computation io a).1.datasets_dir ≡ [])
unfolding announce_stop
stop_computation_restarts io a w n =
    rw (stop_computation_ok io a w)
      (refl, restart-Restarted (record (announce_stop a) { datasets_dir = [] }) n, restart-dir _)

stop_computation_failed :
    (io : StopIo) (a : Agent) (r : Runner) (failure : String)
    → a.algorithm ≡ some r
    → io.stop_algorithm ≡ some failure
    → stop_computation io a ≡ (err (wrapped "error stopping computation" failure), announce_stop a)
unfolding stop_computation
stop_computation_failed io a r failure p s = rw (unwell io a r failure p s)

-- When the algorithm cannot be stopped, the loop is cancelled all the same and no other is started:
-- the service keeps its state and computation, and drops every event that is sent to it.
pub stop_computation_stuck :
    (io : StopIo) (a : Agent) (r : Runner) (failure : String) (e : AgentEvent)
    → a.algorithm ≡ some r
    → io.stop_algorithm ≡ some failure
    → let b = (stop_computation io a).1 in
      ((stop_computation io a).0 ≡ err (wrapped "error stopping computation" failure))
      × (b.sm ≡ a.sm)
      × (b.computation ≡ a.computation)
      × (b.loop ≡ returned)
      × (send e b ≡ b)
      × (turn b ≡ b)
unfolding announce_stop send turn send_event
stop_computation_stuck io a r failure e p s =
    rw (stop_computation_failed io a r failure p s) (refl, refl, refl, refl, refl, refl)

-- With New's transition from Idle and none from ReceivingManifest by RunFailed: a run that was
-- under way when the service was stopped without an error, and then fails, leaves its error in the
-- restarted service, and its RunFailed makes the new loop return, after which the manifest's event
-- is dropped.
pub stale_run_stops_loop :
    (io : StopIo) (rio : RunIo) (s : AgentState) (a : Agent) (failure : String) (e : AgentEvent)
    → StopsWell io
    → next a.sm idle (some start) ≡ some receiving_manifest
    → next a.sm receiving_manifest (some run_failed) ≡ none
    → rio.run ≡ some failure
    → let b = turn (end_run rio s (stop_computation io a).1) in
      (b.run_error ≡ some failure)
      × (b.sm.current_state ≡ receiving_manifest)
      × (b.loop ≡ returned)
      × ((send e b).loop ≡ returned)
unfolding announce_stop
stale_run_stops_loop io rio s a failure e w n m f =
    let c = record (announce_stop a) { datasets_dir = [] } in
    let again = restart-Restarted c n in
    rw (stop_computation_ok io a w) (
      stale_end rio rio.remove_datasets s (restart c) failure e f refl again.0 again.2
        (restart-next c receiving_manifest run_failed n ∙ m))

-- A result that is asked for again, in the same state, is answered alike and sends nothing more.
pub result_again :
    (observed : AgentState) (ctx : Context) (a : Agent)
    → result observed ctx (result observed ctx a).1 ≡ result observed ctx a
unfolding result send
result_again observed ctx a = ground arith
