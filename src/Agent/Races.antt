-- ===== src/Agent/Races.antt =====
-- agent/service.go: InitComputation reads the state before it takes the mutex, so that a call may
-- act long after the state that it read.
use mathlib.Core.Option
use cocos.Common.{◌≡◌, refl, sym, ap, ◌∙◌, ◌≢◌, none, some, List, ◌∷◌, ◌++◌, Bytes, arith}
use cocos.Common.Exec.{ok}
use cocos.Agent.Types.{
  AgentState, receiving_manifest, Computation, state_comparable, event_comparable,
}
use cocos.Agent.State.{Agent, Task, spawned, run_computation, send}
use cocos.Agent.Manifest.{init_computation}
use cocos.Agent.Running.{begin_run}
use cocos.Agent.World.{Reach}
use cocos.Agent.Properties.{run_only_verified, busy_of_run}

-- What a call that read ReceivingManifest does, in whatever state it acts.
pub record Replaces (cmp : Computation) (a b : Agent) : Type 0 where
  pub computation : b.computation ≡ cmp
  pub algorithm : b.algorithm ≡ a.algorithm
  pub algo_file : b.algo_file ≡ a.algo_file
  pub tasks : b.tasks ≡ a.tasks

init_computation-Replaces :
    (cmp : Computation) (a : Agent)
    → ((init_computation receiving_manifest cmp a).0 ≡ ok tt)
      × Replaces cmp a (init_computation receiving_manifest cmp a).1
unfolding init_computation send
init_computation-Replaces cmp a =
    (refl, record { computation = refl; algorithm = refl; algo_file = refl; tasks = refl })

module _ (sha3 : Bytes → Bytes) where
  pub raced_run_unverified :
      (a : Agent) (cmp : Computation) (ts us : List Task) (s : AgentState)
      → Reach sha3 a
      → a.tasks ≡ ts ++ spawned run_computation s ∷ us
      → cmp.algorithm.hash ≢ a.computation.algorithm.hash
      → let b = (init_computation receiving_manifest cmp a).1 in
        ((init_computation receiving_manifest cmp a).0 ≡ ok tt)
        × (b.computation ≡ cmp)
        × (b.tasks ≡ ts ++ spawned run_computation s ∷ us)
        × (begin_run none s (record b { tasks = ts ++ us }) ≢ none)
        × (Option.map sha3 b.algo_file ≢ some b.computation.algorithm.hash)
  unfolding begin_run
  raced_run_unverified a cmp ts us s r e differs =
      let (held, verified, complete) =
        run_only_verified sha3 a r (busy_of_run ts us _ a.tasks e refl) in
      let (fine, replaces) = init_computation-Replaces cmp a in
      (
        fine,
        replaces.computation,
        replaces.tasks ∙ e,
        ground (arith, held, replaces.algorithm),
        λ same. differs (
            some_injective (
              sym (ap (λ c. some (Computation.algorithm c).hash) replaces.computation)
              ∙ sym same
              ∙ ap (Option.map sha3) replaces.algo_file
              ∙ verified)),
      )
    where
      some_injective : {x y : Bytes} → some x ≡ some y → x ≡ y
      some_injective h = ground arith
