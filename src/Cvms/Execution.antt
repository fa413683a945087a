-- ===== src/Cvms/Execution.antt =====
-- What a run request leads to: the agent's computation, the parties' server, and what is lost.
use cocos.Common.{
  ◌<◌, ◌≡◌, refl, sym, ap, ◌⊎◌, inl, inr, ◌≢◌, ◌↔◌, true, false, Option, none, some, List, [], ◌∷◌,
  ◌++◌, String, Bytes, All, length, take, ltb, arith, ◌==◌, string_comparable, bytes_comparable,
  Bool-cases,
}
use cocos.Common.Exec.{ok}
use cocos.StateMachine.{next, get_state}
use cocos.Agent.Types.{
  idle, receiving_manifest, start as start_event, Algorithm, Computation, Dataset, state_comparable,
  event_comparable,
}
use cocos.Agent.State.{Agent, send}
use cocos.Agent.Manifest.{state, init_computation}
use cocos.Agent.Inputs.{Match, undeclared, misnamed, declared, keep_dataset, match_dataset}
use cocos.Agent.Stopping.{StopsWell, Restarted, stop_computation_restarts}
use cocos.Auth.{Crypto, Service, new_service}
use cocos.Cvms.RunReq.{
  DatasetSpec, AlgorithmSpec, ComputationRunReq, to_array, algorithm_of, datasets_of, add_dataset,
  computation_of, computation_with,
}
use cocos.Cvms.Incoming.{
  Guest, PartyServer, run_res, stop_computation_res, ExecuteIo, execute_run, run_computation, start,
  config_of, default_port, measure, StopRunIo, handle_stop_computation,
}

datasets_of-nameless :
    (ds : List DatasetSpec) (l : List Dataset)
    → datasets_of ds ≡ some l
    → All (λ d. Dataset.filename d ≡ "") l
unfolding datasets_of
datasets_of-nameless [] l h = nameless l (ground arith)
  where
    nameless : (l : List Dataset) → l ≡ [] → All (λ d. Dataset.filename d ≡ "") l
    nameless [] e = tt
    nameless (x ∷ xs) e = absurd (ground arith)
datasets_of-nameless (d ∷ ds) l h =
    added (to_array d.hash) (datasets_of ds) l h (λ m e. datasets_of-nameless ds m e)
  where
    added :
        (hash : Option Bytes) (rest : Option (List Dataset)) (l : List Dataset)
        → add_dataset d.user_key hash rest ≡ some l
        → ((m : List Dataset) → rest ≡ some m → All (λ d. Dataset.filename d ≡ "") m)
        → All (λ d. Dataset.filename d ≡ "") l
    added none rest l e again = absurd (ground arith)
    added (some hash) none l e again = absurd (ground arith)
    added (some hash) (some m) [] e again = absurd (ground arith)
    added (some hash) (some m) (x ∷ xs) e again =
        let first : record { dataset = []; hash = hash; user_key = d.user_key; filename = "" } ≡ x =
          ground arith in
        let others : m ≡ xs = ground arith in
        (ap Dataset.filename (sym first), again xs (ap some others))

keep_dataset-misnamed : (d : Dataset) (m : Match) → keep_dataset d m ≡ misnamed → m ≡ misnamed
keep_dataset-misnamed d undeclared e = e
keep_dataset-misnamed d misnamed e = e
keep_dataset-misnamed d (declared l) e = absurd (ground arith)

nameless_match :
    (hash : Bytes) (name : String) (l : List Dataset)
    → All (λ d. Dataset.filename d ≡ "") l
    → match_dataset hash name l ≢ misnamed
unfolding match_dataset
nameless_match hash name [] a e = absurd (ground arith)
nameless_match hash name (d ∷ ds) a e = elim (Bool-cases (hash == d.hash)) [
  | inl hit ↦ absurd (ground (arith, string_comparable.equal_iff d.filename ""))
  | inr miss ↦
      nameless_match hash name ds a.1
        (keep_dataset-misnamed d (match_dataset hash name ds) (rw miss at e))
]

computation_of-datasets :
    (req : ComputationRunReq) (ac : Computation)
    → computation_of req ≡ some ac
    → datasets_of req.datasets ≡ some ac.datasets
unfolding computation_of
computation_of-datasets req ac e = parts (algorithm_of req.algorithm) (datasets_of req.datasets) e
  where
    parts :
        (a : Option Algorithm) (ds : Option (List Dataset))
        → computation_with req a ds ≡ some ac
        → ds ≡ some ac.datasets
    parts none ds e = absurd (ground arith)
    parts (some a) none e = absurd (ground arith)
    parts (some a) (some ds) e = ground arith

-- The computation that executeRun makes of a run request has no file names, whatever names the
-- request gives: for no upload does Data find that the name is another than the declared one.
pub computation_of_forgets_names :
    (req : ComputationRunReq) (ac : Computation) (hash : Bytes) (name : String)
    → computation_of req ≡ some ac
    → All (λ d. Dataset.filename d ≡ "") ac.datasets
      × (match_dataset hash name ac.datasets ≢ misnamed)
computation_of_forgets_names req ac hash name e =
    let nameless =
      datasets_of-nameless req.datasets ac.datasets (computation_of-datasets req ac e) in
    (nameless, nameless_match hash name ac.datasets nameless)

-- Some declared hash is shorter than 32 bytes.
abbrev pub AnyShort : List DatasetSpec → Type 0
AnyShort [] = ⊥
AnyShort (d ∷ ds) = (length d.hash < 32) ⊎ AnyShort ds

abbrev pub ShortAlgorithm : Option AlgorithmSpec → Type 0
ShortAlgorithm none = ⊥
ShortAlgorithm (some a) = length a.hash < 32

datasets_of-none : (ds : List DatasetSpec) → (datasets_of ds ≡ none) ↔ AnyShort ds
unfolding datasets_of to_array
datasets_of-none [] = (λ e. absurd (ground arith), λ e. absurd e)
datasets_of-none (d ∷ ds) = elim (Bool-cases (ltb (length d.hash) 32)) [
  | inl short ↦ (λ e. inl (ground arith), λ s. rw short refl)
  | inr long ↦
      let below = datasets_of-none ds in
      (
        λ e. inr (below.0 (later (datasets_of ds) (rw long at e))),
        λ s. elim s [ inl short ↦ absurd (ground arith) | inr more ↦ rw (long, below.1 more) refl ],
      )
]
  where
    later :
        (o : Option (List Dataset))
        → add_dataset d.user_key (some (take 32 d.hash)) o ≡ none
        → o ≡ none
    later none e = refl
    later (some l) e = absurd (ground arith)

algorithm_of-none : (a : Option AlgorithmSpec) → (algorithm_of a ≡ none) ↔ ShortAlgorithm a
unfolding to_array
algorithm_of-none none = (λ e. absurd (ground arith), λ e. absurd e)
algorithm_of-none (some a) = (λ e. ground arith, λ e. ground arith)

computation_of-none :
    (req : ComputationRunReq)
    → (computation_of req ≡ none) ↔ (ShortAlgorithm req.algorithm ⊎ AnyShort req.datasets)
unfolding computation_of
computation_of-none req =
    let a = algorithm_of-none req.algorithm in
    let d = datasets_of-none req.datasets in
    (
      λ e. split (algorithm_of req.algorithm) (datasets_of req.datasets) e a.0 d.0,
      λ s. elim s [
        | inl short ↦ rw (a.1 short) refl
        | inr short ↦ late (algorithm_of req.algorithm) (d.1 short)
      ],
    )
  where
    split :
        (a : Option Algorithm) (ds : Option (List Dataset))
        → computation_with req a ds ≡ none
        → (a ≡ none → ShortAlgorithm req.algorithm)
        → (ds ≡ none → AnyShort req.datasets)
        → ShortAlgorithm req.algorithm ⊎ AnyShort req.datasets
    split none ds e f g = inl (f refl)
    split (some a) none e f g = inr (g refl)
    split (some a) (some ds) e f g = absurd (ground arith)

    late :
        (a : Option Algorithm)
        → datasets_of req.datasets ≡ none
        → computation_with req a (datasets_of req.datasets) ≡ none
    late none e = refl
    late (some a) e = rw e refl

module _ {K : Type 0} (c : Crypto K) (json : Computation → Option Bytes) where
  -- executeRun panics, and with it the agent's process, exactly when a hash of the request is
  -- shorter than 32 bytes.
  pub execute_run-none :
      (io : ExecuteIo) (req : ComputationRunReq) (g : Guest K)
      → (execute_run c json io req g ≡ none)
        ↔ (ShortAlgorithm req.algorithm ⊎ AnyShort req.datasets)
  unfolding execute_run
  execute_run-none io req g =
      let n = computation_of-none req in
      (λ e. n.0 (none_of (computation_of req) e), λ s. rw (n.1 s) refl)
    where
      none_of : (o : Option Computation) → run_computation c json io req g o ≡ none → o ≡ none
      none_of none e = refl
      none_of (some ac) e = absurd (ground arith)

  init_accepted :
      (ac : Computation) (a : Agent)
      → a.sm.current_state ≡ receiving_manifest
      → (b : Agent) × (init_computation (state a) ac a ≡ (ok tt, b)) × (b.computation ≡ ac)
  unfolding init_computation state get_state send
  init_accepted ac a e = ((init_computation (state a) ac a).1, rw e refl, rw e refl)

  -- A run request for an agent that awaits a manifest, with hashes of 32 bytes or more and keys
  -- that decode, where the client's queue takes the answer: the agent takes the computation; the
  -- parties' server is launched with the authenticator of this same computation, for port 7002
  -- where none is given; and the answer without an error is queued, whatever then becomes of the
  -- server's goroutine.
  pub execute_run_lem :
      (io : ExecuteIo) (req : ComputationRunReq) (ac : Computation) (s : Service K) (g : Guest K)
      → g.agent.sm.current_state ≡ receiving_manifest
      → computation_of req ≡ some ac
      → new_service c ac ≡ ok s
      → io.queued ≡ true
      → (after : Guest K) × (execute_run c json io req g ≡ some after)
        × (after.agent.computation ≡ ac)
        × (after.server
            ≡ some (record {
              config = record (config_of req.agent_config) {
                port = default_port (config_of req.agent_config).port;
              };
              auth = s;
              launched = true;
            }))
        × (new_service c after.agent.computation ≡ ok s)
        × (after.queue ≡ g.queue ++ run_res req.id none ∷ [])
  unfolding execute_run start
  execute_run_lem io req ac s g st e n q =
      let (b, accepted, same) = init_accepted ac g.agent st in
      let now = record g {
        agent = b;
        server = some (record {
          config = record (config_of req.agent_config) {
            port = default_port (config_of req.agent_config).port;
          };
          auth = s;
          launched = true;
        });
        queue = g.queue ++ run_res req.id none ∷ [];
      } in
      elim (Bool-cases io.extends_pcr) [
        | inl x ↦ (
          measure io (json ac) now,
          rw (e, accepted, n, q) refl,
          rw x same,
          rw x refl,
          rw (x, same) n,
          rw x refl,
        )
        | inr x ↦ (now, rw (e, accepted, n, q, x) refl, same, refl, rw same n, refl)
      ]

-- A StopComputation message, where every call succeeds and a server runs: the agent awaits a
-- manifest again, the server is stopped, and the answer without a failure is queued.
pub handle_stop_computation_lem :
    {K : Type 0} (io : StopRunIo) (id : String) (g : Guest K) (s : PartyServer K)
    → StopsWell io.agent_io
    → next g.agent.sm idle (some start_event) ≡ some receiving_manifest
    → g.server ≡ some s
    → io.server_stop ≡ none
    → io.queued ≡ true
    → let after = handle_stop_computation io id g in
      Restarted g.agent after.agent
      × (after.server ≡ some (record s { launched = false }))
      × (after.queue ≡ g.queue ++ stop_computation_res id none ∷ [])
unfolding handle_stop_computation
handle_stop_computation_lem io id g s w n e f q =
    let (fine, again, dir) = stop_computation_restarts io.agent_io g.agent w n in
    rw (fine, e, f, q) (again, refl, refl)
