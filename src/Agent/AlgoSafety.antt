-- ===== src/Agent/AlgoSafety.antt =====
-- Algo keeps the invariant of the agent, whatever it returns.
use cocos.Common.{
  ◌≡◌, refl, ap, inl, inr, Option, none, some, List, [], ◌∷◌, String, Bytes, arith, Bool-cases,
  if◌then◌else◌, string_comparable, is_some, bytes_comparable, ◌==◌,
}
use cocos.Common.Exec.{continue, After, Keeps, After-continue, After-check, After-check_last}
use cocos.Agent.Types.{
  receiving_algorithm, algorithm_received, Runner, python, Algorithm, Context, state_comparable,
  event_comparable,
}
use cocos.Agent.State.{Agent}
use cocos.Agent.Inputs.{
  AlgoIo, algo, send_if_set, install_algorithm, python_runner, requirements_file, first_value,
  set_runner, accept_algorithm, write_algorithm, set_algorithm,
}
use cocos.Agent.Invariant.{Safe, send-Safe, LoopFits_set}

module _ (sha3 : Bytes → Bytes) where
  -- Between the checks of Algo and the choice of the runner.
  abbrev Accepted : Algorithm → Agent → Type 0
  Accepted x a =
      Safe sha3 a
      × (a.sm.current_state ≡ receiving_algorithm)
      × (a.algorithm ≡ none)
      × (sha3 x.algorithm ≡ a.computation.algorithm.hash)

  abbrev Written : Algorithm → Agent → Type 0
  Written x a = Accepted x a × (a.algo_file ≡ some x.algorithm)

  accept_algorithm-Accepted :
      (x : Algorithm) (a : Agent)
      → Safe sha3 a
      → After (λ _ b. Accepted x b) (Safe sha3) (accept_algorithm sha3 x a)
  unfolding accept_algorithm
  accept_algorithm-Accepted x a h =
      ground (arith, bytes_comparable.equal_iff (sha3 x.algorithm) a.computation.algorithm.hash)

  algo_file-Accepted :
      (f : Option Bytes) (x : Algorithm) (a : Agent)
      → Accepted x a
      → Accepted x (record a { algo_file = f })
  algo_file-Accepted f x a (h, s, n, e) = (
    record {
      verified = λ p. absurd (ground arith);
      early = h.early;
      late = h.late;
      received = h.received;
      direct = h.direct;
      moves = h.moves;
      acts = h.acts;
      taken = h.taken;
      runs = h.runs;
    },
    s,
    n,
    e,
  )

  write_algorithm-Written :
      (io : AlgoIo) (x : Algorithm) (a : Agent)
      → Accepted x a
      → After (λ _ b. Written x b) (Safe sha3) (write_algorithm sha3 io x a)
  unfolding write_algorithm
  write_algorithm-Written io x a h = After-check (Safe sha3) _ io.getwd _ a _ h.0 (
      After-check (Safe sha3) _ io.create _ a _ h.0 (
        After-check (Safe sha3) _ io.write _ _ _ emptied.0 (
          After-check (Safe sha3) _ io.chmod _ _ _ filled.0
            (After-check_last (Safe sha3) _ io.close _ _ filled.0 (filled, refl)))))
    where
      emptied : Accepted x (record a { algo_file = some [] })
      emptied = algo_file-Accepted _ x a h

      filled : Accepted x (record a { algo_file = some x.algorithm })
      filled = algo_file-Accepted _ x a h

  -- A runner is set only where the file on disk is the declared algorithm.
  set_runner-Safe :
      (r : Runner) (x : Algorithm) (a : Agent)
      → Written x a
      → Safe sha3 (record a { algorithm = some r }) × (a.sm.current_state ≡ receiving_algorithm)
  set_runner-Safe r x a ((h, s, n, e), w) = (
    record {
      verified = λ p. rw w (ap some e);
      early = λ p. absurd (ground arith);
      late = λ p. refl;
      received = h.received;
      direct = h.direct;
      moves = h.moves;
      acts = h.acts;
      taken =
          LoopFits_set a.loop a.sm.current_state (is_some a.algorithm) a.computation.datasets
            h.taken;
      runs = h.runs;
    },
    s,
  )

  python_runner-Safe :
      (io : AlgoIo) (ctx : Context) (x : Algorithm) (id : String) (a : Agent)
      → Written x a
      → After
          (λ _ b. Safe sha3 b × (b.sm.current_state ≡ receiving_algorithm))
          (Safe sha3)
          (python_runner io ctx x id a)
  python_runner-Safe io ctx x id a h =
      After-continue (Safe sha3) (λ _ b. Written x b) _ (requirements_file io x.requirements a) _
        (requirements-Written x.requirements)
        (λ file b hb. runtime-Safe ctx.python_runtime file b hb)
    where
      requirements-Written :
          (l : Bytes) → After (λ _ b. Written x b) (Safe sha3) (requirements_file io l a)
      requirements-Written [] = h
      requirements-Written (c ∷ cs) = After-check (Safe sha3) _ io.create_requirements _ a _ h.0.0 (
          After-check (Safe sha3) _ io.write_requirements _ a _ h.0.0
            (After-check (Safe sha3) _ io.close_requirements _ a _ h.0.0 h))

      runtime-Safe :
          (l : List String) (file : String) (b : Agent)
          → Written x b
          → After
              (λ _ c. Safe sha3 c × (c.sm.current_state ≡ receiving_algorithm))
              (Safe sha3)
              (continue
                (first_value l b).0
                (λ runtime. set_runner (python runtime file io.algo_name ctx.algo_args id))
                (first_value l b).1)
      runtime-Safe [] file b hb = hb.0.0
      runtime-Safe (v ∷ vs) file b hb = set_runner-Safe _ x b hb

  set_algorithm-Safe :
      (io : AlgoIo) (ctx : Context) (x : Algorithm) (id kind : String) (a : Agent)
      → Written x a
      → After
          (λ _ b. Safe sha3 b × (b.sm.current_state ≡ receiving_algorithm))
          (Safe sha3)
          (set_algorithm io ctx x id kind a)
  unfolding set_algorithm
  set_algorithm-Safe io ctx x id kind a h = elim (Bool-cases (kind == "bin")) [
    | inl b ↦ rw b (set_runner-Safe _ x a h)
    | inr b ↦ rw b (elim (Bool-cases (kind == "python")) [
      | inl p ↦ rw p (python_runner-Safe io ctx x id a h)
      | inr p ↦ rw p (elim (Bool-cases (kind == "wasm")) [
        | inl w ↦ rw w (set_runner-Safe _ x a h)
        | inr w ↦ rw w (elim (Bool-cases (kind == "docker")) [
          | inl d ↦ rw d (set_runner-Safe _ x a h)
          | inr d ↦ rw d (h.0.0, h.0.1)
        ])
      ])
    ])
  ]

  send_if_set-Safe :
      (a : Agent) (r : Option Runner)
      → a.algorithm ≡ r
      → Safe sha3 a
      → a.sm.current_state ≡ receiving_algorithm
      → Safe sha3 (send_if_set r a)
  send_if_set-Safe a none p h s = h
  send_if_set-Safe a (some r) p h s = send-Safe sha3 algorithm_received a h (s, rw p refl)

  install_algorithm-Safe :
      (io : AlgoIo) (ctx : Context) (x : Algorithm) (headers : List String) (a : Agent)
      → Written x a
      → Keeps (Safe sha3) (install_algorithm io ctx x headers a)
  unfolding install_algorithm
  install_algorithm-Safe io ctx x [] a h = h.0.0
  install_algorithm-Safe io ctx x (header ∷ more) a h =
      After-continue (Safe sha3) (λ _ b. Safe sha3 b × (b.sm.current_state ≡ receiving_algorithm)) _
        (set_algorithm io ctx x a.computation.id (if header == "" then "bin" else header) a) _
        (set_algorithm-Safe io ctx x a.computation.id (if header == "" then "bin" else header) a h)
        (λ _ b hb.
          After-check (Safe sha3) _ io.mkdir_datasets _ b _ hb.0
            (send_if_set-Safe b b.algorithm refl hb.0 hb.1))

  pub algo-Keeps :
      (io : AlgoIo) (ctx : Context) (x : Algorithm) (a : Agent)
      → Safe sha3 a
      → Keeps (Safe sha3) (algo sha3 io ctx x a)
  unfolding algo
  algo-Keeps io ctx x a h =
      After-continue (Safe sha3) (λ _ b. Accepted x b) _ (accept_algorithm sha3 x a) _
        (accept_algorithm-Accepted x a h)
        (λ _ b hb.
          After-continue (Safe sha3) (λ _ c. Written x c) _ (write_algorithm sha3 io x b) _
            (write_algorithm-Written io x b hb)
            (λ _ c hc. install_algorithm-Safe io ctx x ctx.algo_type c hc))
