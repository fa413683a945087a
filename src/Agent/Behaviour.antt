-- ===== src/Agent/Behaviour.antt =====
-- What Algo does with an upload, one that is lost included.
use cocos.Common.{
  ◌≡◌, refl, ◌⊎◌, inl, inr, ◌≢◌, true, none, some, List, [], ◌∷◌, String, Bytes, arith, is_some,
  equal_self, string_comparable, bytes_comparable, nat_comparable,
}
use cocos.Common.Exec.{ok, err}
use cocos.StateMachine.{waiting, handled, next, send_event}
use cocos.StateMachine.Runs.{handle_event_valid}
use cocos.Agent.Types.{
  AgentState, receiving_algorithm, algorithm_received, Algorithm, Context, Runner,
  all_manifest_items_received, panic, state_comparable, event_comparable, state_not_ready,
  hash_mismatch,
}
use cocos.Agent.State.{Agent, send, turn, come_back}
use cocos.Agent.Inputs.{AlgoIo, algo, accept_algorithm, write_algorithm}

-- The operating system refuses nothing.
abbrev pub AllWell : AlgoIo → Type 0
AllWell io =
    (io.getwd ≡ none)
    × (io.create ≡ none)
    × (io.write ≡ none)
    × (io.chmod ≡ none)
    × (io.close ≡ none)
    × (io.mkdir_datasets ≡ none)

module _ (sha3 : Bytes → Bytes) where
  abbrev pub Acceptable : Algorithm → Agent → Type 0
  Acceptable x a =
      (a.sm.current_state ≡ receiving_algorithm)
      × (a.algorithm ≡ none)
      × (sha3 x.algorithm ≡ a.computation.algorithm.hash)

  accept_algorithm_lem :
      (x : Algorithm) (a : Agent) → Acceptable x a → accept_algorithm sha3 x a ≡ (ok tt, a)
  unfolding accept_algorithm
  accept_algorithm_lem x a h =
      ground (arith, bytes_comparable.equal_iff (sha3 x.algorithm) a.computation.algorithm.hash)

  write_algorithm_lem :
      (io : AlgoIo) (x : Algorithm) (a : Agent)
      → AllWell io
      → write_algorithm sha3 io x a ≡ (ok tt, record a { algo_file = some x.algorithm })
  unfolding write_algorithm
  write_algorithm_lem io x a (w, c, wr, ch, cl, m) = rw (w, c, wr, ch, cl)

  -- An acceptable upload of a binary with every call of the operating system answered well sets
  -- the algorithm and the file, and sends AlgorithmReceived.
  pub algo_binary :
      (io : AlgoIo) (ctx : Context) (x : Algorithm) (more : List String) (a : Agent)
      → AllWell io
      → ctx.algo_type ≡ "bin" ∷ more
      → Acceptable x a
      → algo sha3 io ctx x a ≡ (
        ok tt,
        send algorithm_received (record a {
          algo_file = some x.algorithm;
          algorithm = some (Runner.binary io.algo_name ctx.algo_args a.computation.id);
        }),
      )
  unfolding algo
  algo_binary io ctx x more a w t h =
      let (_, _, _, _, _, made) = w in
      rw (accept_algorithm_lem x a h, write_algorithm_lem io x a w, t) (rw made)

  accept_algorithm_again :
      (x : Algorithm) (a : Agent)
      → a.sm.current_state ≡ receiving_algorithm
      → is_some a.algorithm ≡ true
      → accept_algorithm sha3 x a ≡ (err all_manifest_items_received, a)
  unfolding accept_algorithm
  accept_algorithm_again x a s p = ground arith

  algo_again :
      (io : AlgoIo) (ctx : Context) (x : Algorithm) (a : Agent)
      → a.sm.current_state ≡ receiving_algorithm
      → is_some a.algorithm ≡ true
      → algo sha3 io ctx x a ≡ (err all_manifest_items_received, a)
  unfolding algo
  algo_again io ctx x a s p = rw (accept_algorithm_again x a s p)

  -- When the loop waits on the machine's channel and every call of the operating system that Algo
  -- makes succeeds, an acceptable upload of a binary moves the agent to the state that the table
  -- gives for AlgorithmReceived, with the bytes on disk.
  pub algo-turn :
      (io : AlgoIo) (ctx : Context) (x : Algorithm) (more : List String) (a : Agent)
      (t : AgentState)
      → AllWell io
      → ctx.algo_type ≡ "bin" ∷ more
      → Acceptable x a
      → a.loop ≡ waiting a.sm.channels
      → next a.sm receiving_algorithm (some algorithm_received) ≡ some t
      → let b = turn (algo sha3 io ctx x a).1 in
        (b.sm.current_state ≡ t) × (b.algo_file ≡ some x.algorithm) × (b.loop ≡ handled)
  unfolding turn send send_event next
  algo-turn io ctx x more a t w e h l n =
      rw (algo_binary io ctx x more a w e h, l, equal_self nat_comparable a.sm.channels)
        (rw (handle_event_valid (some algorithm_received) a.sm t (rw h.0 n)) (refl, refl, refl))

  -- While the loop has not come back to its select, the same upload returns no error and its event
  -- is dropped: the agent stays in ReceivingAlgorithm, where it refuses every later upload.
  pub algo_event_lost :
      (io later : AlgoIo) (ctx other : Context) (x y : Algorithm) (more : List String) (a : Agent)
      → AllWell io
      → ctx.algo_type ≡ "bin" ∷ more
      → Acceptable x a
      → a.loop ≡ handled
      → let b = come_back (algo sha3 io ctx x a).1 in
        ((algo sha3 io ctx x a).0 ≡ ok tt)
        × (b.sm.current_state ≡ receiving_algorithm)
        × (b.loop ≡ waiting a.sm.channels)
        × (algo sha3 later other y b ≡ (err all_manifest_items_received, b))
  unfolding come_back send send_event
  algo_event_lost io later ctx other x y more a w e h l =
      rw (algo_binary io ctx x more a w e h, l)
        (refl, h.0, refl, algo_again later other y _ h.0 refl)

  -- A request without the header of the algorithm's type panics once its file is written.
  pub algo_no_header :
      (io : AlgoIo) (ctx : Context) (x : Algorithm) (a : Agent)
      → AllWell io
      → ctx.algo_type ≡ []
      → Acceptable x a
      → algo sha3 io ctx x a ≡ (err panic, record a { algo_file = some x.algorithm })
  unfolding algo
  algo_no_header io ctx x a w e h = rw (accept_algorithm_lem x a h, write_algorithm_lem io x a w, e)

  accept_algorithm_cases :
      (x : Algorithm) (a : Agent)
      → Acceptable x a
        ⊎ ((a.sm.current_state ≢ receiving_algorithm)
            × (accept_algorithm sha3 x a ≡ (err state_not_ready, a)))
        ⊎ ((is_some a.algorithm ≡ true)
            × (accept_algorithm sha3 x a ≡ (err all_manifest_items_received, a)))
        ⊎ ((sha3 x.algorithm ≢ a.computation.algorithm.hash)
            × (accept_algorithm sha3 x a ≡ (err hash_mismatch, a)))
  unfolding accept_algorithm
  accept_algorithm_cases x a =
      ground (arith, bytes_comparable.equal_iff (sha3 x.algorithm) a.computation.algorithm.hash)

  -- Algo outside ReceivingAlgorithm, for a second algorithm, or for bytes with another digest
  -- returns the error for it and changes nothing.
  pub algo_refused :
      (io : AlgoIo) (ctx : Context) (x : Algorithm) (a : Agent)
      → ¬ (Acceptable x a)
      → ((a.sm.current_state ≢ receiving_algorithm)
          × (algo sha3 io ctx x a ≡ (err state_not_ready, a)))
        ⊎ ((is_some a.algorithm ≡ true)
            × (algo sha3 io ctx x a ≡ (err all_manifest_items_received, a)))
        ⊎ ((sha3 x.algorithm ≢ a.computation.algorithm.hash)
            × (algo sha3 io ctx x a ≡ (err hash_mismatch, a)))
  unfolding algo
  algo_refused io ctx x a h = elim (accept_algorithm_cases x a) [
    | inl fine ↦ absurd (h fine)
    | inr (inl (s, e)) ↦ inl (s, rw e)
    | inr (inr (inl (p, e))) ↦ inr (inl (p, rw e))
    | inr (inr (inr (d, e))) ↦ inr (inr (d, rw e))
  ]
