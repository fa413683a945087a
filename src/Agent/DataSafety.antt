-- ===== src/Agent/DataSafety.antt =====
-- Data keeps the invariant of the agent, whatever it returns.
use cocos.Common.{
  ◌≡◌, refl, inl, inr, Bool, not, true, List, [], ◌∷◌, String, Bytes, arith, Bool-cases,
  string_comparable, is_some, bytes_comparable,
}
use cocos.Common.Exec.{
  Result, ok, err, After, Keeps, After-continue, After-check, After-check_last, After-guard,
}
use cocos.StateMachine.{Loop}
use cocos.Agent.Types.{
  AgentState, receiving_data, AgentEvent, data_received, state_not_ready,
  all_manifest_items_received, Dataset, Context, state_comparable, event_comparable,
}
use cocos.Agent.State.{Agent}
use cocos.Agent.Inputs.{
  DataIo, add_dataset, accept_dataset, store_dataset, match_dataset, Match, undeclared, misnamed,
  declared, unzipped, send_if_all, null, decompress_from_context,
}
use cocos.Agent.Invariant.{Safe, dir-Safe, send-Safe, LoopFits}

module _ (sha3 : Bytes → Bytes) where
  abbrev Expecting : List Dataset → Agent → Type 0
  Expecting left a =
      Safe sha3 a × (a.sm.current_state ≡ receiving_data) × (a.computation.datasets ≡ left)

  store_dataset-Expecting :
      (io : DataIo) (ctx : Context) (content : Bytes) (name : String) (left : List Dataset)
      (a : Agent)
      → Expecting left a
      → After (λ _ b. Expecting left b) (Safe sha3) (store_dataset io ctx content name a)
  unfolding store_dataset
  store_dataset-Expecting io ctx content name left a (h, s, d) =
      elim (Bool-cases (decompress_from_context ctx)) [
        | inl z ↦ rw z (unzip io.unzip)
        | inr z ↦ rw z (
            After-check (Safe sha3) _ io.create _ a _ h (
              After-check (Safe sha3) _ io.write _ _ _ (dir-Safe sha3 _ a h) (
                After-check_last (Safe sha3) _ io.close _ _ (dir-Safe sha3 _ a h)
                  (dir-Safe sha3 _ a h, s, d))))
      ]
    where
      unzip :
          (r : Result String (List (String × Bytes)))
          → After (λ _ b. Expecting left b) (Safe sha3) (unzipped r a)
      unzip (ok files) = (dir-Safe sha3 _ a h, s, d)
      unzip (err e) = h

  LoopFits_left :
      (l : Loop AgentEvent) (s : AgentState) (present : Bool) (d : Dataset) (ds left : List Dataset)
      → s ≡ receiving_data
      → LoopFits l s present (d ∷ ds)
      → LoopFits l s present left
  LoopFits_left l s present d ds left e h = ground arith

  -- A dataset is deleted from the manifest only while one is expected.
  delete-Expecting :
      (a : Agent) (d : Dataset) (ds left : List Dataset)
      → Safe sha3 a
      → a.sm.current_state ≡ receiving_data
      → a.computation.datasets ≡ d ∷ ds
      → Expecting left (record a { computation = record (a.computation) { datasets = left } })
  delete-Expecting a d ds left h s e = (
    record {
      verified = h.verified;
      early = h.early;
      late = h.late;
      received = λ p. absurd (ground arith);
      direct = λ p. absurd (ground (arith, h.direct p));
      moves = h.moves;
      acts = h.acts;
      taken =
          LoopFits_left a.loop a.sm.current_state (is_some a.algorithm) d ds left s
            (rw e at h.taken);
      runs = h.runs;
    },
    s,
    refl,
  )

  send_if_all-Safe :
      (left : List Dataset) (a : Agent) → Expecting left a → Safe sha3 (send_if_all left a)
  send_if_all-Safe [] a (h, s, d) = send-Safe sha3 data_received a h (s, d)
  send_if_all-Safe (x ∷ l) a (h, s, d) = h

  matched-Keeps :
      (io : DataIo) (ctx : Context) (content : Bytes) (name : String) (a : Agent) (d : Dataset)
      (ds : List Dataset) (m : Match)
      → Safe sha3 a
      → a.sm.current_state ≡ receiving_data
      → a.computation.datasets ≡ d ∷ ds
      → Keeps (Safe sha3) (accept_dataset io ctx content name m a)
  unfolding accept_dataset
  matched-Keeps io ctx content name a d ds undeclared h s e = h
  matched-Keeps io ctx content name a d ds misnamed h s e = h
  matched-Keeps io ctx content name a d ds (declared left) h s e =
      let b = record a { computation = record (a.computation) { datasets = left } } in
      After-continue (Safe sha3) (λ _ c. Expecting left c) _ (store_dataset io ctx content name b) _
        (store_dataset-Expecting io ctx content name left b (delete-Expecting a d ds left h s e))
        (λ _ c hc. send_if_all-Safe left c hc)

  expected-Keeps :
      (io : DataIo) (ctx : Context) (content : Bytes) (name : String) (a : Agent)
      (ds : List Dataset)
      → Safe sha3 a
      → a.sm.current_state ≡ receiving_data
      → a.computation.datasets ≡ ds
      → not (null ds) ≡ true
      → Keeps
          (Safe sha3)
          (accept_dataset io ctx content name (match_dataset (sha3 content) name ds) a)
  expected-Keeps io ctx content name a [] h s e p = cc
  expected-Keeps io ctx content name a (d ∷ ds) h s e p =
      matched-Keeps io ctx content name a d ds _ h s e

  pub add_dataset-Keeps :
      (io : DataIo) (ctx : Context) (content : Bytes) (name : String) (a : Agent)
      → Safe sha3 a
      → Keeps (Safe sha3) (add_dataset sha3 io ctx content name a)
  unfolding add_dataset
  add_dataset-Keeps io ctx content name a h =
      After-guard (Safe sha3) _ _ state_not_ready a _ h (λ s.
        After-guard (Safe sha3) _ _ all_manifest_items_received a _ h (λ some_left.
          expected-Keeps io ctx content name a a.computation.datasets h
            ((state_comparable.equal_iff a.sm.current_state receiving_data).0 s) refl some_left))
