-- ===== src/Agent/LoopSafety.antt =====
-- The moves of the loop and what the goroutines publish keep the invariant of the agent.
use cocos.Common.{
  ◌≡◌, refl, ◌⊎◌, inl, inr, Bool, true, ◌||◌, Option, none, some, List, [], ◌∷◌, ◌++◌, String,
  Bytes, arith, is_some, Option-cases, lookup,
}
use cocos.StateMachine.{Loop, moved, returned, waiting, took, handled, next}
use cocos.StateMachine.Runs.{handle_event_valid, handle_event_invalid}
use cocos.Agent.Types.{
  AgentState, receiving_manifest, receiving_algorithm, running, AgentEvent, algorithm_received,
  Dataset, state_comparable, event_comparable,
}
use cocos.Agent.State.{
  Agent, Task, spawned, Action, publish_event, run_computation, publish, turn, turn_on, come_back,
  back_on, spawn,
}
use cocos.Agent.Manifest.{Sm}
use cocos.Agent.Legal.{allowed}
use cocos.Agent.Invariant.{Safe, frame-Safe, LoopFits, EventFits, is_ready, is_late, busy}

pub busy-append : (ts us : List Task) → busy (ts ++ us) ≡ (busy ts || busy us)
busy-append [] us = refl
busy-append (t ∷ ts) us = ground (arith, busy-append ts us)

pub LoopFits_manifest :
    (l : Loop AgentEvent) (s : AgentState) (present : Bool) (ds left : List Dataset)
    → s ≡ receiving_manifest
    → LoopFits l s present ds
    → LoopFits l s present left
LoopFits_manifest l s present ds left e h = ground arith

-- An action of the state that is entered is no run unless that state is `running`.
busy-spawn :
    (t : AgentState) (act : Option Action) (ts : List Task)
    → (act ≡ some run_computation → t ≡ running)
    → busy (spawn (moved t act) ts) ≡ true
    → (busy ts ≡ true) ⊎ (t ≡ running)
busy-spawn t none ts k b = inl b
busy-spawn t (some (publish_event status)) ts k b =
    ground (arith, busy-append ts (spawned (publish_event status) t ∷ []))
busy-spawn t (some run_computation) ts k b = inr (k refl)

late_step :
    (s : AgentState) (e : AgentEvent) (t : AgentState) (present : Bool) (left : List Dataset)
    → allowed s e t ≡ true
    → EventFits (some e) s present left
    → (is_late s ≡ true → present ≡ true)
    → is_late t ≡ true
    → present ≡ true
late_step s e t present left legal f k q = ground arith

received_step :
    (s : AgentState) (e : AgentEvent) (t : AgentState) (present : Bool) (left : List Dataset)
    → allowed s e t ≡ true
    → EventFits (some e) s present left
    → (is_ready s ≡ true → left ≡ [])
    → (s ≡ receiving_algorithm → e ≡ algorithm_received → t ≡ running → left ≡ [])
    → is_ready t ≡ true
    → left ≡ []
received_step s e t present left legal f k d q = ground arith

ready_step :
    (s : AgentState) (e : AgentEvent) (t : AgentState)
    → allowed s e t ≡ true
    → is_ready s ≡ true
    → is_ready t ≡ true
ready_step s e t legal q = ground arith

next_nil : (m : Sm) → next m m.current_state none ≡ none
unfolding next
next_nil m = refl

module _ (sha3 : Bytes → Bytes) where
  moved-Safe :
      (a : Agent) (e : AgentEvent) (t : AgentState) (act : Option Action)
      → Safe sha3 a
      → next a.sm a.sm.current_state (some e) ≡ some t
      → allowed a.sm.current_state e t ≡ true
      → (act ≡ some run_computation → t ≡ running)
      → EventFits (some e) a.sm.current_state (is_some a.algorithm) a.computation.datasets
      → Safe sha3 (record a {
        sm = record (a.sm) { current_state = t };
        loop = handled;
        tasks = spawn (moved t act) a.tasks;
      })
  unfolding next
  moved-Safe a e t act h n legal k f = record {
    verified = h.verified;
    early = λ q. h.early (ground arith);
    late = λ q. late_step a.sm.current_state e t _ a.computation.datasets legal f h.late q;
    received = λ q.
        received_step a.sm.current_state e t (is_some a.algorithm) _ legal f h.received
          (λ u v w. h.direct (cc)) q;
    direct = h.direct;
    moves = h.moves;
    acts = h.acts;
    taken = tt;
    runs = λ q. elim (busy-spawn t act a.tasks k q) [
      | inl before ↦ ready_step a.sm.current_state e t legal (h.runs before)
      | inr now ↦ rw now refl
    ];
  }

  pub returned-Safe : (a : Agent) → Safe sha3 a → Safe sha3 (record a { loop = returned })
  returned-Safe a h = record {
    verified = h.verified;
    early = h.early;
    late = h.late;
    received = h.received;
    direct = h.direct;
    moves = h.moves;
    acts = h.acts;
    taken = tt;
    runs = h.runs;
  }

  turn_on-Safe :
      (a : Agent) (l : Loop AgentEvent) → a.loop ≡ l → Safe sha3 a → Safe sha3 (turn_on l a)
  turn_on-Safe a returned p h = h
  turn_on-Safe a (waiting g) p h = h
  turn_on-Safe a handled p h = h
  turn_on-Safe a (took none) p h =
      rw (handle_event_invalid none a.sm (next_nil a.sm)) (returned-Safe a h)
  turn_on-Safe a (took (some e)) p h = elim (Option-cases (next a.sm a.sm.current_state (some e))) [
    | inl bad ↦ rw (handle_event_invalid (some e) a.sm bad) (returned-Safe a h)
    | inr (t, n) ↦ rw (handle_event_valid (some e) a.sm t n) (
        moved-Safe a e t (lookup t a.sm.actions) h n (h.moves a.sm.current_state e t n) (h.acts t)
          (rw p at h.taken))
  ]

  pub turn-Safe : (a : Agent) → Safe sha3 a → Safe sha3 (turn a)
  unfolding turn
  turn-Safe a h = turn_on-Safe a a.loop refl h

  pub come_back-Safe : (a : Agent) → Safe sha3 a → Safe sha3 (come_back a)
  unfolding come_back
  come_back-Safe a h = record {
    verified = h.verified;
    early = h.early;
    late = h.late;
    received = h.received;
    direct = h.direct;
    moves = h.moves;
    acts = h.acts;
    taken = back a.loop h.taken;
    runs = h.runs;
  }
    where
      back :
          (l : Loop AgentEvent)
          → LoopFits l a.sm.current_state (is_some a.algorithm) a.computation.datasets
          → LoopFits
              (back_on l a.sm.channels)
              a.sm.current_state
              (is_some a.algorithm)
              a.computation.datasets
      back returned f = tt
      back (waiting g) f = tt
      back (took e) f = f
      back handled f = tt

  pub publish-Safe :
      (status : String) (s : AgentState) (a : Agent) → Safe sha3 a → Safe sha3 (publish status s a)
  unfolding publish
  publish-Safe status s a h = frame-Safe sha3 a _ _ _ _ _ _ (λ e. e) h
