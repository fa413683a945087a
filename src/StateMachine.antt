-- ===== src/StateMachine.antt =====
-- agent/statemachine/state.go: a table of transitions with actions, driven by one loop.
-- The two channels are made and closed together, so that a number names a pair of them: the pair
-- `g` is closed when `g` lies below the machine's `channels`.
-- The loop (`Start`) is a state of its own, since a send on an unbuffered channel succeeds only
-- while the loop waits on that channel.
pub mod Table
pub mod Runs
mod Tests
use cocos.Common.{
  ℕ, suc, ◌≡◌, Bool, true, false, Option, none, some, List, [], ◌∷◌, ◌++◌, Comparable, ◌==◌, eqb,
  Assoc, lookup, insert, if◌then◌else◌,
}

pub record Transition (S E : Type 0) : Type 0 where
  pub source : S
  pub event : E
  pub target : S

pub record Machine (S E A : Type 0) : Type 0 where
  pub current_state : S
  pub transitions : Assoc S (Assoc E S)
  pub actions : Assoc S A
  pub channels : ℕ

-- What `Start` is doing: it returned; it waits on the channels numbered `g`; it took an event (the
-- nil event of a closed channel is `none`); it handled one and has not come back to its select.
pub data Loop (E : Type 0) : Type 0 where
  returned : Loop E
  waiting : ℕ → Loop E
  took : Option E → Loop E
  handled : Loop E

-- `handleEvent` fails with the state and the event.
pub data Outcome (S E A : Type 0) : Type 0 where
  invalid : S → Option E → Outcome S E A
  moved : S → Option A → Outcome S E A

-- transitions[from], made when it is missing.
abbrev pub row : {S E : Type 0} → Option (Assoc E S) → Assoc E S
row none = []
row (some r) = r

module _ {S E A : Type 0} ⦃es : Comparable S⦄ ⦃ee : Comparable E⦄ where
  unfoldable pub new_state_machine : S → Machine S E A
  new_state_machine s = record { current_state = s; transitions = []; actions = []; channels = 0 }

  unfoldable pub add_transition : Transition S E → Machine S E A → Machine S E A
  add_transition t m = record m {
    transitions =
        insert t.source (insert t.event t.target (row (lookup t.source m.transitions)))
          m.transitions;
  }

  unfoldable pub set_action : S → A → Machine S E A → Machine S E A
  set_action s a m = record m { actions = insert s a m.actions }

  unfoldable pub get_state : Machine S E A → S
  get_state m = m.current_state

  -- transitions[state][event]; no transition is declared for the nil event.
  unfoldable pub next : Machine S E A → S → Option E → Option S
  next m s none = none
  next m s (some e) = lookup e (row (lookup s m.transitions))

  -- SendEvent, where no Reset comes between its reading of the channel and its select: the event is
  -- dropped unless the loop waits on the machine's present channel.
  unfoldable pub send_event : E → Machine S E A → Loop E → Loop E
  send_event e m (waiting g) = if eqb g m.channels then took (some e) else waiting g
  send_event e m l = l

  -- The select of SendEvent on the channel that it read; `none` is the panic of a send on a channel
  -- that a Reset has closed.
  unfoldable pub send_on : ℕ → E → Machine S E A → Loop E → Option (Loop E)
  unfolding send_event
  send_on channel e m l = if eqb channel m.channels then some (send_event e m l) else none

  unfoldable pub reset : S → Machine S E A → Machine S E A
  reset s m = record m { current_state = s; channels = suc m.channels }

  unfoldable pub handle_event : Option E → Machine S E A → Outcome S E A × Machine S E A
  handle_event e m = elim (next m m.current_state e) [
    | none ↦ (invalid m.current_state e, m)
    | some t ↦ (moved t (lookup t m.actions), record m { current_state = t })
  ]

  -- The loop's next phase after it has handled an event.
  abbrev pub after_event : Outcome S E A → Loop E
  after_event (invalid s e) = returned
  after_event (moved t a) = handled

-- One move of `Start`: an event is handled, the loop comes back to its select, a closed channel
-- delivers the nil event, the closed reset channel makes the loop read the channels again, or the
-- context ends the loop.
pub data LoopStep {S E A : Type 0} ⦃es : Comparable S⦄ ⦃ee : Comparable E⦄ (m : Machine S E A)
    : Loop E → Machine S E A → Loop E → Type 0 where
  handles :
      (e : Option E) → LoopStep m (took e) (handle_event e m).1 (after_event (handle_event e m).0)
  comes_back : LoopStep m handled m (waiting m.channels)
  takes_nil : (g : ℕ) → eqb g m.channels ≡ false → LoopStep m (waiting g) m (took none)
  restarts : (g : ℕ) → eqb g m.channels ≡ false → LoopStep m (waiting g) m (waiting m.channels)
  cancelled : (g : ℕ) → LoopStep m (waiting g) m returned
