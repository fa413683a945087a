-- ===== src/StateMachine/Runs.antt =====
-- `Start` over a sequence of events, against paths through the transition table.
use cocos.Common.{
  suc, eqb, false, equal_self, nat_comparable, ◌≡◌, refl, sym, ◌↔◌, Option, none, some, List, [],
  ◌∷◌, Comparable, lookup, arith, Option-cases, inl, inr, ℕ, ◌≤◌, subst,
}
use cocos.StateMachine.{
  Machine, Outcome, invalid, moved, next, handle_event, Loop, reset, send_event, send_on, waiting,
  took, returned, LoopStep,
}

-- The moves that a table allows, labelled by events.
pub data Trace {S E : Type 0} (edge : S → E → Option S) : S → List E → S → Type 0 where
  stay : {s : S} → Trace edge s [] s
  go :
      {s t u : S} {e : E} {es : List E}
      → edge s e ≡ some t
      → Trace edge t es u
      → Trace edge s (e ∷ es) u

-- The error of the first event that the table does not allow, if there is one.
abbrev pub stops : {S E A : Type 0} → Outcome S E A → Option (S × Option E)
stops (invalid s e) = some (s, e)
stops (moved t a) = none

module _ {S E A : Type 0} ⦃es : Comparable S⦄ ⦃ee : Comparable E⦄ where
  abbrev pub edges : Machine S E A → S → E → Option S
  edges m s e = next m s (some e)

  -- The loop of `Start`, given the events that arrive one after another.
  unfoldable pub start_loop : List E → Machine S E A → Option (S × Option E) × Machine S E A
  start_loop [] m = (none, m)
  start_loop (e ∷ l) m = elim (stops (handle_event (some e) m).0) [
    | none ↦ start_loop l (handle_event (some e) m).1
    | some x ↦ (some x, (handle_event (some e) m).1)
  ]

  pub handle_event_valid :
      (e : Option E) (m : Machine S E A) (t : S)
      → next m m.current_state e ≡ some t
      → handle_event e m ≡ (moved t (lookup t m.actions), record m { current_state = t })
  unfolding handle_event
  handle_event_valid e m t h = rw (h, handle_event)

  pub handle_event_invalid :
      (e : Option E) (m : Machine S E A)
      → next m m.current_state e ≡ none
      → handle_event e m ≡ (invalid m.current_state e, m)
  unfolding handle_event
  handle_event_invalid e m h = rw (h, handle_event)

  start_loop_valid :
      (e : E) (l : List E) (m : Machine S E A) (t : S)
      → next m m.current_state (some e) ≡ some t
      → start_loop (e ∷ l) m ≡ start_loop l (record m { current_state = t })
  unfolding start_loop
  start_loop_valid e l m t h =
      rw (handle_event_valid (some e) m t h, start_loop) (rw (handle_event_valid (some e) m t h))

  start_loop_invalid :
      (e : E) (l : List E) (m : Machine S E A)
      → next m m.current_state (some e) ≡ none
      → start_loop (e ∷ l) m ≡ (some (m.current_state, some e), m)
  unfolding start_loop
  start_loop_invalid e l m h =
      rw (handle_event_invalid (some e) m h, start_loop) (rw (handle_event_invalid (some e) m h))

  start_loop-Trace :
      (l : List E) (m : Machine S E A)
      → (start_loop l m).0 ≡ none
      → Trace (edges m) m.current_state l (start_loop l m).1.current_state
  unfolding start_loop next
  start_loop-Trace [] m h = stay
  start_loop-Trace (e ∷ l) m h = elim (Option-cases (next m m.current_state (some e))) [
    | inl bad ↦ absurd (cc (start_loop_invalid e l m bad))
    | inr (t, good) ↦
        let step = start_loop_valid e l m t good in
        rw step (go good (start_loop-Trace l (record m { current_state = t }) (rw step at h)))
  ]

  Trace-start_loop :
      (l : List E) (m : Machine S E A) {s u : S}
      → Trace (edges m) s l u
      → s ≡ m.current_state
      → ((start_loop l m).0 ≡ none) × ((start_loop l m).1.current_state ≡ u)
  unfolding start_loop next
  Trace-start_loop [] m stay p = (refl, sym p)
  Trace-start_loop (e ∷ l) m (go {t = t} h r) p =
      rw (start_loop_valid e l m t (rw (← p) h))
        (Trace-start_loop l (record m { current_state = t }) r refl)

  -- `Start` takes a sequence of events without an error exactly when the table has a path with
  -- these labels from the present state, and then it ends in the state where the path ends.
  pub start_loop_iff_Trace :
      (l : List E) (m : Machine S E A) (u : S)
      → Trace (edges m) m.current_state l u
        ↔ (((start_loop l m).0 ≡ none) × ((start_loop l m).1.current_state ≡ u))
  start_loop_iff_Trace l m u = (
    λ r. Trace-start_loop l m r refl,
    λ (p, q). subst (Trace (edges m) m.current_state l) q (start_loop-Trace l m p),
  )

  -- After a reset the machine is in the given state with its table and actions, and a send reaches
  -- no loop that waits on the channels from before.
  pub reset_lem :
      (s t : S) (e : Option E) (v : E) (m : Machine S E A) (g : ℕ)
      → g ≤ m.channels
      → ((reset s m).current_state ≡ s)
        × (next (reset s m) t e ≡ next m t e)
        × (lookup t (reset s m).actions ≡ lookup t m.actions)
        × (send_event v (reset s m) (waiting g) ≡ waiting g)
  unfolding reset send_event next
  reset_lem s t none v m g h = ground arith
  reset_lem s t (some e) v m g h = ground arith

  -- A loop that waits on the channels which `Reset` closes may be restarted on the new ones, and
  -- may as well take the nil event of the closed channel and return its error.
  pub reset_race :
      (s : S) (m : Machine S E A)
      → (LoopStep (reset s m) (waiting m.channels) (reset s m) (waiting (reset s m).channels))
        × (LoopStep (reset s m) (waiting m.channels) (reset s m) (took none))
        × (handle_event none (reset s m) ≡ (invalid s none, reset s m))
        × (LoopStep (reset s m) (took none) (reset s m) returned)
  unfolding reset handle_event next
  reset_race s m = (
    LoopStep.restarts m.channels (ground arith),
    LoopStep.takes_nil m.channels (ground arith),
    refl,
    LoopStep.handles none,
  )

  -- The select of `SendEvent` does what the send does while the channel that was read is the
  -- present one, and panics when a `Reset` came in between.
  pub send_on-reset :
      (e : E) (s : S) (m : Machine S E A) (l : Loop E)
      → (send_on m.channels e m l ≡ some (send_event e m l))
        × (send_on m.channels e (reset s m) l ≡ none)
  unfolding send_on reset
  send_on-reset e s m l = (
    rw (equal_self nat_comparable m.channels) refl,
    let closed : eqb m.channels (suc m.channels) ≡ false = ground arith in rw closed refl,
  )
