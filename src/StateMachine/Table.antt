-- ===== src/StateMachine/Table.antt =====
-- The transition table of the state machine as a partial function.
use cocos.Common.{
  ◌≡◌, refl, ◌&&◌, Option, none, some, Comparable, ◌==◌, lookup, insert, lookup-insert, arith,
  if◌then◌else◌,
}
use cocos.StateMachine.{Transition, Machine, row, add_transition, set_action, next}

module _ {S E A : Type 0} ⦃es : Comparable S⦄ ⦃ee : Comparable E⦄ where
  -- A transition that is added answers for its state and event, and for these alone.
  pub next-add_transition :
      (t : Transition S E) (m : Machine S E A) (s : S) (e : E)
      → next (add_transition t m) s (some e)
        ≡ (if (t.source == s) && (t.event == e) then some t.target else next m s (some e))
  unfolding next add_transition
  next-add_transition t m s e = ground (
    arith,
    es.equal_iff t.source s,
    ee.equal_iff t.event e,
    lookup-insert t.source s (insert t.event t.target (row (lookup t.source m.transitions)))
        m.transitions,
    lookup-insert t.event e t.target (row (lookup t.source m.transitions)),
  )

  -- Setting an action leaves the table alone.
  pub next-set_action :
      (s0 : S) (a : A) (m : Machine S E A) (s : S) (e : Option E)
      → next (set_action s0 a m) s e ≡ next m s e
  unfolding next set_action
  next-set_action s0 a m s none = refl
  next-set_action s0 a m s (some e) = refl
