-- ===== src/StateMachine/Tests.antt =====
-- Witnesses on a machine of two states, `0` and `1`, that event `1` moves to `1`.
use cocos.Common.{ℕ, ◌≡◌, ◌↔◌, none, [], ◌∷◌, nat_comparable}
use cocos.StateMachine.{Transition, Machine, new_state_machine, add_transition}
use cocos.StateMachine.Runs.{Trace, edges, start_loop, start_loop_iff_Trace}

abbrev switch : Transition ℕ ℕ
switch = record { source = 0; event = 1; target = 1 }

abbrev machine : Machine ℕ ℕ ℕ
machine = add_transition switch (new_state_machine 0)

start_loop_iff_Trace_example : Trace (edges machine) machine.current_state (1 ∷ []) 1 ↔ (
    ((start_loop (1 ∷ []) machine).0 ≡ none) × ((start_loop (1 ∷ []) machine).1.current_state ≡ 1))
start_loop_iff_Trace_example = start_loop_iff_Trace (1 ∷ []) machine 1
