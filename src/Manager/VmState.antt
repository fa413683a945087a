-- ===== src/Manager/VmState.antt =====
-- manager/vm/state.go and pkg/manager/manager_states.go: the states of a machine.
use cocos.Common.{◌≡◌, ◌≢◌, ◌⊎◌, Option, none, some, List, [], ◌∷◌, String, arith}

pub data ManagerState : Type 0 where
  vm_provision stop_computation_run vm_running : ManagerState

pub data VmError : Type 0 where
  invalid_transition : VmError

unfoldable pub new_state_machine : ManagerState
new_state_machine = vm_provision

unfoldable pub transition : ManagerState → ManagerState → Option VmError × ManagerState
transition vm_provision vm_running = (none, vm_running)
transition vm_provision stop_computation_run = (none, stop_computation_run)
transition vm_running stop_computation_run = (none, stop_computation_run)
transition stop_computation_run vm_running = (none, vm_running)
transition s t = (some invalid_transition, s)

-- ManagerState.String
abbrev pub state_name : ManagerState → String
state_name vm_provision = "VmProvision"
state_name stop_computation_run = "StopComputationRun"
state_name vm_running = "VmRunning"

-- The state after a sequence of requests, whose errors the callers log.
unfoldable pub transitions : List ManagerState → ManagerState → ManagerState
transitions [] s = s
transitions (t ∷ ts) s = transitions ts (transition s t).1

-- A transition succeeds exactly when it goes to another state than the present one and not to
-- VmProvision; then the machine is in that state, and otherwise it stays where it was.
pub transition_lem :
    (s t : ManagerState)
    → ((t ≢ s) × (t ≢ vm_provision) × (transition s t ≡ (none, t)))
      ⊎ (((t ≡ s) ⊎ (t ≡ vm_provision)) × (transition s t ≡ (some invalid_transition, s)))
unfolding transition
transition_lem s t = ground arith

left_provision : (s t : ManagerState) → s ≢ vm_provision → (transition s t).1 ≢ vm_provision
unfolding transition
left_provision s t h = ground arith

-- A machine that has left VmProvision never comes back to it, whatever is requested.
pub transitions_leave_provision :
    (ts : List ManagerState) (s : ManagerState) → s ≢ vm_provision → transitions ts s ≢ vm_provision
unfolding transitions
transitions_leave_provision [] s h = h
transitions_leave_provision (t ∷ ts) s h =
    transitions_leave_provision ts (transition s t).1 (left_provision s t h)
