-- ===== src/Manager/Service.antt =====
-- manager/service.go: CreateVM, RemoveVM, Shutdown and restoreVMs. A call's critical sections under
-- the mutex are definitions of their own, so that calls can interleave between them.
use cocos.Common.{
  ℕ, Bool, not, true, false, ◌&&◌, Option, none, some, List, [], ◌∷◌, String, ◌==◌,
  string_comparable, Assoc, lookup, insert, delete, length, ltb, leb, ℤ, pos, negsuc, if◌then◌else◌,
}
use cocos.Common.Exec.{Exec, Result, ok, err, ◌>>=◌, ◌>>◌, pure, gets, modify, guard, check, throw}
use cocos.Manager.VmState.{
  ManagerState, vm_running, stop_computation_run, transition, new_state_machine,
}
use cocos.Manager.Ttl.{TtlManager, set_ttl, cancel_ttl, cancel_all}

pub record Vm : Type 0 where
  pub state : ManagerState
  pub pid : ℕ
  pub agent_port : ℕ

pub data ManagerError : Type 0 where
  max_vms_exceeded not_found : ManagerError
  failed_to_allocate_port failed_to_create_attestation_policy unmarshal_failed :
      String → ManagerError
  -- an error that is returned as it came
  plain : String → ManagerError
  -- a panic: nil dereference
  panic : ManagerError

-- `persisted` holds the process of each machine whose state is on disk.
pub record Manager : Type 0 where
  pub vms : Assoc String Vm
  pub max_vms : ℤ
  pub ttl_manager : TtlManager
  pub persisted : Assoc String ℕ
  pub enable_sev_snp : Bool

-- What the operating system and the other packages answer to the calls of CreateVM.
pub record CreateIo : Type 0 where
  pub cert_mount : Option String
  pub environment : Option String
  pub fetch_policy : Option String
  pub run_policy : Option String
  pub read_policy : Option String
  pub free_port : Result String ℕ
  pub start : Option String
  pub pid : ℕ
  pub parse_duration : Result String ℕ
  pub save : Option String

-- ms.maxVMs > 0 && len(ms.vms) >= ms.maxVMs
abbrev pub is_full : ℤ → ℕ → Bool
is_full (pos n) len = ltb 0 n && leb n len
is_full (negsuc n) len = false

abbrev pub Call : Type 0 → Type 0
Call A = Exec Manager ManagerError A

unfoldable pub admit : Call (Unit {0})
admit = do full ← gets λ m. is_full m.max_vms (length m.vms); guard (not full) max_vms_exceeded

abbrev pub allocated : Result String ℕ → Call ℕ
allocated (ok port) = pure port
allocated (err e) = throw (failed_to_allocate_port e)

abbrev pub make_policy : CreateIo → Bool → Call (Unit {0})
make_policy io false = pure tt
make_policy io true = do
  check io.fetch_policy plain
  check io.run_policy failed_to_create_attestation_policy
  check io.read_policy unmarshal_failed

-- Between the two critical sections: the mounts, the policy, the port and the machine's start.
unfoldable pub prepare : CreateIo → Call ℕ
prepare io = do
  check io.cert_mount plain
  check io.environment plain
  sev ← gets λ m. m.enable_sev_snp
  make_policy io sev
  port ← allocated io.free_port
  check io.start plain
  pure port

-- The second check and the registration.
unfoldable pub register : String → Vm → Call (Unit {0})
unfolding admit
register id vm = do admit; modify λ m. record m { vms = insert id vm m.vms }

abbrev pub set_parsed : String → Result String ℕ → Call (Unit {0})
set_parsed id (err e) = throw (plain e)
set_parsed id (ok ttl) = modify λ m. record m { ttl_manager = set_ttl id ttl m.ttl_manager }

unfoldable pub schedule : CreateIo → String → String → Call (Unit {0})
schedule io id ttl = if ttl == "" then pure tt else set_parsed id io.parse_duration

-- SaveVM, whose error is logged.
abbrev pub saved : Option String → String → ℕ → Manager → Manager
saved none id pid m = record m { persisted = insert id pid m.persisted }
saved (some e) id pid m = m

-- ms.vms[id].Transition(VmRunning): the entry may be gone by now.
abbrev pub run_entry : String → Option Vm → Call (Unit {0})
run_entry id none = throw panic
run_entry id (some vm) = modify λ m. record m {
  vms = insert id (record vm { state = (transition vm.state vm_running).1 }) m.vms;
}

unfoldable pub mark_running : String → Call (Unit {0})
mark_running id = do entry ← gets λ m. lookup id m.vms; run_entry id entry

abbrev pub new_vm : CreateIo → ℕ → Vm
new_vm io port = record { state = new_state_machine; pid = io.pid; agent_port = port }

unfoldable pub create_vm : CreateIo → String → String → Call ℕ
unfolding admit prepare register schedule mark_running
create_vm io id ttl = do
  admit
  port ← prepare io
  register id (new_vm io port)
  schedule io id ttl
  modify (saved io.save id io.pid)
  mark_running id
  pure port

pub record RemoveIo : Type 0 where
  pub stop : Option String
  pub delete_state : Option String

-- cvm.Stop() moves the machine's state, also where it fails.
abbrev pub stop_vm : RemoveIo → String → Option Vm → Call (Unit {0})
stop_vm io id none = throw not_found
stop_vm io id (some vm) = do
  modify λ m. record m {
    vms = insert id (record vm { state = (transition vm.state stop_computation_run).1 }) m.vms;
  }
  check io.stop plain

-- DeleteVM, whose error is logged.
abbrev pub unsaved : Option String → String → Manager → Manager
unsaved none id m = record m { persisted = delete id m.persisted }
unsaved (some e) id m = m

unfoldable pub remove_vm : RemoveIo → String → Call (Unit {0})
remove_vm io id = do
  modify λ m. record m { ttl_manager = cancel_ttl id m.ttl_manager }
  entry ← gets λ m. lookup id m.vms
  stop_vm io id entry
  modify λ m. record m { vms = delete id m.vms }
  modify (unsaved io.delete_state id)

unfoldable pub shutdown : Manager → Manager
shutdown m = record m { ttl_manager = cancel_all m.ttl_manager; vms = [] }

-- A persisted state, and the answers about its process.
pub record VmRecord : Type 0 where
  pub id : String
  pub pid : ℕ
  pub agent_port : ℕ
  pub process_exists : Bool
  pub delete_state : Option String
  pub set_process : Option String

abbrev pub attach : Option String → VmRecord → Manager → Manager
attach (some e) r m = m
attach none r m = record m {
  vms =
      insert r.id
        (record {
          state = (transition new_state_machine vm_running).1;
          pid = r.pid;
          agent_port = r.agent_port;
        })
        m.vms;
}

abbrev pub restore_vm : VmRecord → Manager → Manager
restore_vm r m =
    if r.process_exists then attach r.set_process r m else unsaved r.delete_state r.id m

unfoldable pub restore_vms : List VmRecord → Manager → Manager
restore_vms [] m = m
restore_vms (r ∷ rs) m = restore_vms rs (restore_vm r m)
