-- ===== src/Manager/Tests.antt =====
-- Witnesses on a manager of at most one machine.
use cocos.Common.{
  inl, true, ◌⊎◌, ◌≤◌, eqb, Option, List, Bytes, ℕ, ◌≡◌, refl, ◌≢◌, false, none, some, [], ◌∷◌,
  String, arith, string_comparable, nat_comparable, lookup, pos,
}
use cocos.Common.Exec.{ok, err}
use cocos.Manager.Ports.{
  Arranges, decode_range, get_free_port, get_free_port_in_range, no_free_port,
}
use cocos.Manager.VmState.{vm_provision, vm_running}
use cocos.Manager.Ttl.{TtlManager, IsValid, new_ttl_manager, set_ttl, cancel_ttl, set_ttl-IsValid}
use cocos.Manager.Service.{
  Manager, Vm, CreateIo, RemoveIo, panic, create_vm, remove_vm, mark_running,
}
use cocos.Manager.Capacity.{Within, registers, removes, run_sections, run_sections-Within}
use cocos.Manager.Removal.{Saved, create_vm_running, remove_vm_removed}
use cocos.Manager.Persistence.{SavedState, StateCodec, load_vms}
use cocos.Manager.Qemu.{
  QemuConfig, Arg, word, StartIo, with_ids, with_vars, construct_qemu_args, executable_and_args,
  start,
}
use cocos.Manager.Devices.{Declared, start-Declared}
use mathlib.Core.Option
use cocos.Manager.Refinement.{
  with_info, Call, saves, removes as removes_state, loads_well, perform_all, apply_all, find,
  load_vms-apply_all,
}

running_not_provision : vm_running ≢ vm_provision
running_not_provision e = absurd (ground arith)

new_ttl_manager-IsValid : IsValid new_ttl_manager
unfolding new_ttl_manager lookup
new_ttl_manager-IsValid = record {
  registered = λ h vm ttl e. absurd (ground arith);
  made = λ h e. refl;
  named = λ h vm e. absurd (ground arith);
}

abbrev timed : TtlManager
timed = set_ttl "vm" 60 new_ttl_manager

timed-IsValid : IsValid timed
timed-IsValid = set_ttl-IsValid "vm" 60 new_ttl_manager new_ttl_manager-IsValid

abbrev machine : Vm
machine = record { state = vm_running; pid = 41; agent_port = 6100 }

abbrev empty : Manager
empty = record {
  vms = [];
  max_vms = pos 1;
  ttl_manager = new_ttl_manager;
  persisted = [];
  enable_sev_snp = false;
}

abbrev full : Manager
full = record empty { vms = ("vm", machine) ∷ []; persisted = ("vm", 41) ∷ []; ttl_manager = timed }

abbrev create_io : CreateIo
create_io = record {
  cert_mount = none;
  environment = none;
  fetch_policy = none;
  run_policy = none;
  read_policy = none;
  free_port = ok 6100;
  start = none;
  pid = 41;
  parse_duration = err "invalid duration";
  save = none;
}

abbrev remove_io : RemoveIo
remove_io = record { stop = none; delete_state = none }

run_sections-Within_example : Within (
    run_sections (registers "a" machine ∷ registers "b" machine ∷ removes remove_io "a" ∷ []) empty)
run_sections-Within_example =
    run_sections-Within (registers "a" machine ∷ registers "b" machine ∷ removes remove_io "a" ∷ [])
      empty (omega arith)

create_vm_running_example :
    let (answer, after) = create_vm create_io "vm" "" empty in
    (answer ≡ ok 6100)
    × (lookup "vm" after.vms ≡ some machine)
    × Saved create_io "vm" empty after
    × ((j : String) → j ≢ "vm" → lookup j after.vms ≡ lookup j [])
    × (after.ttl_manager ≡ new_ttl_manager)
create_vm_running_example =
    create_vm_running create_io "vm" 6100 empty (refl, refl, refl, inl refl, refl, refl)

remove_vm_removed_example :
    let (answer, after) = remove_vm remove_io "vm" full in
    (answer ≡ ok tt)
    × (lookup "vm" after.vms ≡ none)
    × (lookup "vm" after.persisted ≡ none)
    × (after.ttl_manager ≡ cancel_ttl "vm" timed)
    × ((j : String) → j ≢ "vm" → lookup j after.vms ≡ lookup j full.vms)
    × (mark_running "vm" after ≡ (err panic, after))
unfolding lookup
remove_vm_removed_example = remove_vm_removed remove_io "vm" machine full refl refl refl

abbrev state_from : Bytes → Option (SavedState (Unit {0}))
state_from [] = none
state_from (n ∷ b) = some (record { id = b; info = tt; pid = n })

abbrev state_codec : StateCodec (Unit {0})
state_codec = record { marshal = λ s. some (s.pid ∷ s.id); unmarshal = state_from }

abbrev state_of : ℕ → SavedState (Unit {0})
state_of n = record { id = n ∷ []; info = tt; pid = 100 }

abbrev calls : List (Call (Unit {0}))
calls = saves (state_of 1) ∷ saves (state_of 2) ∷ removes_state (1 ∷ []) ∷ []

load_vms-apply_all_example :
    (states : List (SavedState (Unit {0}))) × (load_vms state_codec loads_well
        (perform_all state_codec calls [])
      ≡ ok states)
    × ((id : Bytes)
        → find id states ≡ Option.map (with_info (λ u. u)) (apply_all calls (λ j. none) id))
load_vms-apply_all_example =
    load_vms-apply_all state_codec calls (λ u. u) (λ s. (s.pid ∷ s.id, refl, refl))

abbrev config : QemuConfig
config = record {
  enable_sev_snp = false;
  enable_tdx = false;
  use_sudo = true;
  enable_kvm = true;
  no_graphic = true;
  qemu_bin_path = "qemu-system-x86_64";
  machine = "q35";
  cpu = "EPYC";
  mem_id = "ram1";
  memory_size = "2048M";
  memory_max = "30G";
  smp_count = 4;
  max_cpus = 64;
  memory_slots = 5;
  ovmf_code = record {
    interface = "pflash";
    format = "raw";
    file = "OVMF_CODE.fd";
    read_only = "on";
    unit = 0;
  };
  ovmf_vars = record { interface = "pflash"; format = "raw"; file = "OVMF_VARS.fd"; unit = 1 };
  net_dev = record { id = "vmnic"; host_fwd_agent = 7020; guest_fwd_agent = 7002 };
  virtio_net_pci = record {
    disable_legacy = "on";
    addr = "0x2";
    rom_file = "";
    iommu_platform = true;
  };
  kernel_file = "bzImage";
  root_fs_file = "rootfs.cpio.gz";
  sev_snp = record {
    id = "sev0";
    c_bit_pos = 51;
    reduced_phys_bits = 1;
    enable_host_data = false;
    host_data = "";
  };
  tdx = record { id = "tdx0"; quote_generation_port = 4050; ovmf = "OVMF.fd" };
  igvm_id = "igvm0";
  igvm_file = "coconut-qemu.igvm";
  monitor = "pty";
  certs_mount = "/tmp/certs";
  env_mount = "";
}

abbrev start_io : StartIo
start_io = record { uuid = ok "u"; copy_file = none; look_path = ok "/usr/bin/qemu"; start = none }

abbrev started_config : QemuConfig
started_config = with_vars "u" (with_ids "u" config)

abbrev started_args : List Arg
started_args = word "/usr/bin/qemu" ∷ construct_qemu_args started_config

start-Declared_example :
    Declared started_args
    × ((started_args ≡ construct_qemu_args started_config)
        ⊎ ((path : String) × (started_args ≡ word path ∷ construct_qemu_args started_config)))
unfolding start executable_and_args
start-Declared_example = start-Declared start_io config started_config "sudo" started_args refl

-- "6100-6101", of which the first port is taken.
-- The first port is checked after the second.
abbrev rotate : List ℕ → List ℕ
rotate [] = []
rotate (p ∷ []) = p ∷ []
rotate (p ∷ q ∷ l) = q ∷ p ∷ l

rotate-Arranges : Arranges rotate
rotate-Arranges [] p = refl
rotate-Arranges (q ∷ []) p = refl
rotate-Arranges (q ∷ r ∷ l) p = ground arith

get_free_port_in_range_example :
    let free = λ (p : ℕ). eqb p 6101 in
    let arrange = λ (l : List ℕ). rotate l in
    ((p : ℕ) × (get_free_port free arrange 6100 6101 ≡ ok p)
      × (free p ≡ true)
      × (6100 ≤ p)
      × (p ≤ 6101))
    ⊎ ((get_free_port free arrange 6100 6101 ≡ err (no_free_port 6100 6101))
        × ((p : ℕ) → 6100 ≤ p → p ≤ 6101 → free p ≡ false))
unfolding decode_range
get_free_port_in_range_example =
    get_free_port_in_range (54 ∷ 49 ∷ 48 ∷ 48 ∷ 45 ∷ 54 ∷ 49 ∷ 48 ∷ 49 ∷ []) 6100 6101
      (λ p. eqb p 6101) rotate refl (omega arith) rotate-Arranges
