-- ===== src/Manager/Qemu.antt =====
-- manager/qemu/config.go and manager/qemu/vm.go: the command line of QEMU, and the start of a
-- machine. An argument is a word, or a list of fields `key=value` with commas between them, which
-- may begin with a value; only the fields' texts and numbers are kept, not their spelling.
use cocos.Common.{
  ℕ, Bool, true, false, not, ◌&&◌, Option, none, some, String, List, [], ◌∷◌, ◌++◌, concat, ◌==◌,
  string_comparable, if◌then◌else◌,
}
use cocos.Common.Exec.{Result, ok, err}
use Prim.Native.String.{◌++◌ as cat}

pub record OvmfCodeConfig : Type 0 where
  pub interface : String
  pub format : String
  pub file : String
  pub read_only : String
  pub unit : ℕ

pub record OvmfVarsConfig : Type 0 where
  pub interface : String
  pub format : String
  pub file : String
  pub unit : ℕ

pub record NetDevConfig : Type 0 where
  pub id : String
  pub host_fwd_agent : ℕ
  pub guest_fwd_agent : ℕ

pub record VirtioNetPciConfig : Type 0 where
  pub disable_legacy : String
  pub addr : String
  pub rom_file : String
  pub iommu_platform : Bool

pub record SevSnpConfig : Type 0 where
  pub id : String
  pub c_bit_pos : ℕ
  pub reduced_phys_bits : ℕ
  pub enable_host_data : Bool
  pub host_data : String

pub record TdxConfig : Type 0 where
  pub id : String
  pub quote_generation_port : ℕ
  pub ovmf : String

pub record QemuConfig : Type 0 where
  pub enable_sev_snp : Bool
  pub enable_tdx : Bool
  pub use_sudo : Bool
  pub enable_kvm : Bool
  pub no_graphic : Bool
  pub qemu_bin_path : String
  pub machine : String
  pub cpu : String
  pub mem_id : String
  pub memory_size : String
  pub memory_max : String
  pub smp_count : ℕ
  pub max_cpus : ℕ
  pub memory_slots : ℕ
  pub ovmf_code : OvmfCodeConfig
  pub ovmf_vars : OvmfVarsConfig
  pub net_dev : NetDevConfig
  pub virtio_net_pci : VirtioNetPciConfig
  pub kernel_file : String
  pub root_fs_file : String
  pub sev_snp : SevSnpConfig
  pub tdx : TdxConfig
  pub igvm_id : String
  pub igvm_file : String
  pub monitor : String
  pub certs_mount : String
  pub env_mount : String

pub data Value : Type 0 where
  text : String → Value
  number : ℕ → Value
  truth : Bool → Value
  -- tcp::host-:guest
  forwarded : ℕ → ℕ → Value

pub data Arg : Type 0 where
  word : String → Arg
  fields : Option Value → List (String × Value) → Arg
  -- TDXObject, with its identifier and its port
  tdx_object : String → ℕ → Arg

abbrev pub when {ℓ} : {A : Type ℓ} → Bool → List A → List A
when b l = if b then l else []

abbrev pub host_args : QemuConfig → List Arg
host_args c = concat (
    when c.enable_kvm (word "-enable-kvm" ∷ [])
    ∷ when (not (c.machine == "")) (word "-machine" ∷ word c.machine ∷ [])
    ∷ when (not (c.cpu == "")) (word "-cpu" ∷ word c.cpu ∷ [])
    ∷ (word "-smp"
        ∷ fields (some (number c.smp_count)) (("maxcpus", number c.max_cpus) ∷ [])
        ∷ word "-m"
        ∷ fields (some (text c.memory_size))
            (("slots", number c.memory_slots) ∷ ("maxmem", text c.memory_max) ∷ [])
        ∷ [])
    ∷ [])

abbrev pub ovmf_args : QemuConfig → List Arg
ovmf_args c =
    word "-drive"
    ∷ fields none (
        ("if", text c.ovmf_code.interface)
        ∷ ("format", text c.ovmf_code.format)
        ∷ ("unit", number c.ovmf_code.unit)
        ∷ ("file", text c.ovmf_code.file)
        ∷ ("readonly", text c.ovmf_code.read_only)
        ∷ [])
    ∷ word "-drive"
    ∷ fields none (
        ("if", text c.ovmf_vars.interface)
        ∷ ("format", text c.ovmf_vars.format)
        ∷ ("unit", number c.ovmf_vars.unit)
        ∷ ("file", text c.ovmf_vars.file)
        ∷ [])
    ∷ []

abbrev pub network_args : QemuConfig → List Arg
network_args c =
    word "-netdev"
    ∷ fields (some (text "user")) (
        ("id", text c.net_dev.id)
        ∷ ("hostfwd", forwarded c.net_dev.host_fwd_agent c.net_dev.guest_fwd_agent)
        ∷ [])
    ∷ word "-device"
    ∷ fields (some (text "virtio-net-pci")) (
        ("disable-legacy", text c.virtio_net_pci.disable_legacy)
        ∷ ("iommu_platform", truth c.virtio_net_pci.iommu_platform)
        ∷ ("netdev", text c.net_dev.id)
        ∷ ("addr", text c.virtio_net_pci.addr)
        ∷ ("romfile", text c.virtio_net_pci.rom_file)
        ∷ [])
    ∷ []

abbrev pub memory_object : QemuConfig → Arg
memory_object c = fields (some (text "memory-backend-memfd")) (
    ("id", text c.mem_id)
    ∷ ("size", text c.memory_size)
    ∷ ("share", truth true)
    ∷ ("prealloc", truth false)
    ∷ [])

abbrev pub sev_snp_args : QemuConfig → List Arg
sev_snp_args c =
    word "-machine"
    ∷ fields none (
        ("confidential-guest-support", text c.sev_snp.id)
        ∷ ("memory-backend", text c.mem_id)
        ∷ ("igvm-cfg", text c.igvm_id)
        ∷ [])
    ∷ word "-object"
    ∷ memory_object c
    ∷ word "-object"
    ∷ fields (some (text "sev-snp-guest")) (
        ("id", text c.sev_snp.id)
        ∷ ("cbitpos", number c.sev_snp.c_bit_pos)
        ∷ ("reduced-phys-bits", number c.sev_snp.reduced_phys_bits)
        ∷ when c.sev_snp.enable_host_data (("host-data", text c.sev_snp.host_data) ∷ []))
    ∷ word "-object"
    ∷ fields (some (text "igvm-cfg")) (("id", text c.igvm_id) ∷ ("file", text c.igvm_file) ∷ [])
    ∷ []

abbrev pub tdx_args : QemuConfig → List Arg
tdx_args c =
    word "-object"
    ∷ tdx_object c.tdx.id c.tdx.quote_generation_port
    ∷ word "-machine"
    ∷ fields none (
        ("confidential-guest-support", text c.tdx.id)
        ∷ ("memory-backend", text c.mem_id)
        ∷ ("hpet", text "off")
        ∷ [])
    ∷ word "-object"
    ∷ memory_object c
    ∷ word "-bios"
    ∷ word c.tdx.ovmf
    ∷ word "-nodefaults"
    ∷ []

abbrev pub boot_args : QemuConfig → List Arg
boot_args c =
    word "-kernel"
      ∷ word c.kernel_file
      ∷ word "-append"
      ∷ word "\"quiet console=null\""
      ∷ word "-initrd"
      ∷ word c.root_fs_file
      ∷ when c.no_graphic (word "-nographic" ∷ [])
    ++ word "-monitor" ∷ word c.monitor ∷ []

abbrev pub mount_args : String → String → String → List Arg
mount_args fs tag path =
    word "-fsdev"
    ∷ fields (some (text "local"))
        (("id", text fs) ∷ ("path", text path) ∷ ("security_model", text "mapped") ∷ [])
    ∷ word "-device"
    ∷ fields (some (text "virtio-9p-pci")) (("fsdev", text fs) ∷ ("mount_tag", text tag) ∷ [])
    ∷ []

unfoldable pub construct_qemu_args : QemuConfig → List Arg
construct_qemu_args c = concat (
    host_args c
    ∷ when (not c.enable_sev_snp && not c.enable_tdx) (ovmf_args c)
    ∷ network_args c
    ∷ when c.enable_sev_snp (sev_snp_args c)
    ∷ when c.enable_tdx (tdx_args c)
    ∷ boot_args c
    ∷ when (not (c.certs_mount == "")) (mount_args "cert_fs" "certs_share" c.certs_mount)
    ∷ when (not (c.env_mount == "")) (mount_args "env_fs" "env_share" c.env_mount)
    ∷ [])

-- exec.LookPath's answer, then the arguments.
unfoldable pub executable_and_args :
    Result String String → QemuConfig → Result String (String × List Arg)
unfolding construct_qemu_args
executable_and_args (err e) c = err e
executable_and_args (ok exe) c =
    if c.use_sudo
    then ok ("sudo", word exe ∷ construct_qemu_args c)
    else ok (exe, construct_qemu_args c)

-- What Start is answered.
pub record StartIo : Type 0 where
  pub uuid : Result String String
  pub copy_file : Option String
  pub look_path : Result String String
  pub start : Option String

abbrev pub suffixed : String → String → String
suffixed id uuid = cat (cat id "-") uuid

abbrev pub with_ids : String → QemuConfig → QemuConfig
with_ids uuid c = record c {
  net_dev = record (c.net_dev) { id = suffixed c.net_dev.id uuid };
  sev_snp = record (c.sev_snp) { id = suffixed c.sev_snp.id uuid };
  tdx = record (c.tdx) { id = suffixed c.tdx.id uuid };
}

-- The copy of the firmware's variables.
abbrev pub firmware_copy : String → String
firmware_copy uuid = cat (cat "/tmp/OVMF_VARS-" uuid) ".fd"

abbrev pub with_vars : String → QemuConfig → QemuConfig
with_vars uuid c = record c { ovmf_vars = record (c.ovmf_vars) { file = firmware_copy uuid } }

-- The command that was started, or the error; and the configuration after it.
abbrev pub Started : Type 0
Started = Result String (String × List Arg) × QemuConfig

abbrev pub run_command :
    Option String → Result String (String × List Arg) → Result String (String × List Arg)
run_command start (err e) = err e
run_command none (ok command) = ok command
run_command (some e) (ok command) = err e

abbrev pub launch : StartIo → QemuConfig → Started
launch io c = (run_command io.start (executable_and_args io.look_path c), c)

abbrev pub copy_vars : StartIo → String → QemuConfig → Option String → Started
copy_vars io uuid c none = launch io (with_vars uuid c)
copy_vars io uuid c (some e) = (err e, c)

abbrev pub start_as : StartIo → QemuConfig → Result String String → Started
start_as io c (err e) = (err e, c)
start_as io c (ok uuid) =
    if not c.enable_sev_snp && not c.enable_tdx
    then copy_vars io uuid (with_ids uuid c) io.copy_file
    else launch io (with_ids uuid c)

unfoldable pub start : StartIo → QemuConfig → Started
unfolding executable_and_args
start io c = start_as io c io.uuid
