-- ===== src/Manager/Devices.antt =====
-- manager/qemu/config.go and manager/qemu/vm.go: the devices that the arguments of QEMU name.
use cocos.Common.{
  ◌≡◌, refl, sym, ap, ◌∙◌, ◌⊎◌, inl, inr, Bool, true, false, not, ◌&&◌, Option, none, some, String,
  List, [], ◌∷◌, ◌++◌, subst, append_assoc, concat, All, ◌==◌, string_comparable, if◌then◌else◌,
}
use cocos.Common.Exec.{Result, ok, err}
use cocos.Manager.Qemu.{
  QemuConfig, Value, text, number, truth, forwarded, Arg, word, fields, tdx_object, when, host_args,
  ovmf_args, network_args, sev_snp_args, tdx_args, boot_args, mount_args, construct_qemu_args,
  executable_and_args, StartIo, start, start_as, with_ids, with_vars, launch, copy_vars,
  run_command,
}

-- The kind of thing that the value of a key names, and that an argument with a head makes.
pub data Kind : Type 0 where
  memory guest igvm network directory : Kind

abbrev pub kind_of_key : String → Option Kind
kind_of_key key =
    if key == "memory-backend"
    then some memory
    else if key == "confidential-guest-support"
    then some guest
    else if key == "igvm-cfg"
    then some igvm
    else if key == "netdev"
    then some network
    else if key == "fsdev"
    then some directory
    else none

abbrev pub kind_of_head : String → Option Kind
kind_of_head head =
    if head == "memory-backend-memfd"
    then some memory
    else if head == "sev-snp-guest"
    then some guest
    else if head == "igvm-cfg"
    then some igvm
    else if head == "user"
    then some network
    else if head == "local"
    then some directory
    else none

abbrev pub Named : Type 0
Named = Kind × String

abbrev pub tagged : Option Kind → String → List Named
tagged none t = []
tagged (some k) t = (k, t) ∷ []

-- The texts of the fields whose keys have a kind.
abbrev pub texts_of : (String → Option Kind) → List (String × Value) → List Named
texts_of kind [] = []
texts_of kind ((key, text t) ∷ fs) = tagged (kind key) t ++ texts_of kind fs
texts_of kind ((key, number n) ∷ fs) = texts_of kind fs
texts_of kind ((key, truth b) ∷ fs) = texts_of kind fs
texts_of kind ((key, forwarded h g) ∷ fs) = texts_of kind fs

abbrev pub referenced : Arg → List Named
referenced (word w) = []
referenced (fields head fs) = texts_of kind_of_key fs
referenced (tdx_object id port) = []

-- `id=` in an argument that begins with the word for a kind.
abbrev pub made_as : Option Value → List (String × Value) → List Named
made_as (some (text head)) fs = texts_of (λ key. if key == "id" then kind_of_head head else none) fs
made_as (some (number n)) fs = []
made_as (some (truth b)) fs = []
made_as (some (forwarded h g)) fs = []
made_as none fs = []

abbrev pub made : Arg → List Named
made (word w) = []
made (fields head fs) = made_as head fs
made (tdx_object id port) = (guest, id) ∷ []

abbrev pub all_of : (Arg → List Named) → List Arg → List Named
all_of f [] = []
all_of f (a ∷ as') = f a ++ all_of f as'

abbrev pub Among : Named → List Named → Type 0
Among s [] = ⊥
Among s (t ∷ l) = (s ≡ t) ⊎ Among s l

-- Everything that an argument refers to is made, as a thing of that kind, by an argument.
abbrev pub Declared : List Arg → Type 0
Declared args = All (λ s. Among s (all_of made args)) (all_of referenced args)

all_of-append :
    (f : Arg → List Named) (xs ys : List Arg) → all_of f (xs ++ ys) ≡ all_of f xs ++ all_of f ys
all_of-append f [] ys = refl
all_of-append f (x ∷ xs) ys =
    ap (λ (l : List Named). f x ++ l) (all_of-append f xs ys)
    ∙ sym (append_assoc (f x) (all_of f xs) (all_of f ys))

Among-left : (s : Named) (l m : List Named) → Among s l → Among s (l ++ m)
Among-left s [] m a = absurd a
Among-left s (t ∷ l) m (inl e) = inl e
Among-left s (t ∷ l) m (inr a) = inr (Among-left s l m a)

Among-right : (s : Named) (l m : List Named) → Among s m → Among s (l ++ m)
Among-right s [] m a = a
Among-right s (t ∷ l) m a = inr (Among-right s l m a)

All-map : (P Q : Named → Type 0) (l : List Named) → ((s : Named) → P s → Q s) → All P l → All Q l
All-map P Q [] f a = tt
All-map P Q (s ∷ l) f a = (f s a.0, All-map P Q l f a.1)

All-both : (P : Named → Type 0) (l m : List Named) → All P l → All P m → All P (l ++ m)
All-both P [] m a b = b
All-both P (s ∷ l) m a b = (a.0, All-both P l m a.1 b)

Declared-append : (xs ys : List Arg) → Declared xs → Declared ys → Declared (xs ++ ys)
Declared-append xs ys a b =
    rw (all_of-append referenced xs ys, all_of-append made xs ys)
      (All-both _ (all_of referenced xs) (all_of referenced ys)
        (All-map _ _ (all_of referenced xs) (λ s. Among-left s (all_of made xs) (all_of made ys)) a)
        (All-map _ _ (all_of referenced ys) (λ s. Among-right s (all_of made xs) (all_of made ys))
          b))

Declared-when : (b : Bool) (xs : List Arg) → Declared xs → Declared (when b xs)
Declared-when true xs a = a
Declared-when false xs a = tt

Declared-concat : (groups : List (List Arg)) → All Declared groups → Declared (concat groups)
Declared-concat [] a = tt
Declared-concat (g ∷ gs) a = Declared-append g (concat gs) a.0 (Declared-concat gs a.1)

host_args-Declared : (c : QemuConfig) → Declared (host_args c)
host_args-Declared c =
    Declared-concat
      (when c.enable_kvm (word "-enable-kvm" ∷ [])
        ∷ when (not (c.machine == "")) (word "-machine" ∷ word c.machine ∷ [])
        ∷ when (not (c.cpu == "")) (word "-cpu" ∷ word c.cpu ∷ [])
        ∷ (word "-smp"
            ∷ fields (some (number c.smp_count)) (("maxcpus", number c.max_cpus) ∷ [])
            ∷ word "-m"
            ∷ fields (some (text c.memory_size))
                (("slots", number c.memory_slots) ∷ ("maxmem", text c.memory_max) ∷ [])
            ∷ [])
        ∷ [])
      (
        Declared-when c.enable_kvm (word "-enable-kvm" ∷ []) tt,
        (
          Declared-when (not (c.machine == "")) (word "-machine" ∷ word c.machine ∷ []) tt,
          (Declared-when (not (c.cpu == "")) (word "-cpu" ∷ word c.cpu ∷ []) tt, (tt, tt)),
        ),
      )

sev_snp_args-Declared : (c : QemuConfig) → Declared (sev_snp_args c)
sev_snp_args-Declared c = hosted c.sev_snp.enable_host_data refl
  where
    hosted : (b : Bool) → c.sev_snp.enable_host_data ≡ b → Declared (sev_snp_args c)
    hosted true e = rw e (inr (inl refl), (inl refl, (inr (inr (inl refl)), tt)))
    hosted false e = rw e (inr (inl refl), (inl refl, (inr (inr (inl refl)), tt)))

boot_args-Declared : (c : QemuConfig) → Declared (boot_args c)
boot_args-Declared c = booted c.no_graphic
  where
    booted :
        (b : Bool)
        → Declared (
            word "-kernel"
              ∷ word c.kernel_file
              ∷ word "-append"
              ∷ word "\"quiet console=null\""
              ∷ word "-initrd"
              ∷ word c.root_fs_file
              ∷ when b (word "-nographic" ∷ [])
            ++ word "-monitor" ∷ word c.monitor ∷ [])
    booted true = tt
    booted false = tt

construct_qemu_args-Declared : (c : QemuConfig) → Declared (construct_qemu_args c)
unfolding construct_qemu_args
construct_qemu_args-Declared c =
    Declared-concat
      (host_args c
        ∷ when (not c.enable_sev_snp && not c.enable_tdx) (ovmf_args c)
        ∷ network_args c
        ∷ when c.enable_sev_snp (sev_snp_args c)
        ∷ when c.enable_tdx (tdx_args c)
        ∷ boot_args c
        ∷ when (not (c.certs_mount == "")) (mount_args "cert_fs" "certs_share" c.certs_mount)
        ∷ when (not (c.env_mount == "")) (mount_args "env_fs" "env_share" c.env_mount)
        ∷ [])
      (
        host_args-Declared c,
        (
          Declared-when (not c.enable_sev_snp && not c.enable_tdx) (ovmf_args c) tt,
          (
            (inl refl, tt),
            (
              Declared-when c.enable_sev_snp (sev_snp_args c) (sev_snp_args-Declared c),
              (
                Declared-when c.enable_tdx (tdx_args c) (inl refl, (inr (inl refl), tt)),
                (
                  boot_args-Declared c,
                  (
                    Declared-when (not (c.certs_mount == ""))
                        (mount_args "cert_fs" "certs_share" c.certs_mount) (inl refl, tt),
                    (
                      Declared-when (not (c.env_mount == ""))
                          (mount_args "env_fs" "env_share" c.env_mount) (inl refl, tt),
                      tt,
                    ),
                  ),
                ),
              ),
            ),
          ),
        ),
      )

-- A command whose arguments are those of a configuration.
abbrev Runs : QemuConfig → Result String (String × List Arg) → Type 0
Runs c (err e) = Unit {0}
Runs c (ok (exe, args)) =
    Declared args
    × ((args ≡ construct_qemu_args c)
        ⊎ ((path : String) × (args ≡ word path ∷ construct_qemu_args c)))

executable_and_args-Runs :
    (o : Result String String) (c : QemuConfig) → Runs c (executable_and_args o c)
unfolding executable_and_args
executable_and_args-Runs (err e) c = tt
executable_and_args-Runs (ok exe) c = by_user c.use_sudo
  where
    by_user :
        (b : Bool)
        → Runs c (
            if b
            then ok ("sudo", word exe ∷ construct_qemu_args c)
            else ok (exe, construct_qemu_args c))
    by_user true = (construct_qemu_args-Declared c, inr (exe, refl))
    by_user false = (construct_qemu_args-Declared c, inl refl)

run_command-Runs :
    (o : Option String) (c : QemuConfig) (r : Result String (String × List Arg))
    → Runs c r
    → Runs c (run_command o r)
run_command-Runs o c (err e) a = tt
run_command-Runs none c (ok (exe, args)) a = a
run_command-Runs (some e) c (ok (exe, args)) a = tt

launch-Runs : (io : StartIo) (c : QemuConfig) → Runs (launch io c).1 (launch io c).0
launch-Runs io c =
    run_command-Runs io.start c (executable_and_args io.look_path c)
      (executable_and_args-Runs io.look_path c)

start-Runs : (io : StartIo) (c : QemuConfig) → Runs (start io c).1 (start io c).0
unfolding start
start-Runs io c = named io.uuid
  where
    copied :
        (uuid : String) (o : Option String)
        → let r = copy_vars io uuid (with_ids uuid c) o in Runs r.1 r.0
    copied uuid none = launch-Runs io (with_vars uuid (with_ids uuid c))
    copied uuid (some e) = tt

    chosen :
        (uuid : String) (b : Bool)
        → let r =
            if b
            then copy_vars io uuid (with_ids uuid c) io.copy_file
            else launch io (with_ids uuid c) in
          Runs r.1 r.0
    chosen uuid true = copied uuid io.copy_file
    chosen uuid false = launch-Runs io (with_ids uuid c)

    named : (o : Result String String) → Runs (start_as io c o).1 (start_as io c o).0
    named (err e) = tt
    named (ok uuid) = chosen uuid (not c.enable_sev_snp && not c.enable_tdx)

-- A machine that Start starts, directly or with sudo, runs with the arguments of the configuration
-- that Start leaves, and in these every network, memory, confidential guest, IGVM file and mounted
-- directory that an argument refers to is made, as a thing of this kind, by an argument.
pub start-Declared :
    (io : StartIo) (c d : QemuConfig) (exe : String) (args : List Arg)
    → start io c ≡ (ok (exe, args), d)
    → Declared args
      × ((args ≡ construct_qemu_args d)
          ⊎ ((path : String) × (args ≡ word path ∷ construct_qemu_args d)))
start-Declared io c d exe args e = subst (λ r. Runs r.1 r.0) e (start-Runs io c)
