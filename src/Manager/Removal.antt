-- ===== src/Manager/Removal.antt =====
-- CreateVM and RemoveVM from end to end: what is registered, and what a failure leaves behind.
use cocos.Common.{
  ℕ, ◌⊎◌, inl, inr, Bool, true, Option, Option-cases, ◌≡◌, refl, ◌∙◌, ◌≢◌, false, none, some,
  String, arith, ◌==◌, string_comparable, Assoc, lookup, insert, delete, length, lookup-insert,
  lookup-delete, equal_self,
}
use cocos.Common.Exec.{ok, err}
use cocos.Manager.VmState.{vm_running, stop_computation_run, transition, new_state_machine}
use cocos.Manager.Ttl.{cancel_ttl}
use cocos.Manager.Service.{
  Manager, Vm, CreateIo, RemoveIo, plain, panic, is_full, admit, prepare, register, schedule,
  mark_running, create_vm, new_vm, remove_vm, unsaved, saved,
}

-- No policy is asked for, or it is fetched, made and read.
abbrev pub PolicyWell : CreateIo → Manager → Type 0
PolicyWell io m =
    (m.enable_sev_snp ≡ false)
    ⊎ ((io.fetch_policy ≡ none) × (io.run_policy ≡ none) × (io.read_policy ≡ none))

-- There is room, the mounts and the policy are made, a port is free, and the machine starts.
abbrev pub StartsWell : CreateIo → ℕ → Manager → Type 0
StartsWell io port m =
    (is_full m.max_vms (length m.vms) ≡ false)
    × (io.cert_mount ≡ none)
    × (io.environment ≡ none)
    × PolicyWell io m
    × (io.free_port ≡ ok port)
    × (io.start ≡ none)

prepare_lem :
    (io : CreateIo) (port : ℕ) (m : Manager) → StartsWell io port m → prepare io m ≡ (ok port, m)
unfolding prepare
prepare_lem io port m (f, c, e, inl s, p, st) = rw (c, e, s) (rw (p, st))
prepare_lem io port m (f, c, e, inr (fetched, ran, read), p, st) = made m.enable_sev_snp refl
  where
    made : (b : Bool) → m.enable_sev_snp ≡ b → prepare io m ≡ (ok port, m)
    made false s = rw (c, e, s) (rw (p, st))
    made true s = rw (c, e, s) (rw (fetched, ran, read, p, st))

admit_lem : (m : Manager) → is_full m.max_vms (length m.vms) ≡ false → admit m ≡ (ok tt, m)
unfolding admit
admit_lem m f = rw f

register_lem :
    (id : String) (vm : Vm) (m : Manager)
    → is_full m.max_vms (length m.vms) ≡ false
    → register id vm m ≡ (ok tt, record m { vms = insert id vm m.vms })
unfolding register
register_lem id vm m f = rw (admit_lem m f)

-- A CreateVM that asks for a lifetime which does not parse returns the error, while the machine is
-- running: it stays registered in its first state, without a timer and without a file.
pub create_vm_unparsed :
    (io : CreateIo) (id ttl e : String) (port : ℕ) (m : Manager)
    → StartsWell io port m
    → (ttl == "") ≡ false
    → io.parse_duration ≡ err e
    → create_vm io id ttl m ≡ (err (plain e), record m { vms = insert id (new_vm io port) m.vms })
unfolding create_vm schedule
create_vm_unparsed io id ttl e port m w t p =
    rw (admit_lem m w.0, prepare_lem io port m w, register_lem id (new_vm io port) m w.0, t, p)

mark_running_lem :
    (id : String) (vm : Vm) (m : Manager)
    → lookup id m.vms ≡ some vm
    → mark_running id m ≡ (
      ok tt,
      record m { vms = insert id (record vm { state = (transition vm.state vm_running).1 }) m.vms },
    )
unfolding mark_running
mark_running_lem id vm m e = rw e

lookup_inserted :
    {V : Type 0} (id : String) (v : V) (m : Assoc String V) → lookup id (insert id v m) ≡ some v
lookup_inserted id v m = rw (lookup-insert id id v m, equal_self string_comparable id)

lookup_other :
    {V : Type 0} (id j : String) (v : V) (m : Assoc String V)
    → j ≢ id
    → lookup j (insert id v m) ≡ lookup j m
lookup_other id j v m h = ground (arith, lookup-insert id j v m, string_comparable.equal_iff id j)

-- Where SaveVM succeeds the process is on disk; its failure leaves the files as they were.
abbrev pub Saved : CreateIo → String → Manager → Manager → Type 0
Saved io id m after =
    ((io.save ≡ none) × (lookup id after.persisted ≡ some io.pid))
    ⊎ ((e : String) × (io.save ≡ some e) × (after.persisted ≡ m.persisted))

-- A CreateVM with room for the machine, whose mounts, port and start succeed, and with SEV-SNP its
-- attestation policy too, and that asks for no lifetime, returns the agent's port. The machine is
-- registered as running, with its process and port; its process is on disk, unless SaveVM fails,
-- which leaves the files as they were; and the other machines and the timers are as they were.
pub create_vm_running :
    (io : CreateIo) (id : String) (port : ℕ) (m : Manager)
    → StartsWell io port m
    → let (answer, after) = create_vm io id "" m in
      (answer ≡ ok port)
      × (lookup id after.vms
          ≡ some (record { state = vm_running; pid = io.pid; agent_port = port }))
      × Saved io id m after
      × ((j : String) → j ≢ id → lookup j after.vms ≡ lookup j m.vms)
      × (after.ttl_manager ≡ m.ttl_manager)
unfolding create_vm schedule transition new_state_machine
create_vm_running io id port m w = elim (Option-cases io.save) [
  | inl s ↦ saving none s
  | inr (e, s) ↦ saving (some e) s
]
  where
    vm : Vm
    vm = new_vm io port

    saving :
        (o : Option String)
        → io.save ≡ o
        → let (answer, after) = create_vm io id "" m in
          (answer ≡ ok port)
          × (lookup id after.vms
              ≡ some (record { state = vm_running; pid = io.pid; agent_port = port }))
          × Saved io id m after
          × ((j : String) → j ≢ id → lookup j after.vms ≡ lookup j m.vms)
          × (after.ttl_manager ≡ m.ttl_manager)
    saving none s =
        rw
          (
            admit_lem m w.0,
            prepare_lem io port m w,
            register_lem id vm m w.0,
            s,
            mark_running_lem id vm (saved none id io.pid (record m { vms = insert id vm m.vms }))
                (lookup_inserted id vm m.vms),
          )
          (
            refl,
            lookup_inserted id _ _,
            inl (refl, lookup_inserted id _ _),
            λ j h. lookup_other id j _ (insert id vm m.vms) h ∙ lookup_other id j vm m.vms h,
            refl,
          )
    saving (some e) s =
        rw
          (
            admit_lem m w.0,
            prepare_lem io port m w,
            register_lem id vm m w.0,
            s,
            mark_running_lem id vm
                (saved (some e) id io.pid (record m { vms = insert id vm m.vms }))
                (lookup_inserted id vm m.vms),
          )
          (
            refl,
            lookup_inserted id _ _,
            inr (e, refl, refl),
            λ j h. lookup_other id j _ (insert id vm m.vms) h ∙ lookup_other id j vm m.vms h,
            refl,
          )

remove_vm_lem :
    (io : RemoveIo) (id : String) (vm : Vm) (m : Manager)
    → lookup id m.vms ≡ some vm
    → io.stop ≡ none
    → remove_vm io id m ≡ (
      ok tt,
      unsaved io.delete_state id (record m {
        ttl_manager = cancel_ttl id m.ttl_manager;
        vms =
            delete id (
              insert id (record vm { state = (transition vm.state stop_computation_run).1 }) m.vms);
      }),
    )
unfolding remove_vm
remove_vm_lem io id vm m e s = rw (e, s)

-- A RemoveVM that stops its machine forgets it, cancels its timer and removes its file where the
-- file can be removed; a CreateVM of that machine which then comes to its last part dereferences
-- nil.
pub remove_vm_removed :
    (io : RemoveIo) (id : String) (vm : Vm) (m : Manager)
    → lookup id m.vms ≡ some vm
    → io.stop ≡ none
    → io.delete_state ≡ none
    → let (answer, after) = remove_vm io id m in
      (answer ≡ ok tt)
      × (lookup id after.vms ≡ none)
      × (lookup id after.persisted ≡ none)
      × (after.ttl_manager ≡ cancel_ttl id m.ttl_manager)
      × ((j : String) → j ≢ id → lookup j after.vms ≡ lookup j m.vms)
      × (mark_running id after ≡ (err panic, after))
unfolding mark_running
remove_vm_removed io id vm m e s d =
    let stopped : Vm = record vm { state = (transition vm.state stop_computation_run).1 } in
    let gone : lookup id (delete id (insert id stopped m.vms)) ≡ none =
      rw (lookup-delete id id (insert id stopped m.vms), equal_self string_comparable id) in
    rw (remove_vm_lem io id vm m e s, d)
      (
        refl,
        gone,
        rw (lookup-delete id id m.persisted, equal_self string_comparable id),
        refl,
        λ j h. ground (
          arith,
          lookup-delete id j (insert id stopped m.vms),
          lookup_other id j stopped m.vms h,
          string_comparable.equal_iff id j,
        ),
        rw gone,
      )

-- A RemoveVM whose machine cannot be stopped returns the error and keeps the machine and its file,
-- but its timer is gone: nothing removes the machine when its lifetime ends.
pub remove_vm_unstopped :
    (io : RemoveIo) (id e : String) (vm : Vm) (m : Manager)
    → lookup id m.vms ≡ some vm
    → io.stop ≡ some e
    → let (answer, after) = remove_vm io id m in
      (answer ≡ err (plain e))
      × (lookup id after.vms
          ≡ some (record vm { state = (transition vm.state stop_computation_run).1 }))
      × (after.persisted ≡ m.persisted)
      × (after.ttl_manager ≡ cancel_ttl id m.ttl_manager)
unfolding remove_vm
remove_vm_unstopped io id e vm m p s = rw (p, s) (refl, lookup_inserted id _ m.vms, refl, refl)
