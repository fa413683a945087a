-- ===== src/Manager/Capacity.antt =====
-- The manager never holds more machines than it may, however its calls interleave.
use cocos.Common.{
  ℕ, zero, suc, ◌≤◌, ◌≡◌, refl, false, Option, none, some, List, [], ◌∷◌, String, arith,
  string_comparable, Assoc, lookup, insert, delete, length, length-insert, length-delete, ℤ, pos,
  negsuc, Bool-cases, inl, inr,
}
use cocos.Common.Exec.{Keeps, After-continue, Keeps-state, After-check_last}
use cocos.Manager.Ttl.{cancel_ttl}
use cocos.Manager.Service.{
  Manager, Vm, CreateIo, RemoveIo, is_full, admit, register, schedule, saved, mark_running,
  run_entry, remove_vm, stop_vm, unsaved, shutdown,
}

-- A limit that is not positive is no limit.
abbrev pub Fits : ℤ → ℕ → Type 0
Fits (pos (suc n)) len = len ≤ suc n
Fits (pos zero) len = Unit {0}
Fits (negsuc n) len = Unit {0}

abbrev pub Within : Manager → Type 0
Within m = Fits m.max_vms (length m.vms)

smaller-Fits : (z : ℤ) (a b : ℕ) → a ≤ b → Fits z b → Fits z a
smaller-Fits (pos zero) a b h f = tt
smaller-Fits (pos (suc n)) a b h f = omega arith
smaller-Fits (negsuc n) a b h f = tt

one_more-Fits : (z : ℤ) (a b : ℕ) → b ≤ suc a → is_full z a ≡ false → Fits z b
one_more-Fits (pos zero) a b h f = tt
one_more-Fits (pos (suc n)) a b h f = ground arith
one_more-Fits (negsuc n) a b h f = tt

length-insert-le :
    (id : String) (vm : Vm) (m : Assoc String Vm) → length (insert id vm m) ≤ suc (length m)
length-insert-le id vm m = ground (arith, length-insert id vm m)

length-insert_known :
    (id : String) (vm old : Vm) (m : Assoc String Vm)
    → lookup id m ≡ some old
    → length (insert id vm m) ≡ length m
length-insert_known id vm old m e = ground (arith, length-insert id vm m)

register-Within : (id : String) (vm : Vm) (m : Manager) → Within m → Keeps Within (register id vm m)
unfolding register admit
register-Within id vm m w = elim (Bool-cases (is_full m.max_vms (length m.vms))) [
  | inl full ↦ rw full w
  | inr room ↦
      rw room (one_more-Fits m.max_vms (length m.vms) _ (length-insert-le id vm m.vms) room)
]

schedule-Within :
    (io : CreateIo) (id ttl : String) (m : Manager) → Within m → Keeps Within (schedule io id ttl m)
unfolding schedule
schedule-Within io id ttl m w = ground arith

saved-Within :
    (o : Option String) (id : String) (pid : ℕ) (m : Manager) → Within m → Within (saved o id pid m)
saved-Within none id pid m w = w
saved-Within (some e) id pid m w = w

known-Within :
    (id : String) (vm old : Vm) (m : Manager)
    → lookup id m.vms ≡ some old
    → Within m
    → Within (record m { vms = insert id vm m.vms })
known-Within id vm old m e w = rw (length-insert_known id vm old m.vms e) w

run_entry-Within :
    (id : String) (o : Option Vm) (m : Manager)
    → lookup id m.vms ≡ o
    → Within m
    → Keeps Within (run_entry id o m)
run_entry-Within id none m e w = w
run_entry-Within id (some vm) m e w = known-Within id _ vm m e w

unsaved-Within :
    (o : Option String) (id : String) (m : Manager) → Within m → Within (unsaved o id m)
unsaved-Within none id m w = w
unsaved-Within (some e) id m w = w

stop_vm-Within :
    (io : RemoveIo) (id : String) (o : Option Vm) (m : Manager)
    → lookup id m.vms ≡ o
    → Within m
    → Keeps Within (stop_vm io id o m)
stop_vm-Within io id none m e w = w
stop_vm-Within io id (some vm) m e w =
    After-check_last Within _ io.stop _ _ (known-Within id _ vm m e w) (known-Within id _ vm m e w)

remove_vm-Within :
    (io : RemoveIo) (id : String) (m : Manager) → Within m → Keeps Within (remove_vm io id m)
unfolding remove_vm
remove_vm-Within io id m w =
    After-continue Within (λ _ b. Within b) _
      (stop_vm io id (lookup id m.vms) (record m { ttl_manager = cancel_ttl id m.ttl_manager })) _
      (stop_vm-Within io id (lookup id m.vms)
        (record m { ttl_manager = cancel_ttl id m.ttl_manager }) refl w)
      (λ _ b wb.
        unsaved-Within io.delete_state id (record b { vms = delete id b.vms })
          (smaller-Fits b.max_vms _ (length b.vms) (length-delete id b.vms) wb))

-- A critical section of some caller: of a CreateVM on its way, of a RemoveVM, or Shutdown.
pub data Section : Type 0 where
  registers : String → Vm → Section
  schedules : CreateIo → String → String → Section
  saves : Option String → String → ℕ → Section
  marks : String → Section
  removes : RemoveIo → String → Section
  shuts_down : Section

abbrev pub run_section : Section → Manager → Manager
run_section (registers id vm) m = (register id vm m).1
run_section (schedules io id ttl) m = (schedule io id ttl m).1
run_section (saves o id pid) m = saved o id pid m
run_section (marks id) m = (mark_running id m).1
run_section (removes io id) m = (remove_vm io id m).1
run_section shuts_down m = shutdown m

-- The callers' critical sections, in the order in which they get the mutex.
unfoldable pub run_sections : List Section → Manager → Manager
run_sections [] m = m
run_sections (s ∷ ss) m = run_sections ss (run_section s m)

run_section-Within : (s : Section) (m : Manager) → Within m → Within (run_section s m)
unfolding mark_running shutdown
run_section-Within (registers id vm) m w =
    Keeps-state Within (register id vm m) (register-Within id vm m w)
run_section-Within (schedules io id ttl) m w =
    Keeps-state Within (schedule io id ttl m) (schedule-Within io id ttl m w)
run_section-Within (saves o id pid) m w = saved-Within o id pid m w
run_section-Within (marks id) m w =
    Keeps-state Within (mark_running id m) (run_entry-Within id (lookup id m.vms) m refl w)
run_section-Within (removes io id) m w =
    Keeps-state Within (remove_vm io id m) (remove_vm-Within io id m w)
run_section-Within shuts_down m w = smaller-Fits m.max_vms 0 (length m.vms) (omega arith) w

-- A manager that holds no more machines than it may does so after any interleaving of the critical
-- sections of its callers.
pub run_sections-Within : (ss : List Section) (m : Manager) → Within m → Within (run_sections ss m)
unfolding run_sections
run_sections-Within [] m w = w
run_sections-Within (s ∷ ss) m w =
    run_sections-Within ss (run_section s m) (run_section-Within s m w)
