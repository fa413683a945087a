-- ===== src/Manager/Ttl.antt =====
-- manager/ttl.go: the timers that remove machines. A timer is a number; `armed` holds those that
-- have not fired and are not stopped, with the machine that they remove and their duration.
use cocos.Common.{
  ℕ, suc, ◌≤◌, ◌≡◌, refl, ◌≢◌, Option, none, some, [], ◌∷◌, String, arith, string_comparable,
  nat_comparable, eqb, Assoc, lookup, insert, delete, lookup-insert, lookup-delete, Bool-cases,
  Option-cases, inl, inr,
}

pub record TtlManager : Type 0 where
  pub timers : Assoc String ℕ
  pub armed : Assoc ℕ (String × ℕ)
  pub fresh : ℕ

unfoldable pub new_ttl_manager : TtlManager
new_ttl_manager = record { timers = []; armed = []; fresh = 0 }

-- timer.Stop()
abbrev pub stop_timer : Option ℕ → Assoc ℕ (String × ℕ) → Assoc ℕ (String × ℕ)
stop_timer none m = m
stop_timer (some h) m = delete h m

unfoldable pub set_ttl : String → ℕ → TtlManager → TtlManager
set_ttl vm ttl tm = record {
  timers = insert vm tm.fresh tm.timers;
  armed = insert tm.fresh (vm, ttl) (stop_timer (lookup vm tm.timers) tm.armed);
  fresh = suc tm.fresh;
}

abbrev pub forget : Option ℕ → String → TtlManager → TtlManager
forget none vm tm = tm
forget (some h) vm tm = record tm { timers = delete vm tm.timers; armed = delete h tm.armed }

unfoldable pub cancel_ttl : String → TtlManager → TtlManager
cancel_ttl vm tm = forget (lookup vm tm.timers) vm tm

-- The loop of CancelAll over the entries.
unfoldable pub cancel_entries : Assoc String ℕ → TtlManager → TtlManager
cancel_entries [] tm = tm
cancel_entries ((vm, h) ∷ es) tm =
    cancel_entries es (record tm { timers = delete vm tm.timers; armed = delete h tm.armed })

unfoldable pub cancel_all : TtlManager → TtlManager
cancel_all tm = cancel_entries tm.timers tm

-- A timer fires, and calls its function for its machine.
unfoldable pub fire : ℕ → TtlManager → TtlManager
fire h tm = record tm { armed = delete h tm.armed }

-- Every armed timer is the one that its machine's entry names, and was made before.
pub record IsValid (tm : TtlManager) : Type 0 where
  pub registered :
      (h : ℕ) (vm : String) (ttl : ℕ)
      → lookup h tm.armed ≡ some (vm, ttl)
      → lookup vm tm.timers ≡ some h
  pub made : (h : ℕ) → tm.fresh ≤ h → lookup h tm.armed ≡ none
  pub named : (h : ℕ) (vm : String) → lookup vm tm.timers ≡ some h → suc h ≤ tm.fresh

-- After the timer of `vm` is stopped, an armed timer is one of another machine, and was armed.
stop_timer_armed :
    (tm : TtlManager) (vm : String) (h : ℕ) (w : String) (ttl : ℕ)
    → IsValid tm
    → lookup h (stop_timer (lookup vm tm.timers) tm.armed) ≡ some (w, ttl)
    → (lookup h tm.armed ≡ some (w, ttl)) × (w ≢ vm)
stop_timer_armed tm vm h w ttl v e = elim (Option-cases (lookup vm tm.timers)) [
  | inl absent ↦
      let was : lookup h tm.armed ≡ some (w, ttl) = rw absent at e in
      (was, λ q. absurd (ground (arith, v.registered h w ttl was)))
  | inr (k, present) ↦
      let left : lookup h (delete k tm.armed) ≡ some (w, ttl) = rw present at e in
      let was : lookup h tm.armed ≡ some (w, ttl) = ground (arith, lookup-delete k h tm.armed) in
      (was, λ q. absurd (ground (arith, v.registered h w ttl was, lookup-delete k h tm.armed)))
]

stop_timer_absent :
    (o : Option ℕ) (h : ℕ) (m : Assoc ℕ (String × ℕ))
    → lookup h m ≡ none
    → lookup h (stop_timer o m) ≡ none
stop_timer_absent none h m e = e
stop_timer_absent (some k) h m e = ground (arith, lookup-delete k h m)

-- Where every armed timer is registered, it is so after a time to live is set.
pub set_ttl-IsValid :
    (vm : String) (ttl : ℕ) (tm : TtlManager) → IsValid tm → IsValid (set_ttl vm ttl tm)
unfolding set_ttl
set_ttl-IsValid vm ttl tm v = record {
  registered = λ h w t e. ground (
    arith,
    lookup-insert tm.fresh h (vm, ttl) (stop_timer (lookup vm tm.timers) tm.armed),
    lookup-insert vm w tm.fresh tm.timers,
    string_comparable.equal_iff vm w,
    λ (q : lookup h (stop_timer (lookup vm tm.timers) tm.armed) ≡ some (w, t)).
        stop_timer_armed tm vm h w t v q,
    v.registered h w t,
  );
  made = λ h e. ground (
    arith,
    lookup-insert tm.fresh h (vm, ttl) (stop_timer (lookup vm tm.timers) tm.armed),
    stop_timer_absent (lookup vm tm.timers) h tm.armed (v.made h (omega arith)),
  );
  named = λ h w e. ground (arith, lookup-insert vm w tm.fresh tm.timers, v.named h w);
}

forget-IsValid :
    (o : Option ℕ) (vm : String) (tm : TtlManager)
    → lookup vm tm.timers ≡ o
    → IsValid tm
    → IsValid (forget o vm tm)
forget-IsValid none vm tm p v = v
forget-IsValid (some k) vm tm p v = record {
  registered = λ h w t e. ground (
    arith,
    lookup-delete k h tm.armed,
    lookup-delete vm w tm.timers,
    string_comparable.equal_iff vm w,
    v.registered h w t,
  );
  made = λ h e. ground (arith, lookup-delete k h tm.armed, v.made h e);
  named = λ h w e. ground (arith, lookup-delete vm w tm.timers, v.named h w);
}

-- Where every armed timer is registered, cancelling the time to live of a machine keeps this so,
-- and leaves no armed timer that would remove the machine.
pub cancel_ttl_disarms :
    (vm : String) (tm : TtlManager)
    → IsValid tm
    → IsValid (cancel_ttl vm tm)
      × ((h ttl : ℕ) → lookup h (cancel_ttl vm tm).armed ≢ some (vm, ttl))
unfolding cancel_ttl
cancel_ttl_disarms vm tm v = (
  forget-IsValid (lookup vm tm.timers) vm tm refl v,
  λ h ttl e. disarmed (lookup vm tm.timers) h ttl refl e,
)
  where
    disarmed :
        (o : Option ℕ) (h ttl : ℕ)
        → lookup vm tm.timers ≡ o
        → lookup h (forget o vm tm).armed ≢ some (vm, ttl)
    disarmed none h ttl p e = absurd (cc (v.registered h vm ttl e))
    disarmed (some k) h ttl p e =
        absurd (ground (arith, lookup-delete k h tm.armed, v.registered h vm ttl))

-- When every armed timer is registered and a new time to live is set for a machine, the only armed
-- timer that would remove it is the new one, with the new duration.
pub set_ttl_replaces :
    (vm : String) (ttl : ℕ) (tm : TtlManager) (h t : ℕ)
    → IsValid tm
    → lookup h (set_ttl vm ttl tm).armed ≡ some (vm, t)
    → (h ≡ tm.fresh) × (t ≡ ttl)
unfolding set_ttl
set_ttl_replaces vm ttl tm h t v e = elim (Bool-cases (eqb tm.fresh h)) [
  | inl new ↦
      ground (arith, lookup-insert tm.fresh h (vm, ttl) (stop_timer (lookup vm tm.timers) tm.armed))
  | inr old ↦
      let was : lookup h (stop_timer (lookup vm tm.timers) tm.armed) ≡ some (vm, t) =
        ground
          (arith, lookup-insert tm.fresh h (vm, ttl) (stop_timer (lookup vm tm.timers) tm.armed)) in
      absurd ((stop_timer_armed tm vm h vm t v was).1 refl)
]
