-- ===== src/Tls/Lifecycle.antt =====
-- pkg/server/grpc/grpc.go: a server's starts and stops, one after another.
use cocos.Common.{
  ℕ, ◌+◌, ◌≤◌, ◌≡◌, ◌⊎◌, inl, inr, refl, Bool, true, false, Option, none, some, List, [], ◌∷◌,
  String, if◌then◌else◌, arith, Bool-cases,
}
use cocos.Common.Exec.{Result, ok, err}
use cocos.Tls.Servers.{
  Credentials, ServerError, ServerIo, Server, configure_credentials, stop, Ending, context_done,
  served, listening, start_with, start, already_started, already_stopped, append_server_ca,
  append_client_ca, server_ca_failed, client_ca_failed, cert_failed, key_failed, key_pair_failed,
  listen_failed, serve_failed,
}

pub data Call : Type 0 where
  start_call : Ending → Call
  stop_call : Call

-- Whether a Start got beyond the checks of its flags.
abbrev pub began : Option ServerError → ℕ
began (some already_started) = 0
began (some already_stopped) = 0
began o = 1

began_at_most : (o : Option ServerError) → began o ≤ 1
began_at_most none = omega arith
began_at_most (some already_started) = omega arith
began_at_most (some already_stopped) = omega arith
began_at_most (some append_server_ca) = omega arith
began_at_most (some append_client_ca) = omega arith
began_at_most (some (server_ca_failed e)) = omega arith
began_at_most (some (client_ca_failed e)) = omega arith
began_at_most (some (cert_failed e)) = omega arith
began_at_most (some (key_failed e)) = omega arith
began_at_most (some (key_pair_failed e)) = omega arith
began_at_most (some (listen_failed e)) = omega arith
began_at_most (some (serve_failed e)) = omega arith

module _ {R Q G : Type 0} (io : ServerIo R Q) where
  abbrev pub count : List Call → Server R Q G → ℕ
  count [] s = 0
  count (start_call ending ∷ calls) s =
      began (start io ending s).0 + count calls (start io ending s).1
  count (stop_call ∷ calls) s = count calls (stop io s)

  abbrev Closed : Server R Q G → Type 0
  Closed s = (s.started ≡ true) ⊎ (s.stopped ≡ true)

  stop-started : (s : Server R Q G) → s.started ≡ true → (stop io s).started ≡ true
  unfolding stop
  stop-started s h = elim (Bool-cases s.stopped) [ inl e ↦ rw e h | inr e ↦ rw e h ]

  stop-Closed : (s : Server R Q G) → Closed s → Closed (stop io s)
  unfolding stop
  stop-Closed s (inl h) = inl (stop-started s h)
  stop-Closed s (inr h) = inr (rw h refl)

  start_with-started :
      (ending : Ending) (s : Server R Q G) (r : Result ServerError (Credentials R Q G))
      → s.started ≡ true
      → (start_with io ending s r).1.started ≡ true
  start_with-started ending s (err e) h = h
  start_with-started ending s (ok creds) h = listened io.listen ending
    where
      listened :
          (o : Option String) (ending : Ending) → (listening io ending s creds o).1.started ≡ true
      listened (some e) ending = h
      listened none context_done = stop-started _ h
      listened none (served none) = h
      listened none (served (some e)) = h

  start_again :
      (ending : Ending) (s : Server R Q G)
      → Closed s
      → (began (start io ending s).0 ≡ 0) × ((start io ending s).1 ≡ s)
  unfolding start
  start_again ending s (inl h) = rw h (refl, refl)
  start_again ending s (inr h) = elim (Bool-cases s.started) [
    | inl e ↦ rw e (refl, refl)
    | inr e ↦ rw (e, h) (refl, refl)
  ]

  start-Closed : (ending : Ending) (s : Server R Q G) → Closed (start io ending s).1
  unfolding start
  start-Closed ending s = by_flags s.started s.stopped refl refl
    where
      by_flags :
          (b c : Bool)
          → s.started ≡ b
          → s.stopped ≡ c
          → Closed
              (if b
                then (some already_started, s)
                else if c
                then (some already_stopped, s)
                else start_with io ending
                    (record s { started = true })
                    (configure_credentials io s)).1
      by_flags true c e f = inl e
      by_flags false true e f = inr f
      by_flags false false e f = inl (
          start_with-started ending (record s { started = true }) (configure_credentials io s) refl)

  count-Closed : (calls : List Call) (s : Server R Q G) → Closed s → count calls s ≡ 0
  count-Closed [] s h = refl
  count-Closed (start_call ending ∷ calls) s h =
      let (none_began, same) = start_again ending s h in
      omega (arith, none_began, count-Closed calls (start io ending s).1 (start-Closed ending s))
  count-Closed (stop_call ∷ calls) s h = count-Closed calls (stop io s) (stop-Closed s h)

  -- Of all starts of a server, however many and with stops in between, one at most gets beyond the
  -- checks of the flags, also where it then fails.
  pub start_once : (calls : List Call) (s : Server R Q G) → count calls s ≤ 1
  start_once [] s = omega arith
  start_once (start_call ending ∷ calls) s = omega (
    arith,
    began_at_most (start io ending s).0,
    count-Closed calls (start io ending s).1 (start-Closed ending s),
  )
  start_once (stop_call ∷ calls) s = start_once calls (stop io s)
