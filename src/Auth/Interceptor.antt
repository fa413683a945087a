-- ===== src/Auth/Interceptor.antt =====
-- agent/api/grpc/interceptors.go: the role that a stream's method asks for, and what a consumer who
-- is let through gets from the agent.
use cocos.Common.{
  ℕ, ◌≡◌, ◌⊎◌, inl, inr, refl, true, Option, some, List, String, Bytes, pos, ltb, get_elem?-lt,
  length, arith,
}
use cocos.Common.Exec.{Result, ok, err}
use cocos.Agent.Types.{
  AgentState, AgentError, consuming_results, complete, failed, Computation, Context,
  state_comparable,
}
use cocos.Agent.State.{Agent}
use cocos.Agent.Running.{result, error_of}
use cocos.Auth.{
  consumer, data_provider, algorithm_provider, AuthError, Crypto, Service, new_service,
  authenticate_user,
}
use cocos.Auth.Consumers.{authenticate_user-consumer}

pub data Method : Type 0 where
  algo_method data_method result_method other_method : Method

abbrev pub pass_on : {B : Type 0} → Result AuthError Context → (Context → B) → Result AuthError B
pass_on (err e) handler = err e
pass_on (ok ctx) handler = ok (handler ctx)

-- In a state with results a caller with an index in range gets the result and the run's error.
pub result_in_range :
    (observed : AgentState) (ctx : Context) (i : ℕ) (a : Agent)
    → (observed ≡ consuming_results) ⊎ (observed ≡ complete) ⊎ (observed ≡ failed)
    → ctx.manifest_index ≡ some (pos i)
    → ltb i (length a.computation.result_consumers) ≡ true
    → (result observed ctx a).0 ≡ (a.result, error_of a.run_error)
unfolding result
result_in_range observed ctx i a (inl e) p q = rw (e, p, q) refl
result_in_range observed ctx i a (inr (inl e)) p q = rw (e, p, q) refl
result_in_range observed ctx i a (inr (inr e)) p q = rw (e, p, q) refl

module _ {K : Type 0} (c : Crypto K) where
  -- Algo's handler keeps the stream's own context.
  unfoldable pub auth_stream :
      {B : Type 0}
      → Service K
      → Method
      → Option (List String)
      → Context
      → (Context → B)
      → Result AuthError B
  auth_stream s algo_method headers ctx handler =
      pass_on (authenticate_user c s headers ctx algorithm_provider) (λ _. handler ctx)
  auth_stream s data_method headers ctx handler =
      pass_on (authenticate_user c s headers ctx data_provider) handler
  auth_stream s result_method headers ctx handler =
      pass_on (authenticate_user c s headers ctx consumer) handler
  auth_stream s other_method headers ctx handler = ok (handler ctx)

  passed :
      {B : Type 0} (r : Result AuthError Context) (handler : Context → B) (b : B)
      → pass_on r handler ≡ ok b
      → (after : Context) × (r ≡ ok after) × (b ≡ handler after)
  passed (err e) handler b h = absurd (ground arith)
  passed (ok after) handler b h = (after, refl, ground arith)

  -- With the service that New made of a manifest whose result consumers are still those of the
  -- agent's computation, whatever datasets Data has taken out of it since: a stream of Result that
  -- the interceptor lets through is answered, once there are results, with the result and the run's
  -- error, and never with ErrUndeclaredConsumer.
  pub auth_stream-result :
      (s : Service K) (headers : Option (List String)) (ctx : Context) (observed : AgentState)
      (manifest : Computation) (a : Agent) (answer : (Bytes × Option AgentError) × Agent)
      → new_service c manifest ≡ ok s
      → a.computation.result_consumers ≡ manifest.result_consumers
      → (observed ≡ consuming_results) ⊎ (observed ≡ complete) ⊎ (observed ≡ failed)
      → auth_stream s result_method headers ctx (λ after. result observed after a) ≡ ok answer
      → answer.0 ≡ (a.result, error_of a.run_error)
  unfolding auth_stream
  auth_stream-result s headers ctx observed manifest a answer n kept o e =
      let (after, let_in, same) =
        passed (authenticate_user c s headers ctx consumer) (λ after. result observed after a)
          answer e in
      let (signature, i, r, key, one, declared, decoded, good, indexed) =
        authenticate_user-consumer c manifest s headers ctx after n let_in in
      let position : after.manifest_index ≡ some (pos i) = rw indexed refl in
      let below = get_elem?-lt manifest.result_consumers i declared in
      let in_range : ltb i (length a.computation.result_consumers) ≡ true =
        rw kept (ground arith) in
      rw same (result_in_range observed after i a o position in_range)
