-- ===== src/Auth/Consumers.antt =====
-- A result consumer who is let in is one of the manifest's, at the index that Result reads.
use cocos.Common.{
  ℕ, zero, suc, ◌+◌, ◌≡◌, refl, Option, none, some, List, [], ◌∷◌, String, map, get_elem?, arith,
  pos, Option-cases, inl, inr,
}
use cocos.Common.Exec.{Result, ok, err}
use cocos.Agent.Types.{Computation, Context, ResultConsumer}
use cocos.Auth.{
  UserRole, consumer, Crypto, PublicKey, Service, AuthError, decode_key, decode_keys, add_key,
  new_service, service_of, verify_signature, first_verified, authenticate_user, with_index,
}

module _ {K : Type 0} (c : Crypto K) where
  first_verified-get :
      (role : UserRole) (signature : String) (i : ℕ) (ks : List (PublicKey K)) (n : ℕ)
      → first_verified c role signature i ks ≡ some n
      → (k : ℕ) × (key : PublicKey K) × (n ≡ i + k)
        × (get_elem? ks k ≡ some key)
        × (verify_signature c role signature key ≡ none)
  unfolding first_verified
  first_verified-get role signature i [] n e = absurd (ground arith)
  first_verified-get role signature i (key ∷ ks) n e =
      elim (Option-cases (verify_signature c role signature key)) [
        | inl good ↦
            let hit : some i ≡ some n = rw (good, first_verified) at e in
            let same : i ≡ n = ground arith in (0, key, omega (arith, same), refl, good)
        | inr (x, bad) ↦
            let (k, found, p, q, r) =
              first_verified-get role signature (suc i) ks n (rw (bad, first_verified) at e) in
            (suc k, found, omega (arith, p), q, r)
      ]

  add_key-ok :
      (k : Result AuthError (PublicKey K)) (ks : Result AuthError (List (PublicKey K)))
      (l : List (PublicKey K))
      → add_key c k ks ≡ ok l
      → (x : PublicKey K) × (xs : List (PublicKey K)) × (k ≡ ok x) × (ks ≡ ok xs) × (l ≡ x ∷ xs)
  add_key-ok (err e) ks l h = absurd (ground arith)
  add_key-ok (ok k) (err e) l h = absurd (ground arith)
  add_key-ok (ok k) (ok ks) l h = (k, ks, refl, refl, ground arith)

  -- Every key that New keeps is decoded from the consumer's at the same index.
  decode_keys-get :
      (rs : List ResultConsumer) (ks : List (PublicKey K)) (i : ℕ) (key : PublicKey K)
      → decode_keys c (map (λ r. ResultConsumer.user_key r) rs) ≡ ok ks
      → get_elem? ks i ≡ some key
      → (r : ResultConsumer) × (get_elem? rs i ≡ some r) × (decode_key c r.user_key ≡ ok key)
  unfolding decode_keys
  decode_keys-get [] ks i key e g = absurd (none_in ks (ground arith) g)
    where
      none_in : (l : List (PublicKey K)) → l ≡ [] → get_elem? l i ≡ some key → ⊥
      none_in l p q = absurd (ground arith)
  decode_keys-get (r ∷ rs) ks i key e g =
      let (x, xs, p, q, s) =
        add_key-ok (decode_key c r.user_key)
          (decode_keys c (map (λ t. ResultConsumer.user_key t) rs)) ks e in
      at i x xs p (λ j h. decode_keys-get rs xs j key q h) (rw s at g)
    where
      at :
          (j : ℕ) (x : PublicKey K) (xs : List (PublicKey K))
          → decode_key c r.user_key ≡ ok x
          → ((i : ℕ)
              → get_elem? xs i ≡ some key
              → (t : ResultConsumer) × (get_elem? rs i ≡ some t)
                × (decode_key c t.user_key ≡ ok key))
          → get_elem? (x ∷ xs) j ≡ some key
          → (t : ResultConsumer) × (get_elem? (r ∷ rs) j ≡ some t)
            × (decode_key c t.user_key ≡ ok key)
      at zero x xs p again g = (r, refl, cc)
      at (suc j) x xs p again g = again j g

  service_of-ok :
      (cs ds : Result AuthError (List (PublicKey K))) (a : Result AuthError (PublicKey K))
      (s : Service K)
      → service_of c cs ds a ≡ ok s
      → cs ≡ ok s.result_consumers
  service_of-ok (err e) ds a s h = absurd (ground arith)
  service_of-ok (ok cs) (err e) a s h = absurd (ground arith)
  service_of-ok (ok cs) (ok ds) (err e) s h = absurd (ground arith)
  service_of-ok (ok cs) (ok ds) (ok a) s h = ground arith

  authenticate_consumer :
      (s : Service K) (headers : Option (List String)) (ctx after : Context)
      → authenticate_user c s headers ctx consumer ≡ ok after
      → (signature : String) × (i : ℕ) × (headers ≡ some (signature ∷ []))
        × (first_verified c consumer signature 0 s.result_consumers ≡ some i)
        × (after ≡ record ctx { manifest_index = some (pos i) })
  unfolding authenticate_user
  authenticate_consumer s none ctx after e = absurd (ground arith)
  authenticate_consumer s (some []) ctx after e = absurd (ground arith)
  authenticate_consumer s (some (x ∷ y ∷ l)) ctx after e = absurd (ground arith)
  authenticate_consumer s (some (x ∷ [])) ctx after e =
      elim (Option-cases (first_verified c consumer x 0 s.result_consumers)) [
        | inl missing ↦
            absurd (let bad : with_index c none ctx ≡ ok after = rw missing at e in ground arith)
        | inr (i, found) ↦
            let good : with_index c (some i) ctx ≡ ok after = rw found at e in
            (x, i, refl, found, ground arith)
      ]

  -- Whoever the service that New made of a manifest lets in as a consumer signed the role's name
  -- with the key of one of the manifest's consumers, and the context carries this consumer's index
  -- in the manifest.
  pub authenticate_user-consumer :
      (manifest : Computation) (s : Service K) (headers : Option (List String))
      (ctx after : Context)
      → new_service c manifest ≡ ok s
      → authenticate_user c s headers ctx consumer ≡ ok after
      → (signature : String) × (i : ℕ) × (r : ResultConsumer) × (key : PublicKey K) × (headers
          ≡ some (signature ∷ []))
        × (get_elem? manifest.result_consumers i ≡ some r)
        × (decode_key c r.user_key ≡ ok key)
        × (verify_signature c consumer signature key ≡ none)
        × (after ≡ record ctx { manifest_index = some (pos i) })
  unfolding new_service
  authenticate_user-consumer manifest s headers ctx after n e =
      let (signature, i, one, found, indexed) = authenticate_consumer s headers ctx after e in
      let (k, key, same, got, good) =
        first_verified-get consumer signature 0 s.result_consumers i found in
      let position : k ≡ i = omega (arith, same) in
      let (r, declared, decoded) =
        decode_keys-get manifest.result_consumers s.result_consumers i key (service_of-ok _ _ _ s n)
          (rw (← position) got) in
      (signature, i, r, key, one, declared, decoded, good, indexed)
