-- ===== src/Attestation/Changes.antt =====
-- cli/attestation_policy.go: what the commands do to a policy's file.
use cocos.Common.{
  ℕ, ◌≡◌, refl, sym, inl, inr, Option, none, some, String, List, ◌∷◌, Bytes, map, arith, Assoc,
  delete, length, eqb, Bool-cases, bytes_comparable,
}
use cocos.Common.Exec.{Result, ok, err}
use cocos.Attestation.Hex.{Text, AreBytes}
use cocos.Attestation.Pcrs.{GoMap, entries, PcrValues}
use cocos.Attestation.Extend.{
  Hashes, CliError, pcr16, held, next_256, next_384, folded, extend_manifests, extend_manifests_lem,
  continue, assign_both,
}
use cocos.Attestation.Policy.{
  SnpPolicy, Config, Formats, FieldType, measurement_field, host_data_field, unknown_field, FileIo,
  or_empty, set_field, change_attestation_configuration, change_decoded, extend_with_manifest,
  with_pcrs, Lawful, Ends, change_file-Ends,
}

module _ {S R J : Type 0} (f : Formats S R J) where
  -- One field is the decoded text, and all else is as it was.
  abbrev pub FieldChanged : FieldType → Bytes → Config S R → Config S R → Type 0
  FieldChanged field data' c d =
      (p : SnpPolicy S) × (d.policy ≡ some p)
      × OneField field p (or_empty f c.policy)
      × (d.rest ≡ c.rest)
      × (d.pcr_values ≡ c.pcr_values)
    where
      OneField : FieldType → SnpPolicy S → SnpPolicy S → Type 0
      OneField measurement_field p q =
          (p.measurement ≡ data') × (p.host_data ≡ q.host_data) × (p.others ≡ q.others)
      OneField host_data_field p q =
          (p.measurement ≡ q.measurement) × (p.host_data ≡ data') × (p.others ≡ q.others)
      OneField (unknown_field n) p q = ⊥

  set_field-FieldChanged :
      (field : FieldType) (data' : Bytes) (c d : Config S R)
      → set_field f field data' c ≡ ok d
      → FieldChanged field data' c d
  set_field-FieldChanged measurement_field data' c d e =
      let same : record c { policy = some (record (or_empty f c.policy) { measurement = data' }) }
          ≡ d =
        ground arith in
      rw (sym same)
        (record (or_empty f c.policy) { measurement = data' }, refl, (refl, refl, refl), refl, refl)
  set_field-FieldChanged host_data_field data' c d e =
      let same : record c { policy = some (record (or_empty f c.policy) { host_data = data' }) }
          ≡ d =
        ground arith in
      rw (sym same)
        (record (or_empty f c.policy) { host_data = data' }, refl, (refl, refl, refl), refl, refl)
  set_field-FieldChanged (unknown_field n) data' c d e = absurd (ground arith)

  -- changeAttestationConfiguration, where what is encoded is decoded again: it succeeds only on a
  -- text of the expected length, and the file then has the policy of before with this one field
  -- changed; otherwise the write failed, or there is an error and the file is as it was.
  pub change_attestation_configuration-Ends :
      (io : FileIo) (text : String) (expected_length : ℕ) (field : FieldType) (file : Option Bytes)
      → Lawful f
      → Ends f
          (λ c d.
            (data' : Bytes) × (f.base64 text ≡ some data')
            × (length data' ≡ expected_length)
            × FieldChanged field data' c d)
          file
          (change_attestation_configuration f io text expected_length field file)
  unfolding change_attestation_configuration
  change_attestation_configuration-Ends io text n field file lawful = decoded (f.base64 text) refl
    where
      Change : Config S R → Config S R → Type 0
      Change c d =
          (data' : Bytes) × (f.base64 text ≡ some data')
          × (length data' ≡ n)
          × FieldChanged field data' c d

      decoded :
          (o : Option Bytes)
          → f.base64 text ≡ o
          → Ends f Change file (change_decoded f io n field file o)
      decoded none e = inr (inr (λ h. absurd (ground arith), refl))
      decoded (some data') e = elim (Bool-cases (eqb (length data') n)) [
        | inr other ↦ rw other (inr (inr (λ h. absurd (ground arith), refl)))
        | inl same ↦ rw same (
            change_file-Ends f Change io (set_field f field data') file lawful
              (λ c d k. (data', e, ground arith, set_field-FieldChanged field data' c d k)))
      ]

  -- PCR 16 is extended by each manifest, and all else is as it was.
  abbrev pub Extended : Hashes → List Bytes → Config S R → Config S R → Type 0
  Extended h manifests c d =
      (v : Bytes) × (w : Bytes) × (held 64 c.pcr_values.sha256 ≡ some v)
      × (held 96 c.pcr_values.sha384 ≡ some w)
      × (held 64 d.pcr_values.sha256 ≡ some (folded (next_256 h) manifests v))
      × (held 96 d.pcr_values.sha384 ≡ some (folded (next_384 h) manifests w))
      × (delete pcr16 (entries d.pcr_values.sha256) ≡ delete pcr16 (entries c.pcr_values.sha256))
      × (delete pcr16 (entries d.pcr_values.sha384) ≡ delete pcr16 (entries c.pcr_values.sha384))
      × (d.pcr_values.sha1 ≡ c.pcr_values.sha1)
      × (d.policy ≡ c.policy)
      × (d.rest ≡ c.rest)

-- A round that succeeds had both maps, and texts that decode.
abbrev Extendable : PcrValues → Type 0
Extendable p =
    (m : Assoc Text Text) × (n : Assoc Text Text) × (v : Bytes) × (w : Bytes) × (p.sha256 ≡ some m)
    × (p.sha384 ≡ some n)
    × (held 64 p.sha256 ≡ some v)
    × (held 96 p.sha384 ≡ some w)

extend_manifests-Extendable :
    (h : Hashes) (x : Bytes) (xs : List Bytes) (p q : PcrValues)
    → extend_manifests h (map some (x ∷ xs)) p ≡ ok q
    → Extendable p
unfolding extend_manifests
extend_manifests-Extendable h x xs p q e =
    parts p.sha256 p.sha384 (held 64 p.sha256) (held 96 p.sha384) refl refl e
  where
    parts :
        (m n : GoMap) (v w : Option Bytes)
        → held 64 m ≡ v
        → held 96 n ≡ w
        → continue h
            (assign_both h x (record { sha256 = m; sha384 = n; sha1 = p.sha1 }) v w)
            (extend_manifests h (map some xs))
          ≡ ok q
        → Extendable (record { sha256 = m; sha384 = n; sha1 = p.sha1 })
    parts m n none w a b r = absurd (ground arith)
    parts m n (some v) none a b r = absurd (ground arith)
    parts none n (some v) (some w) a b r = absurd (ground arith)
    parts (some m) none (some v) (some w) a b r = absurd (ground arith)
    parts (some m) (some n) (some v) (some w) a b r = (m, n, v, w, refl, refl, a, b)

module _ {S R J : Type 0} (f : Formats S R J) where
  -- extendWithManifest, where what is encoded is decoded again and the hash functions give bytes,
  -- on manifests that can be read: when it succeeds, the file has the policy of before with both
  -- values of PCR 16 extended by the manifests in their order; otherwise the write failed, or there
  -- is an error and the file is as it was.
  pub extend_with_manifest-Ends :
      (h : Hashes) (io : FileIo) (manifest : Bytes) (more : List Bytes) (file : Option Bytes)
      → Lawful f
      → ((x : Bytes) → AreBytes (h.sha512_256 x))
      → ((x : Bytes) → AreBytes (h.sha384 x))
      → Ends f
          (Extended f h (manifest ∷ more))
          file
          (extend_with_manifest f h io (map some (manifest ∷ more)) file)
  unfolding extend_with_manifest
  extend_with_manifest-Ends h io x xs file lawful b256 b384 =
      change_file-Ends f (Extended f h (x ∷ xs)) io _ file lawful
        (λ c d e. changed c d (extend_manifests h (map some (x ∷ xs)) c.pcr_values) refl e)
    where
      changed :
          (c d : Config S R) (r : Result CliError PcrValues)
          → extend_manifests h (map some (x ∷ xs)) c.pcr_values ≡ r
          → with_pcrs f c r ≡ ok d
          → Extended f h (x ∷ xs) c d
      changed c d (err e) g k = absurd (ground arith)
      changed c d (ok p) g k =
          let (m, n, v, w, e, e', a, b) = extend_manifests-Extendable h x xs c.pcr_values p g in
          let (after, done, r, s, t, u, y) =
            extend_manifests_lem h b256 b384 (x ∷ xs) c.pcr_values m n v w e e' a b in
          let result : p ≡ after = ground (arith, g, done) in
          let new : record c { pcr_values = p } ≡ d = ground arith in
          rw (sym new, result) (v, w, a, b, r, s, t, u, y, refl, refl)
