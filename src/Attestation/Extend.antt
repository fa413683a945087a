-- ===== src/Attestation/Extend.antt =====
-- pkg/attestation/vtpm/vtpm.go: ExtendPCR. cli/attestation_policy.go: extendWithManifest, which
-- writes the value that PCR 16 is expected to have into a policy. The hash functions are
-- parameters, and `extend` is what a TPM makes of a bank's value and a digest.
use cocos.Common.{
  ℕ, zero, suc, ◌≡◌, refl, sym, ap, ◌∙◌, ◌≢◌, inl, inr, Option, none, some, String, List, [], ◌∷◌,
  ◌++◌, Bytes, All, map, pos, arith, Assoc, lookup, insert, delete, lookup-insert, delete-insert,
  ◌==◌, nat_comparable, bytes_comparable, Bool-cases,
}
use cocos.Common.Exec.{Result, ok, err}
use cocos.Attestation.Hex.{Text, encode, decode, decode-encode, AreBytes, parse_int32, to_uint32}
use cocos.Attestation.Pcrs.{
  GoMap, entries, PcrValues, HashAlgo, sha256_bank, sha384_bank, Quote, or_nil, pcr_at, Agrees,
  check_expected_pcr_values, check_expected_pcr_values_iff,
}

pub record Hashes : Type 0 where
  pub sha512_256 : Bytes → Bytes
  pub sha384 : Bytes → Bytes
  pub sha3_256 : Bytes → Bytes
  pub sha3_384 : Bytes → Bytes

-- The banks of a TPM that ExtendPCR extends.
pub record Tpm : Type 0 where
  pub sha256_pcrs : Assoc ℕ Bytes
  pub sha384_pcrs : Assoc ℕ Bytes

pub record TpmIo : Type 0 where
  pub open_tpm : Option String
  pub extend_sha256 : Option String
  pub extend_sha384 : Option String

-- tpm2.PCRExtend on a bank
abbrev pub extended : (Bytes → Bytes → Bytes) → ℕ → Bytes → Assoc ℕ Bytes → Assoc ℕ Bytes
extended extend index digest pcrs = insert index (extend (or_nil (lookup index pcrs)) digest) pcrs

module _ (h : Hashes) (extend : HashAlgo → Bytes → Bytes → Bytes) where
  abbrev pub extend_second : Option String → ℕ → Bytes → Tpm → Option String × Tpm
  extend_second (some e) index value tpm = (some e, tpm)
  extend_second none index value tpm = (
    none,
    record tpm {
      sha384_pcrs = extended (extend sha384_bank) index (h.sha3_384 value) tpm.sha384_pcrs;
    },
  )

  abbrev pub extend_first : TpmIo → Option String → ℕ → Bytes → Tpm → Option String × Tpm
  extend_first io (some e) index value tpm = (some e, tpm)
  extend_first io none index value tpm = extend_second io.extend_sha384 index value (record tpm {
    sha256_pcrs = extended (extend sha256_bank) index (h.sha3_256 value) tpm.sha256_pcrs;
  })

  abbrev pub open_and_extend : TpmIo → Option String → ℕ → Bytes → Tpm → Option String × Tpm
  open_and_extend io (some e) index value tpm = (some e, tpm)
  open_and_extend io none index value tpm = extend_first io io.extend_sha256 index value tpm

  unfoldable pub extend_pcr : TpmIo → ℕ → Bytes → Tpm → Option String × Tpm
  extend_pcr io index value tpm = open_and_extend io io.open_tpm index value tpm

pub data CliError : Type 0 where
  decode_failed data_length reading_attestation_policy_file unmarshal_json marshal_json write_file
        attestation_policy_field reading_manifest_file decode_hex :
      CliError
  -- an assignment to a nil map
  panic : CliError

-- "16"
abbrev pub pcr16 : Text
pcr16 = 49 ∷ 54 ∷ []

-- strings.Repeat("0", n)
abbrev pub zero_text : ℕ → Text
zero_text zero = []
zero_text (suc n) = 48 ∷ zero_text n

abbrev pub or_zeros : ℕ → Option Text → Text
or_zeros n none = zero_text n
or_zeros n (some t) = t

-- The bytes that a policy expects in PCR 16, `n` zeros of text where it has none.
abbrev pub held : ℕ → GoMap → Option Bytes
held n m = decode (or_zeros n (lookup pcr16 (entries m)))

-- m["16"] = hex.EncodeToString(value)
abbrev pub assign : Bytes → GoMap → Result CliError GoMap
assign value none = err panic
assign value (some m) = ok (some (insert pcr16 (encode value) m))

module _ (h : Hashes) where
  abbrev pub next_256 : Bytes → Bytes → Bytes
  next_256 manifest value = h.sha512_256 (value ++ h.sha512_256 manifest)

  abbrev pub next_384 : Bytes → Bytes → Bytes
  next_384 manifest value = h.sha384 (value ++ h.sha384 manifest)

  abbrev pub both_maps :
      PcrValues → Result CliError GoMap → Result CliError GoMap → Result CliError PcrValues
  both_maps p (err e) m384 = err e
  both_maps p (ok m256) (err e) = err e
  both_maps p (ok m256) (ok m384) = ok (record p { sha256 = m256; sha384 = m384 })

  abbrev pub assign_both :
      Bytes → PcrValues → Option Bytes → Option Bytes → Result CliError PcrValues
  assign_both manifest p none value384 = err decode_hex
  assign_both manifest p (some value256) none = err decode_hex
  assign_both manifest p (some value256) (some value384) =
      both_maps p (assign (next_256 manifest value256) p.sha256)
        (assign (next_384 manifest value384) p.sha384)

  -- One round of the loop over the manifests.
  abbrev pub extend_manifest : Bytes → PcrValues → Result CliError PcrValues
  extend_manifest manifest p = assign_both manifest p (held 64 p.sha256) (held 96 p.sha384)

  abbrev pub continue :
      Result CliError PcrValues
      → (PcrValues → Result CliError PcrValues)
      → Result CliError PcrValues
  continue (err e) k = err e
  continue (ok p) k = k p

  abbrev pub read_manifest : Option Bytes → PcrValues → Result CliError PcrValues
  read_manifest none p = err reading_manifest_file
  read_manifest (some manifest) p = extend_manifest manifest p

  -- The loop, over what reading the manifests' files gives.
  unfoldable pub extend_manifests : List (Option Bytes) → PcrValues → Result CliError PcrValues
  extend_manifests [] p = ok p
  extend_manifests (file ∷ files) p = continue (read_manifest file p) (extend_manifests files)

-- A value that manifests extend one after another.
abbrev pub folded : (Bytes → Bytes → Bytes) → List Bytes → Bytes → Bytes
folded next [] value = value
folded next (m ∷ ms) value = folded next ms (next m value)

held-insert :
    (n : ℕ) (value : Bytes) (m : Assoc Text Text)
    → AreBytes value
    → held n (some (insert pcr16 (encode value) m)) ≡ some value
held-insert n value m b =
    ap (λ o. decode (or_zeros n o)) (lookup-insert pcr16 pcr16 (encode value) m)
    ∙ decode-encode value b

module _ (h : Hashes) (bytes256 : (x : Bytes) → AreBytes (h.sha512_256 x))
    (bytes384 : (x : Bytes) → AreBytes (h.sha384 x)) where
  -- A policy with both maps, whose texts for PCR 16 decode, and manifests that can be read: the
  -- policy then holds what extending these values by the manifests one after another gives, for
  -- SHA-512/256 in the map of SHA-256 and for SHA-384, and nothing else in it has changed.
  pub extend_manifests_lem :
      (manifests : List Bytes) (p : PcrValues) (m n : Assoc Text Text) (v w : Bytes)
      → p.sha256 ≡ some m
      → p.sha384 ≡ some n
      → held 64 p.sha256 ≡ some v
      → held 96 p.sha384 ≡ some w
      → (after : PcrValues) × (extend_manifests h (map some manifests) p ≡ ok after)
        × (held 64 after.sha256 ≡ some (folded (next_256 h) manifests v))
        × (held 96 after.sha384 ≡ some (folded (next_384 h) manifests w))
        × (delete pcr16 (entries after.sha256) ≡ delete pcr16 (entries p.sha256))
        × (delete pcr16 (entries after.sha384) ≡ delete pcr16 (entries p.sha384))
        × (after.sha1 ≡ p.sha1)
  unfolding extend_manifests
  extend_manifests_lem [] p m n v w e f a b = (p, refl, a, b, refl, refl, refl)
  extend_manifests_lem (x ∷ xs) p m n v w e f a b =
      let value = next_256 h x v in
      let value' = next_384 h x w in
      let (after, done, c, d, r, s, t) =
        extend_manifests_lem xs
          (record p {
            sha256 = some (insert pcr16 (encode value) m);
            sha384 = some (insert pcr16 (encode value') n);
          })
          (insert pcr16 (encode value) m) (insert pcr16 (encode value') n) value value' refl refl
          (held-insert 64 value m (bytes256 _)) (held-insert 96 value' n (bytes384 _)) in
      (
        after,
        rw (a, b, e, f) done,
        c,
        d,
        r ∙ delete-insert pcr16 (encode value) m ∙ ap (λ o. delete pcr16 (entries o)) (sym e),
        s ∙ delete-insert pcr16 (encode value') n ∙ ap (λ o. delete pcr16 (entries o)) (sym f),
        t,
      )

All-lookup :
    (q : Quote) (k v : Text) (m : Assoc Text Text)
    → All (Agrees q) m
    → lookup k m ≡ some v
    → Agrees q (k, v)
unfolding lookup
All-lookup q k v [] a e = absurd (ground arith)
All-lookup q k v ((here, text) ∷ m) a e = elim (Bool-cases (here == k)) [
  | inl hit ↦
      let same : here ≡ k = (bytes_comparable.equal_iff here k).0 hit in
      let value : some text ≡ some v = rw hit at e in
      let equal : text ≡ v = ground arith in rw (sym same, sym equal) a.0
  | inr miss ↦ All-lookup q k v m a.1 (rw miss at e)
]

quote_refused :
    (p : PcrValues) (m : Assoc Text Text) (pcrs : Assoc ℕ Bytes) (value found : Bytes)
    → p.sha256 ≡ some m
    → lookup pcr16 m ≡ some (encode value)
    → AreBytes value
    → lookup 16 pcrs ≡ some found
    → value ≢ found
    → check_expected_pcr_values (record { hash = sha256_bank; pcrs = pcrs } ∷ []) p ≢ ok tt
unfolding parse_int32 to_uint32
quote_refused p m pcrs value found e f b l different h =
    let quote : Quote = record { hash = sha256_bank; pcrs = pcrs } in
    let (held_map, same, agree) = ((check_expected_pcr_values_iff (quote ∷ []) p).0 h).0 in
    let sha256 : p.sha256 ≡ held_map = ground arith in
    let map_is : entries held_map ≡ m = ap entries (sym sha256 ∙ e) in
    let (index, parsed, decoded) = All-lookup quote pcr16 (encode value) m (rw map_is at agree) f in
    let index_is : pos 16 ≡ index = ground (arith, parsed) in
    let there : pcr_at (pos 16) pcrs ≡ found = rw l refl in
    let values : some value ≡ some (pcr_at index pcrs) = sym (decode-encode value b) ∙ decoded in
    different (ground (arith, values, there, ap (λ i. pcr_at i pcrs) index_is))

module _ (h : Hashes) (extend : HashAlgo → Bytes → Bytes → Bytes)
    (bytes256 : (x : Bytes) → AreBytes (h.sha512_256 x)) where
  -- A policy that holds the value of the TPM's PCR 16, which extendWithManifest extends by a
  -- manifest's file, while the agent extends the PCR by a computation: where SHA-512/256 of that
  -- value and the manifest's digest is not what the TPM makes of the value and the computation's
  -- SHA3-256 digest, the policy's values refuse the quote of the PCRs of SHA-256.
  pub extend_manifests-mismatch :
      (io : TpmIo) (manifest json : Bytes) (p : PcrValues) (m n : Assoc Text Text) (v w : Bytes)
      (tpm : Tpm)
      → p.sha256 ≡ some m
      → p.sha384 ≡ some n
      → held 64 p.sha256 ≡ some v
      → held 96 p.sha384 ≡ some w
      → io.open_tpm ≡ none
      → io.extend_sha256 ≡ none
      → io.extend_sha384 ≡ none
      → lookup 16 tpm.sha256_pcrs ≡ some v
      → h.sha512_256 (v ++ h.sha512_256 manifest) ≢ extend sha256_bank v (h.sha3_256 json)
      → (after : PcrValues) × (extend_manifests h (some manifest ∷ []) p ≡ ok after)
        × (check_expected_pcr_values
              (record {
                hash = sha256_bank;
                pcrs = (extend_pcr h extend io 16 json tpm).1.sha256_pcrs;
              }
                ∷ [])
              after
            ≢ ok tt)
  unfolding extend_manifests extend_pcr
  extend_manifests-mismatch io manifest json p m n v w tpm e f a b o s t l different =
      let value = next_256 h manifest v in
      let m' = insert pcr16 (encode value) m in
      (
        record p {
          sha256 = some m';
          sha384 = some (insert pcr16 (encode (next_384 h manifest w)) n);
        },
        rw (a, b, e, f) refl,
        rw (o, s, t, l)
            (quote_refused _ m' _ value (extend sha256_bank v (h.sha3_256 json)) refl
              (lookup-insert pcr16 pcr16 (encode value) m) (bytes256 _)
              (lookup-insert 16 16 (extend sha256_bank v (h.sha3_256 json)) tpm.sha256_pcrs)
              different),
      )
