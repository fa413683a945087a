-- ===== src/Attestation/Policy.antt =====
-- pkg/attestation/vtpm/vtpm.go: how a policy is read and written. cli/attestation_policy.go: the
-- commands that change a policy's file. `S` is the rest of the SEV-SNP policy, `R` the rest of the
-- configuration, `J` a value of JSON; encoding/json, protojson and base64 are the fields of
-- `Formats`.
use cocos.Common.{
  ℕ, ◌≡◌, refl, ◌⊎◌, inl, inr, ◌≢◌, Option, none, some, String, List, [], ◌∷◌, Bytes, arith, Assoc,
  insert, length, eqb, ◌==◌, string_comparable, if◌then◌else◌, bytes_comparable,
}
use cocos.Common.Exec.{Result, ok, err}
use cocos.Attestation.Hex.{Text}
use cocos.Attestation.Pcrs.{PcrValues}
use cocos.Attestation.Extend.{
  Hashes, CliError, decode_failed, data_length, reading_attestation_policy_file, unmarshal_json,
  marshal_json, write_file, attestation_policy_field, extend_manifests,
}

pub record SnpPolicy (S : Type 0) : Type 0 where
  pub measurement : Bytes
  pub host_data : Bytes
  pub others : S

-- check.Config, whose policy may be nil, and PcrConfig.
pub record Config (S R : Type 0) : Type 0 where
  pub policy : Option (SnpPolicy S)
  pub rest : R
  pub pcr_values : PcrValues

pub record Formats (S R J : Type 0) : Type 0 where
  -- protojson on check.Config
  pub unmarshal_check : Bytes → Option (Option (SnpPolicy S) × R)
  pub marshal_check : Option (SnpPolicy S) → R → Option Bytes
  -- encoding/json on PcrConfig, and on map[string]any
  pub unmarshal_pcrs : Bytes → Option PcrValues
  pub marshal_pcrs : PcrValues → Option Bytes
  pub unmarshal_map : Bytes → Option (Assoc Text J)
  pub marshal_map : Assoc Text J → Option Bytes
  pub base64 : String → Option Bytes
  pub no_others : S

pub data PolicyError : Type 0 where
  policy_missing policy_open policy_decode proto_marshal_failed json_unmarshal_failed
        json_marshal_failed :
      PolicyError

pub data FieldType : Type 0 where
  measurement_field host_data_field : FieldType
  unknown_field : ℕ → FieldType

-- for k, v := range pcrMap { pbMap[k] = v }
abbrev pub merge : {J : Type 0} → Assoc Text J → Assoc Text J → Assoc Text J
merge [] pb = pb
merge ((k, v) ∷ pcrs) pb = merge pcrs (insert k v pb)

-- How the policy's file answers a read and a write; what a failed write leaves.
pub record FileIo : Type 0 where
  pub write : Option (Option Bytes)

module _ {S R J : Type 0} (f : Formats S R J) where
  abbrev pub both_read :
      Option (Option (SnpPolicy S) × R) → Option PcrValues → Result PolicyError (Config S R)
  both_read none pcrs = err policy_decode
  both_read (some c) none = err policy_decode
  both_read (some (policy, rest)) (some pcrs) =
      ok (record { policy = policy; rest = rest; pcr_values = pcrs })

  unfoldable pub read_policy_from_byte : Bytes → Result PolicyError (Config S R)
  read_policy_from_byte b = both_read (f.unmarshal_check b) (f.unmarshal_pcrs b)

  abbrev pub read_opened : Option Bytes → Result PolicyError (Config S R)
  read_opened none = err policy_open
  read_opened (some b) = read_policy_from_byte b

  -- ReadPolicy, with the path and what os.ReadFile finds there.
  unfoldable pub read_policy : String → Option Bytes → Result PolicyError (Config S R)
  unfolding read_policy_from_byte
  read_policy path file = if path == "" then err policy_missing else read_opened file

  abbrev pub as_map : PolicyError → Option Bytes → Result PolicyError (Assoc Text J)
  as_map e none = err e
  as_map e (some b) = elim (f.unmarshal_map b) [ none ↦ err json_unmarshal_failed | some m ↦ ok m ]

  abbrev pub marshalled : Assoc Text J → Result PolicyError Bytes
  marshalled m = elim (f.marshal_map m) [ none ↦ err json_marshal_failed | some b ↦ ok b ]

  abbrev pub merged :
      Result PolicyError (Assoc Text J)
      → Result PolicyError (Assoc Text J)
      → Result PolicyError Bytes
  merged (err e) pcrs = err e
  merged (ok pb) (err e) = err e
  merged (ok pb) (ok pcrs) = marshalled (merge pcrs pb)

  unfoldable pub convert_policy_to_json : Config S R → Result PolicyError Bytes
  convert_policy_to_json c =
      merged (as_map proto_marshal_failed (f.marshal_check c.policy c.rest))
        (as_map json_marshal_failed (f.marshal_pcrs c.pcr_values))

  -- What a command returns, and the policy's file after it.
  abbrev pub Changed : Type 0
  Changed = Option CliError × Option Bytes

  abbrev pub write_back : FileIo → Option Bytes → Result PolicyError Bytes → Changed
  write_back io file (err e) = (some marshal_json, file)
  write_back io file (ok b) = elim io.write [
    | none ↦ (none, some b)
    | some left ↦ (some write_file, left)
  ]

  abbrev pub store : FileIo → Option Bytes → Result CliError (Config S R) → Changed
  store io file (err e) = (some e, file)
  store io file (ok c) = write_back io file (convert_policy_to_json c)

  abbrev pub change_read :
      FileIo
      → (Config S R → Result CliError (Config S R))
      → Option Bytes
      → Result PolicyError (Config S R)
      → Changed
  change_read io change file (err e) = (some unmarshal_json, file)
  change_read io change file (ok c) = store io file (change c)

  -- The file's content is read, decoded, changed, encoded and written.
  abbrev pub change_file :
      FileIo → (Config S R → Result CliError (Config S R)) → Option Bytes → Changed
  change_file io change none = (some reading_attestation_policy_file, none)
  change_file io change (some b) = change_read io change (some b) (read_policy_from_byte b)

  abbrev pub or_empty : Option (SnpPolicy S) → SnpPolicy S
  or_empty none = record { measurement = []; host_data = []; others = f.no_others }
  or_empty (some p) = p

  abbrev pub set_field : FieldType → Bytes → Config S R → Result CliError (Config S R)
  set_field measurement_field data' c =
      ok (record c { policy = some (record (or_empty c.policy) { measurement = data' }) })
  set_field host_data_field data' c =
      ok (record c { policy = some (record (or_empty c.policy) { host_data = data' }) })
  set_field (unknown_field n) data' c = err attestation_policy_field

  abbrev pub change_decoded : FileIo → ℕ → FieldType → Option Bytes → Option Bytes → Changed
  change_decoded io expected_length field file none = (some decode_failed, file)
  change_decoded io expected_length field file (some data') =
      if eqb (length data') expected_length
      then change_file io (set_field field data') file
      else (some data_length, file)

  unfoldable pub change_attestation_configuration :
      FileIo → String → ℕ → FieldType → Option Bytes → Changed
  unfolding read_policy_from_byte convert_policy_to_json
  change_attestation_configuration io base64_data expected_length field file =
      change_decoded io expected_length field file (f.base64 base64_data)

  abbrev pub with_pcrs : Config S R → Result CliError PcrValues → Result CliError (Config S R)
  with_pcrs c (err e) = err e
  with_pcrs c (ok p) = ok (record c { pcr_values = p })

  unfoldable pub extend_with_manifest :
      Hashes → FileIo → List (Option Bytes) → Option Bytes → Changed
  unfolding read_policy_from_byte convert_policy_to_json extend_manifests
  extend_with_manifest h io manifests file =
      change_file io (λ c. with_pcrs c (extend_manifests h manifests c.pcr_values)) file

  -- What is written is read again as it was.
  abbrev pub Lawful : Type 0
  Lawful =
      (c : Config S R) (b : Bytes)
      → convert_policy_to_json c ≡ ok b
      → read_policy_from_byte b ≡ ok c

  -- How a command ends: the file has the changed policy, the write failed, or nothing was written.
  abbrev pub Ends : (Config S R → Config S R → Type 0) → Option Bytes → Changed → Type 0
  Ends Change file (answer, after) =
      ((answer ≡ none)
        × ((before : Bytes) × (c : Config S R) × (b : Bytes) × (d : Config S R) × (file
              ≡ some before)
            × (read_policy_from_byte before ≡ ok c)
            × (after ≡ some b)
            × (read_policy_from_byte b ≡ ok d)
            × Change c d))
      ⊎ (answer ≡ some write_file)
      ⊎ ((answer ≢ none) × (after ≡ file))

  pub change_file-Ends :
      (Change : Config S R → Config S R → Type 0) (io : FileIo)
      (change : Config S R → Result CliError (Config S R)) (file : Option Bytes)
      → Lawful
      → ((c d : Config S R) → change c ≡ ok d → Change c d)
      → Ends Change file (change_file io change file)
  change_file-Ends Change io change none lawful fine = inr (inr (λ e. absurd (ground arith), refl))
  change_file-Ends Change io change (some before) lawful fine =
      read (read_policy_from_byte before) refl
    where
      written :
          (c d : Config S R) (r : Result PolicyError Bytes)
          → read_policy_from_byte before ≡ ok c
          → change c ≡ ok d
          → convert_policy_to_json d ≡ r
          → Ends Change (some before) (write_back io (some before) r)
      written c d (err e) h k l = inr (inr (λ e. absurd (ground arith), refl))
      written c d (ok b) h k l = answered io.write
        where
          answered :
              (o : Option (Option Bytes))
              → Ends Change
                  (some before)
                  (elim o [ none ↦ (none, some b) | some left ↦ (some write_file, left) ])
          answered none = inl (refl, (before, c, b, d, refl, h, refl, lawful d b l, fine c d k))
          answered (some left) = inr (inl refl)

      changed :
          (c : Config S R) (r : Result CliError (Config S R))
          → read_policy_from_byte before ≡ ok c
          → change c ≡ r
          → Ends Change (some before) (store io (some before) r)
      changed c (err e) h k = inr (inr (λ e. absurd (ground arith), refl))
      changed c (ok d) h k = written c d (convert_policy_to_json d) h k refl

      read :
          (r : Result PolicyError (Config S R))
          → read_policy_from_byte before ≡ r
          → Ends Change (some before) (change_read io change (some before) r)
      read (err e) h = inr (inr (λ e. absurd (ground arith), refl))
      read (ok c) h = changed c (change c) h refl
