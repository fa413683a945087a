-- ===== src/Attestation/Tests.antt =====
-- Witnesses on toy formats: a policy of JSON is the lengths and the bytes of its parts.
use cocos.Common.{
  ◌≡◌, refl, sym, ap, ◌∙◌, ◌↔◌, ◌≢◌, inl, inr, true, false, Option, none, some, [], ◌∷◌, ◌++◌,
  Bytes, All, map, take, drop, length, arith, Assoc, lookup, insert, nat_comparable,
  bytes_comparable, ◌==◌, if◌then◌else◌, Bool-cases,
}
use cocos.Common.Exec.{Result, ok, err}
use cocos.Attestation.Hex.{Text, encode, decode, parse_int32, to_uint32}
use cocos.Attestation.Pcrs.{
  GoMap, PcrValues, sha256_bank, HashAlgo, Quote, Expected, check_expected_pcr_values,
  check_expected_pcr_values_iff,
}
use cocos.Attestation.Extend.{
  Hashes, Tpm, TpmIo, pcr16, extend_pcr, extend_manifests, extend_manifests-mismatch,
}
use cocos.Attestation.Policy.{
  SnpPolicy, PolicyError, Config, Formats, FileIo, read_policy_from_byte, convert_policy_to_json,
  extend_with_manifest, Lawful, Ends,
}
use cocos.Attestation.Changes.{Extended, extend_with_manifest-Ends}
use cocos.Attestation.Reports.{
  SevGuest, milan, no_bundle, verify_report, validate_report, verify_and_validate,
  verify_attestation_report_tls,
}
use cocos.Attestation.Quotes.{
  TpmAttestation, TpmTools, VerifierPolicy, WriterIo, verify_quote, vtpm_verify,
}
use cocos.Attestation.Binding.{Hardware, Bound, vtpm_verify-Bound}
use cocos.Attestation.Flags.{
  SnpConfig, Flags, parse_attestation_config, parse_config, parse_hashes, parse_trusted_keys,
  parse_uints, validate_input,
}
use cocos.Attestation.Checked.{IsValid, parse_attestation_config-IsValid}

-- The text of a map that has PCR 16 only.
abbrev single : GoMap → Option Text
single none = none
single (some []) = none
single (some ((k, t) ∷ [])) = if k == pcr16 then some t else none
single (some (x ∷ y ∷ l)) = none

single-some : (m : GoMap) (t : Text) → single m ≡ some t → m ≡ some ((pcr16, t) ∷ [])
single-some none t h = absurd (ground arith)
single-some (some []) t h = absurd (ground arith)
single-some (some ((k, u) ∷ [])) t h = elim (Bool-cases (k == pcr16)) [
  | inr other ↦
      absurd (let bad : ◌≡◌ {A = Option Text} none (some t) = rw other at h in ground arith)
  | inl same ↦
      let key = (bytes_comparable.equal_iff k pcr16).0 same in
      let text : some u ≡ some t = rw same at h in
      let equal : u ≡ t = ground arith in rw (key, equal) refl
]
single-some (some (x ∷ y ∷ l)) t h = absurd (ground arith)

abbrev pair_of : Option Text → Option Text → Option Bytes
pair_of none u = none
pair_of (some t) none = none
pair_of (some t) (some u) = some (1 ∷ length t ∷ t ++ u)

abbrev marshal_pcrs : PcrValues → Option Bytes
marshal_pcrs p = elim p.sha1 [ none ↦ pair_of (single p.sha256) (single p.sha384) | some m ↦ none ]

abbrev marshal_check : Option (SnpPolicy (Unit {0})) → Unit {0} → Option Bytes
marshal_check none u = none
marshal_check (some p) u = some (0 ∷ length p.measurement ∷ p.measurement ++ p.host_data)

abbrev one_entry : Bytes → Option (Assoc Text Bytes)
one_entry [] = none
one_entry (tag ∷ b) = some ((tag ∷ [], b) ∷ [])

abbrev two_parts : Assoc Text Bytes → Option Bytes
two_parts ((k, a) ∷ (j, b) ∷ m) = some (length a ∷ a ++ b)
two_parts _ = none

abbrev policy_from : Bytes → Option (Option (SnpPolicy (Unit {0})) × Unit {0})
policy_from [] = none
policy_from (n ∷ b) =
    some (some (record { measurement = take n b; host_data = drop n b; others = tt }), tt)

abbrev pcrs_from : Bytes → Option PcrValues
pcrs_from [] = none
pcrs_from (n ∷ b) = some (record {
  sha256 = some ((pcr16, take n b) ∷ []);
  sha384 = some ((pcr16, drop n b) ∷ []);
  sha1 = none;
})

abbrev first_part : Bytes → Bytes
first_part [] = []
first_part (n ∷ b) = take n b

abbrev second_part : Bytes → Bytes
second_part [] = []
second_part (n ∷ b) = drop n b

abbrev formats : Formats (Unit {0}) (Unit {0}) Bytes
formats = record {
  unmarshal_check = λ b. policy_from (first_part b);
  marshal_check = marshal_check;
  unmarshal_pcrs = λ b. pcrs_from (second_part b);
  marshal_pcrs = marshal_pcrs;
  unmarshal_map = one_entry;
  marshal_map = two_parts;
  base64 = λ t. some (5 ∷ 6 ∷ []);
  no_others = tt;
}

take-length : (xs ys : Bytes) → take (length xs) (xs ++ ys) ≡ xs
take-length [] ys = refl
take-length (x ∷ xs) ys = ap (◌∷◌ x) (take-length xs ys)

drop-length : (xs ys : Bytes) → drop (length xs) (xs ++ ys) ≡ ys
drop-length [] ys = refl
drop-length (x ∷ xs) ys = drop-length xs ys

formats-Lawful : Lawful formats
unfolding convert_policy_to_json read_policy_from_byte insert
formats-Lawful c b h =
    parts c.policy c.pcr_values.sha1 (single c.pcr_values.sha256) (single c.pcr_values.sha384) refl
      refl refl refl h
  where
    same :
        (p : Option (SnpPolicy (Unit {0}))) (m n s : GoMap)
        → c.policy ≡ p
        → c.pcr_values.sha256 ≡ m
        → c.pcr_values.sha384 ≡ n
        → c.pcr_values.sha1 ≡ s
        → ◌≡◌ {A = Result PolicyError (Config (Unit {0}) (Unit {0}))}
            (ok (record {
              policy = p;
              rest = tt;
              pcr_values = record { sha256 = m; sha384 = n; sha1 = s };
            }))
            (ok c)
    same p m n s e f g k = rw (sym e, sym f, sym g, sym k) refl

    parts :
        (p : Option (SnpPolicy (Unit {0}))) (s : GoMap) (t u : Option Text)
        → c.policy ≡ p
        → c.pcr_values.sha1 ≡ s
        → single c.pcr_values.sha256 ≡ t
        → single c.pcr_values.sha384 ≡ u
        → convert_policy_to_json formats c ≡ ok b
        → read_policy_from_byte formats b ≡ ok c
    parts none s t u e f g k h = absurd (let bad = rw e at h in ground arith)
    parts (some p) (some s) t u e f g k h = absurd (let bad = rw (e, f) at h in ground arith)
    parts (some p) none none u e f g k h = absurd (let bad = rw (e, f, g) at h in ground arith)
    parts (some p) none (some t) none e f g k h =
        absurd (let bad = rw (e, f, g, k) at h in ground arith)
    parts (some p) none (some t) (some u) e f g k h =
        let maps = single-some c.pcr_values.sha256 t g in
        let maps' = single-some c.pcr_values.sha384 u k in
        let a = length p.measurement ∷ p.measurement ++ p.host_data in
        let d = length t ∷ t ++ u in
        let written : ok (length a ∷ a ++ d) ≡ ok b = rw (e, f, g, k) at h in
        let content : length a ∷ a ++ d ≡ b = ground arith in
        let front : first_part b ≡ a = ap first_part (sym content) ∙ take-length a d in
        let back : second_part b ≡ d = ap second_part (sym content) ∙ drop-length a d in
        rw (front, back)
          (rw
            (
              take-length p.measurement p.host_data,
              drop-length p.measurement p.host_data,
              take-length t u,
              drop-length t u,
            )
            (same (some p) (some ((pcr16, t) ∷ [])) (some ((pcr16, u) ∷ [])) none e maps maps' f))

abbrev policy_file : Bytes
policy_file = 2 ∷ 1 ∷ 7 ∷ 0 ∷ []

abbrev good_write : FileIo
good_write = record { write = none }

-- Hash functions of one byte.
abbrev hashes : Hashes
hashes = record {
  sha512_256 = λ b. 5 ∷ [];
  sha384 = λ b. 6 ∷ [];
  sha3_256 = λ b. 7 ∷ [];
  sha3_384 = λ b. 8 ∷ [];
}

extend_with_manifest-Ends_example :
    Ends formats (Extended formats hashes ((1 ∷ []) ∷ (2 ∷ []) ∷ [])) (some policy_file) (
      extend_with_manifest formats hashes good_write
        (map some ((1 ∷ []) ∷ (2 ∷ []) ∷ []))
        (some policy_file))
extend_with_manifest-Ends_example =
    extend_with_manifest-Ends formats hashes good_write (1 ∷ []) ((2 ∷ []) ∷ []) (some policy_file)
      formats-Lawful (λ x. (omega arith, tt)) (λ x. (omega arith, tt))

-- PCR 16 is one byte of zeros.
abbrev values : PcrValues
values = record {
  sha256 = some ((pcr16, encode (0 ∷ [])) ∷ []);
  sha384 = some ((pcr16, encode (0 ∷ [])) ∷ []);
  sha1 = none;
}

abbrev quote : Quote
quote = record { hash = sha256_bank; pcrs = (16, 0 ∷ []) ∷ [] }

check_expected_pcr_values_iff_example :
    (check_expected_pcr_values (quote ∷ []) values ≡ ok tt) ↔ All (Expected values) (quote ∷ [])
check_expected_pcr_values_iff_example = check_expected_pcr_values_iff (quote ∷ []) values

abbrev tpm : Tpm
tpm = record { sha256_pcrs = (16, 0 ∷ []) ∷ []; sha384_pcrs = [] }

abbrev tpm_io : TpmIo
tpm_io = record { open_tpm = none; extend_sha256 = none; extend_sha384 = none }

abbrev tpm_extend : HashAlgo → Bytes → Bytes → Bytes
tpm_extend bank value digest = value ++ digest

extend_manifests-mismatch_example :
    (after : PcrValues) × (extend_manifests hashes (some (1 ∷ []) ∷ []) values ≡ ok after)
    × (check_expected_pcr_values
          (record {
            hash = sha256_bank;
            pcrs = (extend_pcr hashes tpm_extend tpm_io 16 (1 ∷ []) tpm).1.sha256_pcrs;
          }
            ∷ [])
          after
        ≢ ok tt)
unfolding encode decode lookup
extend_manifests-mismatch_example =
    extend_manifests-mismatch hashes tpm_extend (λ x. (omega arith, tt)) tpm_io (1 ∷ []) (1 ∷ [])
      values ((pcr16, encode (0 ∷ [])) ∷ []) ((pcr16, encode (0 ∷ [])) ∷ []) (0 ∷ []) (0 ∷ []) tpm
      refl refl refl refl refl refl refl refl (λ e. absurd (ground arith))

-- A report is its report data, and the digest of bytes is these bytes after a 9.
abbrev guest : SevGuest Bytes (Unit {0})
guest = record {
  root_of_trust_to_options = λ c. true;
  policy_to_options = λ c. true;
  user_home_dir = true;
  bundle_of = λ line. no_bundle;
  verify_snp = λ a c name. true;
  validate_snp = λ a c. a.report == c.report_data;
}

abbrev bare : TpmAttestation Bytes
bare = record { ak_pub = 3 ∷ []; quotes = quote ∷ []; nonce = 4 ∷ []; snp_attestation = none }

abbrev bound : TpmAttestation Bytes
bound = record bare {
  snp_attestation = some (record { report = 9 ∷ 2 ∷ 3 ∷ []; certificate_chain = none });
}

abbrev tools : TpmAttestation Bytes → TpmTools Bytes
tools a = record {
  unmarshal = λ b. some a;
  marshal = λ a. some (1 ∷ []);
  decode_public = λ b. true;
  public_key = λ b. true;
  verify_attestation = λ a nonce. a.nonce == nonce;
  sha3_512 = λ b. 9 ∷ b;
}

abbrev policy : VerifierPolicy (Unit {0})
policy = record {
  check_config = record { report_data = []; product = some milan; product_line = ""; others = tt };
  pcr_values = values;
}

abbrev writer : WriterIo
writer = record { has_writer = false; marshals = true; writes = true }

vtpm_verify-Bound_example :
    (a : TpmAttestation Bytes) × ((tools bound).unmarshal (1 ∷ []) ≡ some a)
    × ((tools bound).verify_attestation a (4 ∷ []) ≡ true)
    × All (Expected policy.pcr_values) a.quotes
    × Bound (tools bound) guest (λ r. r) (2 ∷ []) a
unfolding vtpm_verify verify_quote verify_attestation_report_tls verify_and_validate verify_report
    validate_report check_expected_pcr_values encode decode lookup parse_int32 to_uint32
vtpm_verify-Bound_example =
    vtpm_verify-Bound (tools bound) guest (λ r. r) writer (1 ∷ []) (2 ∷ []) (4 ∷ []) policy
      (λ r cfg v n. (bytes_comparable.equal_iff r.report cfg.report_data).0 v)
      (λ x e. absurd (ground arith)) refl

abbrev hardware : Hardware Bytes
hardware = record { tpm = λ nonce. ok bare; sev = λ b. err "no device" }

abbrev snp_config : SnpConfig
snp_config = record {
  cabundle_paths = [];
  cabundles = "pem" ∷ [];
  product_line = "Milan";
  product = some none;
  platform_info = none;
  report_data = none;
  host_data = none;
  family_id = none;
  image_id = none;
  report_id = none;
  report_id_ma = none;
  measurement = none;
  chip_id = none;
  trusted_author_keys = [];
  trusted_id_keys = [];
  trusted_author_key_hashes = [];
  trusted_id_key_hashes = [];
}

-- A stepping of 7, and a key's file.
abbrev flags : Flags
flags = record {
  cfg_string = "";
  config_file = none;
  trusted_author_hashes = [];
  trusted_id_key_hashes = [];
  author_key_files = some (1 ∷ []) ∷ [];
  id_key_files = [];
  stepping = 55 ∷ [];
  platform_info = [];
}

abbrev parsed_config : SnpConfig
parsed_config = record snp_config { product = some (some 7); trusted_author_keys = (1 ∷ []) ∷ [] }

parse_attestation_config-IsValid_example : IsValid parsed_config
unfolding parse_attestation_config parse_config parse_hashes parse_trusted_keys parse_uints
    validate_input
parse_attestation_config-IsValid_example =
    parse_attestation_config-IsValid flags snp_config parsed_config refl
