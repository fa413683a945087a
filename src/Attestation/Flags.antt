-- ===== src/Attestation/Flags.antt =====
-- cli/attestation_snp.go and cli/attestation.go: the flags of the verification of a SEV-SNP report,
-- read into a policy and checked. A nil slice is `none`; a string of Go is its bytes.
use cocos.Common.{
  ℕ, ◌+◌, ◌-◌, ◌*◌, Bool, true, false, not, ◌&&◌, ◌||◌, Option, none, some, String, List, [], ◌∷◌,
  ◌++◌, Bytes, map, take, drop, length, ltb, eqb, ◌==◌, bytes_comparable, string_comparable,
  if◌then◌else◌,
}
use cocos.Common.Exec.{Result, ok, err}
use cocos.Attestation.Hex.{Text, decode, within}

-- The parts of check.Config that the flags set; `product` is its machine stepping.
pub record SnpConfig : Type 0 where
  pub cabundle_paths : List String
  pub cabundles : List String
  pub product_line : String
  pub product : Option (Option ℕ)
  pub platform_info : Option ℕ
  pub report_data : Option Bytes
  pub host_data : Option Bytes
  pub family_id : Option Bytes
  pub image_id : Option Bytes
  pub report_id : Option Bytes
  pub report_id_ma : Option Bytes
  pub measurement : Option Bytes
  pub chip_id : Option Bytes
  pub trusted_author_keys : List Bytes
  pub trusted_id_keys : List Bytes
  pub trusted_author_key_hashes : List Bytes
  pub trusted_id_key_hashes : List Bytes

pub data FlagError : Type 0 where
  product_name_missing : FlagError
  wrong_length : String → FlagError
  config_unread hash_undecoded key_unread not_a_number : FlagError
  -- a nil product
  panic : FlagError

abbrev pub Field : Type 0
Field = String × Option Bytes × ℕ

-- validateFieldLength, on one field after another
abbrev pub validate_field_length : Option Bytes → ℕ → Bool
validate_field_length none n = true
validate_field_length (some b) n = eqb (length b) n

abbrev pub check_fields : List Field → Option FlagError
check_fields [] = none
check_fields ((name, field, n) ∷ fs) =
    let rest = check_fields fs in
    if validate_field_length field n then rest else some (wrong_length name)

abbrev pub policy_fields : SnpConfig → List Field
policy_fields c =
    ("report_data", c.report_data, 64)
    ∷ ("host_data", c.host_data, 32)
    ∷ ("family_id", c.family_id, 16)
    ∷ ("image_id", c.image_id, 16)
    ∷ ("report_id", c.report_id, 32)
    ∷ ("report_id_ma", c.report_id_ma, 32)
    ∷ ("measurement", c.measurement, 48)
    ∷ ("chip_id", c.chip_id, 64)
    ∷ []

abbrev pub hash_fields : String → List Bytes → List Field
hash_fields name hashes = map (λ h. (name, some h, 48)) hashes

abbrev pub null : List String → Bool
null [] = true
null (x ∷ xs) = false

-- The first condition binds as `paths || (bundles && product == "")`.
unfoldable pub validate_input : SnpConfig → Option FlagError
validate_input c =
    if not (null c.cabundle_paths) || not (null c.cabundles) && c.product_line == ""
    then some product_name_missing
    else check_fields (
        policy_fields c
        ++ hash_fields "trusted_author_key_hash" c.trusted_author_key_hashes
        ++ hash_fields "trusted_id_key_hash" c.trusted_id_key_hashes)

abbrev pub decode_hashes : List Text → Option (List Bytes)
decode_hashes [] = some []
decode_hashes (t ∷ ts) = elim (decode t) [
  | none ↦ none
  | some h ↦ elim (decode_hashes ts) [ none ↦ none | some hs ↦ some (h ∷ hs) ]
]

abbrev pub all_read : List (Option Bytes) → Option (List Bytes)
all_read [] = some []
all_read (none ∷ fs) = none
all_read (some f ∷ fs) = elim (all_read fs) [ none ↦ none | some l ↦ some (f ∷ l) ]

abbrev pub get_base : Text → ℕ
get_base t =
    let prefix = take 2 t in
    if prefix == 48 ∷ 120 ∷ []
    then 16
    else if prefix == 48 ∷ 111 ∷ []
    then 8
    else if prefix == 48 ∷ 98 ∷ []
    then 2
    else 10

-- The value of a digit, or of a letter.
abbrev pub digit_value : ℕ → ℕ
digit_value c =
    if within 48 57 c
    then c - 48
    else if within 97 122 c
    then c - 87
    else if within 65 90 c
    then c - 55
    else 255

abbrev pub digits_in : ℕ → ℕ → Text → Option ℕ
digits_in base n [] = some n
digits_in base n (c ∷ cs) =
    let rest = digits_in base (n * base + digit_value c) cs in
    if ltb (digit_value c) base then rest else none

abbrev pub below_256 : Option ℕ → Option ℕ
below_256 none = none
below_256 (some n) = if ltb n 256 then some n else none

-- strconv.ParseUint(text, base, 8)
abbrev pub parse_uint8 : ℕ → Text → Option ℕ
parse_uint8 base [] = none
parse_uint8 base (c ∷ cs) = below_256 (digits_in base 0 (c ∷ cs))

abbrev pub parse_flag : Text → Option ℕ
parse_flag t = if eqb (get_base t) 10 then parse_uint8 10 t else parse_uint8 (get_base t) (drop 2 t)

-- The flags that the parsers read.
pub record Flags : Type 0 where
  pub cfg_string : String
  -- protojson's result on the file that it names
  pub config_file : Option SnpConfig
  pub trusted_author_hashes : List Text
  pub trusted_id_key_hashes : List Text
  -- what reading the key files gives
  pub author_key_files : List (Option Bytes)
  pub id_key_files : List (Option Bytes)
  pub stepping : Text
  pub platform_info : Text

abbrev pub Parsed : Type 0
Parsed = Result FlagError SnpConfig

unfoldable pub parse_config : Flags → SnpConfig → Parsed
parse_config f c =
    if f.cfg_string == ""
    then ok c
    else elim f.config_file [ none ↦ err config_unread | some d ↦ ok d ]

unfoldable pub parse_hashes : Flags → SnpConfig → Parsed
parse_hashes f c = elim (decode_hashes f.trusted_author_hashes) [
  | none ↦ err hash_undecoded
  | some hs ↦ elim (decode_hashes f.trusted_id_key_hashes) [
    | none ↦ err hash_undecoded
    | some is ↦ ok (record c {
      trusted_author_key_hashes = c.trusted_author_key_hashes ++ hs;
      trusted_id_key_hashes = c.trusted_id_key_hashes ++ is;
    })
  ]
]

unfoldable pub parse_trusted_keys : Flags → SnpConfig → Parsed
parse_trusted_keys f c = elim (all_read f.author_key_files) [
  | none ↦ err key_unread
  | some ks ↦ elim (all_read f.id_key_files) [
    | none ↦ err key_unread
    | some is ↦ ok (record c {
      trusted_author_keys = c.trusted_author_keys ++ ks;
      trusted_id_keys = c.trusted_id_keys ++ is;
    })
  ]
]

-- cfg.Policy.Product.MachineStepping = num
abbrev pub set_stepping : SnpConfig → Option ℕ → Parsed
set_stepping c none = err not_a_number
set_stepping c (some n) = elim c.product [
  | none ↦ err panic
  | some p ↦ ok (record c { product = some (some n) })
]

abbrev pub set_platform_info : SnpConfig → Option ℕ → Parsed
set_platform_info c none = err not_a_number
set_platform_info c (some n) = ok (record c { platform_info = some n })

abbrev pub then_parse : Parsed → (SnpConfig → Parsed) → Parsed
then_parse (err e) k = err e
then_parse (ok c) k = k c

unfoldable pub parse_uints : Flags → SnpConfig → Parsed
parse_uints f c =
    then_parse (if f.stepping == [] then ok c else set_stepping c (parse_flag f.stepping)) (λ d.
      if f.platform_info == [] then ok d else set_platform_info d (parse_flag f.platform_info))

abbrev pub checked : Option FlagError → SnpConfig → Parsed
checked none c = ok c
checked (some e) c = err e

unfoldable pub parse_attestation_config : Flags → SnpConfig → Parsed
unfolding parse_config parse_hashes parse_trusted_keys parse_uints validate_input
parse_attestation_config f c =
    then_parse
      (then_parse
        (then_parse (then_parse (parse_config f c) (parse_hashes f)) (parse_trusted_keys f))
        (parse_uints f))
      (λ d. checked (validate_input d) d)
