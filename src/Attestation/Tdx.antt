-- ===== src/Attestation/Tdx.antt =====
-- pkg/attestation/tdx/tdx.go: the attestation of a TDX machine and its verification. go-tdx-guest
-- is a record of functions over quotes `Q` and policies `D`.
use cocos.Common.{Option, String, Bytes, length, eqb}
use cocos.Common.Exec.{Result, err}
use cocos.Common.Results.{◌>>=◌, ◌>>◌, attempt, or_fail, guard, check}

pub data TdxError : Type 0 where
  invalid_nonce_length no_policy not_supported : TdxError
  open_device_failed quote_failed decode_failed root_of_trust_failed verify_failed policy_failed
        validate_failed read_failed unmarshal_failed :
      String → TdxError

pub record TdxGuest (Q D : Type 0) : Type 0 where
  -- client.GetQuoteProvider, and its GetRawQuote
  pub open_device : Option String
  pub get_raw_quote : Bytes → Result String Bytes
  pub quote_to_proto : Bytes → Result String Q
  -- RootOfTrustToOptions and PolicyToOptions, of which only the error is looked at, and what
  -- verify.TdxQuote and validate.TdxQuote answer with these options
  pub root_of_trust_to_options : D → Option String
  pub verify_quote : D → Q → Option String
  pub policy_to_options : D → Option String
  pub validate_quote : D → Q → Option String
  pub read_file : String → Result String Bytes
  -- protojson.Unmarshal into a policy, which keeps what the text does not name
  pub unmarshal : Bytes → D → Result String D

module _ {Q D : Type 0} (g : TdxGuest Q D) where
  -- A nonce that is nil has no bytes, and the error is another, but an error all the same.
  unfoldable pub tee_attestation : Bytes → Result TdxError Bytes
  tee_attestation tee_nonce = do
    guard (eqb (length tee_nonce) 64) invalid_nonce_length
    check open_device_failed g.open_device
    attempt quote_failed (g.get_raw_quote tee_nonce)

  unfoldable pub attestation : Bytes → Bytes → Result TdxError Bytes
  unfolding tee_attestation
  attestation tee_nonce vtpm_nonce = tee_attestation tee_nonce

  unfoldable pub vtpm_attestation : Bytes → Result TdxError Bytes
  vtpm_attestation nonce = err not_supported

  unfoldable pub verif_tee_attestation : Option D → Bytes → Bytes → Result TdxError (Unit {0})
  verif_tee_attestation policy report tee_nonce = do
    p ← or_fail no_policy policy
    quote ← attempt decode_failed (g.quote_to_proto report)
    check root_of_trust_failed (g.root_of_trust_to_options p)
    check verify_failed (g.verify_quote p quote)
    check policy_failed (g.policy_to_options p)
    check validate_failed (g.validate_quote p quote)

  unfoldable pub verify_attestation : Option D → Bytes → Bytes → Bytes → Result TdxError (Unit {0})
  unfolding verif_tee_attestation
  verify_attestation policy report tee_nonce vtpm_nonce =
      verif_tee_attestation policy report tee_nonce

  unfoldable pub read_tdx_attestation_policy : String → D → Result TdxError D
  read_tdx_attestation_policy path policy = do
    bytes ← attempt read_failed (g.read_file path)
    attempt unmarshal_failed (g.unmarshal bytes policy)
