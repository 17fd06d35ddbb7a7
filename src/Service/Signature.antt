-- ===== src/Service/Signature.antt =====
-- The signatures under subnets and authorizations (internal/service/authorization.go, subnet.go) and
-- under events (ValidateEvent of internal/service/helper.go).
use go_m_layer.Prelude.{
  Bool, true, false, not, ◌&&◌, [], ◌∷◌, ◌++◌, Str, str, is_empty, hex_prefix, lower, equal_fold,
  ◌==◌, if◌then◌else◌, Outcome, ok, fail, unauthorized, forbidden, bad_request, ◌>>=◌, ◌>>◌,
  reject_if,
}
use go_m_layer.External.{External, Bytes}
use go_m_layer.Encoding.{to_base64_padded}
use go_m_layer.Entities.Did.{addr_of}
use go_m_layer.Entities.Records.{
  SignatureData, tendermint, ethereum, other_key, Authorization, Event,
}
use go_m_layer.Entities.Wire.{event_bytes}
use go_m_layer.Service.Env.{Env}

-- fmt.Sprintf of SignatureMessageString
unfoldable pub signature_message : Str → Str → Str → Str → Str
signature_message action identifier network hash =
    str "{\"action\":\""
    ++ (action
        ++ (str "\",\"identifier\":\""
            ++ (identifier
                ++ (str "\",\"network\":\""
                    ++ (network ++ (str "\",\"hash\":\"" ++ (hash ++ str "\"}")))))))

module _ ⦃x : External⦄ (v : Env) where
  -- The two branches of the `switch` on the key type. The tendermint branch gives the network and
  -- the identifier in the other order.
  unfoldable pub verify_signature_data :
      SignatureData → Str → Str → Str → Str → Str → Bytes → Outcome Bool
  unfolding signature_message to_base64_padded
  verify_signature_data d action identifier chain signer amino_signer msg = elim d.ty [
    | ethereum ↦
        let message = signature_message action identifier chain (to_base64_padded msg) in
        ok (v.verify_ecc signer (v.eth_message message) d.signature)
    | tendermint ↦
        let message = signature_message action chain identifier (to_base64_padded msg) in
        x.base64_decode d.signature >>= λ sig. x.base64_raw_decode d.public_key >>= λ key.
        v.verify_amino (to_base64_padded message) sig amino_signer key
    | other_key s ↦ ok false
  ]

  -- VerifyAuthDataSignature. In the Ethereum branch a bad signature is unauthorized, else it is a bad
  -- request.
  signature_verdict : SignatureData → Bool → Outcome (Unit {0})
  signature_verdict d true = ok tt
  signature_verdict d false = elim d.ty [
    | ethereum ↦ fail (unauthorized (str "invalid auth signature"))
    | _ ↦ fail (bad_request (str "not valid signature"))
  ]

  unfoldable pub verify_auth_data_signature : Authorization → Bytes → Str → Outcome (Unit {0})
  unfolding verify_signature_data signature_verdict is_empty
  verify_auth_data_signature auth msg chain = do
    let account = addr_of auth.account
    let grantor = addr_of auth.grantor
    let signer = if is_empty auth.grantor then account else grantor
    valid ←
        verify_signature_data auth.signature_data (str "write_authorization") (addr_of auth.agent)
          chain signer grantor msg
    signature_verdict auth.signature_data valid

strip_0x : Str → Str
strip_0x (a ∷ b ∷ rest) = if a == 48 && b == 120 then rest else a ∷ b ∷ rest
strip_0x s = s

-- PublicKeyString.Bytes
unfoldable pub public_key_bytes : Str → Bytes
unfolding strip_0x
public_key_bytes s = hex_prefix (strip_0x s)

-- utils.AddressToHex drops the first "0x", wherever it stands, and lowers the letters.
remove_first_0x : Str → Str
remove_first_0x [] = []
remove_first_0x (a ∷ []) = a ∷ []
remove_first_0x (a ∷ b ∷ rest) = elim (a == 48 && b == 120) [
  | true ↦ rest
  | false ↦ a ∷ remove_first_0x (b ∷ rest)
]

unfoldable pub address_to_hex : Str → Str
unfolding remove_first_0x lower
address_to_hex s = lower (remove_first_0x s)

module _ ⦃x : External⦄ (v : Env) where
  edd_verdict : Bool → Outcome (Unit {0})
  edd_verdict true = ok tt
  edd_verdict false = fail (forbidden (str "Invalid node signature"))

  -- ValidateEvent
  unfoldable pub validate_event : Event → Outcome (Unit {0})
  unfolding edd_verdict
  validate_event e = do
    b ← event_bytes e
    let owner = v.validators (str "edd/" ++ (e.validator ++ str "/addr"))
    reject_if (not (equal_fold (address_to_hex owner) (address_to_hex e.payload.validator)))
        (forbidden (str "payload validator does not match event validator"))
    valid ← v.verify_edd (public_key_bytes e.validator) b (hex_prefix e.signature)
    edd_verdict valid
