-- ===== src/Service/Validate/Authorization/Facts.antt =====
-- No authorization by a grantor other than its account is ever accepted.
use go_m_layer.Prelude.{
  ◌≡◌, refl, ℕ, Bool, not, Option, none, some, List, Str, str_eq, str_eq_iff, is_empty, Outcome, ok,
  fail, panic, is_not_found, ◌==◌, Ensures, Ensures-result, Ensures-ok, Ensures-fail, Ensures->>=,
  Ensures-reject_if, Ensures-deref, Ensures-if, Ensures-attempt, not-false,
}
use go_m_layer.External.{External, Bytes}
use go_m_layer.Entities.Did.{addr_of}
use go_m_layer.Entities.Records.{Authorization, Subnet, State, authorization_state, ClientPayload}
use go_m_layer.Entities.Wire.{payload_hash}
use go_m_layer.Service.Env.{Env}
use go_m_layer.Service.Validate.Authorization.{
  validate_auth_payload_data, authorization_of, exceeds_default, auth_signature, grantor_state,
  previous_state, granted,
}
use go_m_layer.Service.Sync.{sync_subnet}
use go_m_layer.Service.Signature.{verify_auth_data_signature}

module _ (v : Env) where
  granted-Ensures :
      (P : Option Authorization → Type 0) (o : Outcome (List Authorization))
      → Ensures P (granted v o)
  unfolding granted Ensures is_not_found
  granted-Ensures P (ok found) = tt
  granted-Ensures P (fail e) = tt
  granted-Ensures P panic = tt

  grantor_state-Ensures :
      (a : Authorization)
      → Ensures (λ (_ : Option Authorization). a.grantor ≡ a.account) (grantor_state v a)
  unfolding grantor_state
  grantor_state-Ensures a =
      Ensures-if _ (not (str_eq a.grantor a.account)) _ _ (λ _. granted-Ensures _ _)
        λ same. Ensures-ok _ none ((str_eq_iff a.grantor a.account).0 (not-false _ same))

authorization_of-Ensures :
    (o : Option State) → Ensures (λ a. o ≡ some (authorization_state a)) (authorization_of o)
unfolding authorization_of Ensures
authorization_of-Ensures (some (authorization_state a)) = refl
authorization_of-Ensures _ = tt

module _ ⦃x : External⦄ (v : Env) where
  SignedBy : ClientPayload → Authorization → Type 0
  SignedBy payload a =
      (msg : Bytes) × (payload_hash payload ≡ ok msg)
      × (verify_auth_data_signature v a msg v.chain_id ≡ ok tt)

  -- The payload holds an authorization that its own account grants and signed.
  unfoldable pub GoodAuthorization : ClientPayload → Type 0
  unfolding SignedBy
  GoodAuthorization payload =
      (a : Authorization) × (payload.content ≡ some (authorization_state a))
      × (a.grantor ≡ a.account)
      × SignedBy payload a

  auth_signature-Ensures :
      (a : Authorization) (payload : ClientPayload)
      → Ensures (λ _. SignedBy payload a) (auth_signature v a payload)
  unfolding auth_signature SignedBy
  auth_signature-Ensures a payload = Ensures->>= _ (payload_hash payload) _ λ msg hashed.
      Ensures-attempt _ (verify_auth_data_signature v a msg v.chain_id) _ _
        (λ _ signed. Ensures-ok _ _ (msg, hashed, signed)) λ e _. Ensures-fail _ _

  validate_auth-Ensures :
      (payload : ClientPayload) (validator : Str)
      → Ensures
          (λ (_ : Option Authorization × Option Authorization × Subnet). GoodAuthorization payload)
          (validate_auth_payload_data v payload validator)
  unfolding validate_auth_payload_data GoodAuthorization
  validate_auth-Ensures payload validator =
      Ensures->>= _ (authorization_of payload.content) _ λ a held.
        Ensures-reject_if _ (is_empty a.subnet) _ _ λ _.
          Ensures->>= _ (sync_subnet v a.subnet validator) _ λ (subnet : Subnet) _.
            Ensures-deref _ subnet.status _ λ (status : ℕ) _.
              Ensures-reject_if _ (status == 0) _ _ λ _.
                Ensures->>= _ (exceeds_default a subnet) _ λ (exceeds : Bool) _.
                  Ensures-reject_if _ exceeds _ _ λ _.
                    Ensures-reject_if _ (str_eq (addr_of a.account) (addr_of a.agent)) _ _ λ _.
                      Ensures->>= _ (auth_signature v a payload) _ λ _ signed.
                        Ensures->>= _ (grantor_state v a) _ λ grantor own.
                          Ensures->>= _ (previous_state v _) _ λ previous _.
                            Ensures-ok _ (previous, grantor, subnet)
                              (
                                a,
                                Ensures-result _ (authorization_of payload.content) a
                                    (authorization_of-Ensures payload.content) held,
                                Ensures-result _ (grantor_state v a) grantor
                                    (grantor_state-Ensures v a) own,
                                Ensures-result _ (auth_signature v a payload) _
                                    (auth_signature-Ensures a payload) signed,
                              )

  -- A payload that ValidateAuthPayloadData accepts holds an authorization that was signed by the account
  -- that it is for, which is the grantor too: one that somebody else grants is never accepted, whatever
  -- privilege that grantor has.
  pub validate_auth_payload_data-GoodAuthorization :
      (payload : ClientPayload) (validator : Str)
      (r : Option Authorization × Option Authorization × Subnet)
      → validate_auth_payload_data v payload validator ≡ ok r
      → GoodAuthorization payload
  validate_auth_payload_data-GoodAuthorization payload validator r h =
      Ensures-result _ (validate_auth_payload_data v payload validator) r
        (validate_auth-Ensures payload validator) h
