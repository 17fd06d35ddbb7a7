-- ===== src/Service/Validate/Authorization.antt =====
-- ValidateAuthPayloadData of internal/service/authorization.go
pub mod Facts
use go_m_layer.Prelude.{
  ℕ, Bool, true, false, not, ◌&&◌, ◌||◌, Option, none, some, List, [], ◌∷◌, Str, str, str_eq,
  is_empty, ltb, if◌then◌else◌, ◌==◌, Error, record_not_found, Outcome, ok, fail, panic,
  bad_request, forbidden, internal, unauthorized, is_not_found, ◌>>=◌, ◌>>◌, reject_if, deref,
  attempt,
}
use go_m_layer.External.{External}
use go_m_layer.Entities.Constants.{admin_priviledge}
use go_m_layer.Entities.Did.{addr_of, device_string}
use go_m_layer.Entities.Records.{
  Authorization, Subnet, State, subnet_state, authorization_state, topic_state, subscription_state,
  message_state, ClientPayload, zero_authorization,
}
use go_m_layer.Entities.Wire.{payload_hash}
use go_m_layer.Service.Env.{Env}
use go_m_layer.Service.Signature.{verify_auth_data_signature}
use go_m_layer.Service.Sync.{sync_subnet}

-- payload.Data.(entities.Authorization)
authorization_of : Option State → Outcome Authorization
authorization_of (some (authorization_state a)) = ok a
authorization_of _ = panic

-- *auth.Priviledge > *subnet.DefaultAuthPrivilege, read only if the accounts differ
exceeds_default : Authorization → Subnet → Outcome Bool
exceeds_default auth subnet = if str_eq auth.account subnet.account then ok false else (do
  asked ← deref auth.priviledge
  default ← deref subnet.default_auth_privilege
  ok (ltb default asked))

-- The query that names an account, a subnet and an agent.
abbrev pub authorization_filter : Str → Str → Str → Authorization
authorization_filter account subnet agent = record zero_authorization {
  account = account;
  subnet = subnet;
  agent = agent;
}

-- The first authorization, which must have the administrator's privilege.
admin_of : List Authorization → Outcome (Option Authorization)
admin_of [] = ok none
admin_of (g ∷ more) = do
  p ← deref g.priviledge
  reject_if (not (p == admin_priviledge))
      (forbidden (str " Grantor does not have enough permission"))
  ok (some g)

first_authorization : List Authorization → Option Authorization
first_authorization [] = none
first_authorization (a ∷ more) = some a

module _ (v : Env) where
  -- if err != nil || !IsErrorNotFound(err) { … }, and the branch behind it
  granted : Outcome (List Authorization) → Outcome (Option Authorization)
  unfolding admin_of
  granted (ok found) = do
    reject_if (false || not (is_not_found none))
        (forbidden (str " Grantor does not have enough permission"))
    admin_of found
  granted (fail e) = do
    reject_if (true || not (is_not_found (some e)))
        (forbidden (str " Grantor does not have enough permission"))
    ok none
  granted panic = panic

  grantor_state : Authorization → Outcome (Option Authorization)
  unfolding granted
  grantor_state auth =
      if not (str_eq auth.grantor auth.account)
      then granted (
          v.account_authorizations (
            authorization_filter (device_string auth.account) auth.subnet
              (device_string auth.grantor)))
      else ok none

  -- Errors other than a missing record are dropped.
  previous_state : Outcome (List Authorization) → Outcome (Option Authorization)
  unfolding first_authorization
  previous_state (ok found) = ok (first_authorization found)
  previous_state (fail record_not_found) = fail record_not_found
  previous_state (fail e) = if is_not_found (some e) then fail e else ok none
  previous_state panic = panic

module _ ⦃x : External⦄ (v : Env) where
  auth_signature : Authorization → ClientPayload → Outcome (Unit {0})
  auth_signature auth payload = do
    msg ← payload_hash payload
    attempt (verify_auth_data_signature v auth msg v.chain_id) (λ done. ok done)
        λ e. fail (unauthorized (str "Invalid authorization data signature"))

  -- The authorization that it replaces, that of the grantor, and the subnet.
  unfoldable pub validate_auth_payload_data :
      ClientPayload → Str → Outcome (Option Authorization × Option Authorization × Subnet)
  unfolding authorization_of exceeds_default auth_signature grantor_state previous_state
  validate_auth_payload_data payload validator = do
    auth ← authorization_of payload.content
    reject_if (is_empty auth.subnet) (bad_request (str "Subnet is required"))
    subnet ← sync_subnet v auth.subnet validator
    status ← deref subnet.status
    reject_if (status == 0) (forbidden (str "Subnet is disabled"))
    exceeds ← exceeds_default auth subnet
    reject_if exceeds
        (internal (str "invalid auth priviledge. Cannot be higher than subnets default"))
    reject_if (str_eq (addr_of auth.account) (addr_of auth.agent))
        (internal (str "cannot reassign subnet owner role"))
    auth_signature auth payload
    grantor ← grantor_state v auth
    previous ← previous_state v (
        v.account_authorizations (
          authorization_filter (device_string auth.account) auth.subnet (device_string auth.agent)))
    ok (previous, grantor, subnet)
