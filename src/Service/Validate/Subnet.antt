-- ===== src/Service/Validate/Subnet.antt =====
-- ValidateSubnetData of internal/service/subnet.go
pub mod Facts
use go_m_layer.Prelude.{
  ℕ, Bool, true, false, not, ◌&&◌, ◌||◌, Option, none, some, List, [], ◌∷◌, Str, str, is_empty,
  length, ltb, ◌==◌, if◌then◌else◌, Error, Outcome, ok, fail, panic, unauthorized, bad_request,
  internal, is_not_found, ◌>>=◌, ◌>>◌, reject_if, deref, attempt,
}
use go_m_layer.External.{External}
use go_m_layer.Entities.Constants.{admin_priviledge}
use go_m_layer.Entities.Did.{address_from_string, did_to_string, addr_of, device_string}
use go_m_layer.Entities.Records.{Authorization, Subnet, State, subnet_state, ClientPayload}
use go_m_layer.Entities.Wire.{payload_hash}
use go_m_layer.Service.Env.{Env}
use go_m_layer.Service.Signature.{verify_signature_data}
use go_m_layer.Service.Validate.Authorization.{authorization_filter}
use go_m_layer.Service.Validate.Topic.{is_alpha_numeric_dot}

unfoldable pub subnet_of : Option State → Outcome Subnet
subnet_of (some (subnet_state s)) = ok s
subnet_of _ = panic

-- The loop reads every authorization, past the one that it looks for.
unfoldable pub some_admin : List Authorization → Outcome Bool
some_admin [] = ok false
some_admin (a ∷ more) = do
  p ← deref a.priviledge
  rest ← some_admin more
  ok (p == admin_priviledge || rest)

module _ (v : Env) where
  subnet_admin : Subnet → Outcome (Unit {0})
  unfolding some_admin
  subnet_admin s = do
    found ←
        attempt
          (v.account_authorizations (
            authorization_filter (did_to_string (address_from_string s.account)) s.id
              (device_string s.agent)))
          (λ l. ok l)
          λ e.
            if is_not_found (some e)
            then fail (unauthorized (str "agent not authorized"))
            else fail (internal (str "internal database error"))
    admin ← some_admin found
    reject_if (not admin) (unauthorized (str "agent not authorized"))

  current_subnet : Str → Outcome (Option Subnet)
  current_subnet id =
      if is_empty id
      then ok none
      else attempt (v.subnet_by_id id) (λ s. ok (some s))
          λ e. if is_not_found (some e) then ok none else fail e

module _ ⦃x : External⦄ (v : Env) where
  unfoldable pub validate_subnet_data : ClientPayload → Str → Outcome (Option Subnet)
  unfolding subnet_of subnet_admin is_alpha_numeric_dot verify_signature_data current_subnet
  validate_subnet_data payload chain = do
    s ← subnet_of payload.content
    if not (is_empty s.agent) && not (is_empty s.id) then subnet_admin v s else ok tt
    reject_if (ltb 64 (length s.ref))
        (bad_request (str "Subnet ref cannont be more than 64 characters"))
    reject_if (not (is_empty s.ref) && not (is_alpha_numeric_dot s.ref))
        (bad_request (str "Ref can only include alpha-numerics, and ."))
    msg ← payload_hash payload
    valid ←
        verify_signature_data v s.signature_data (str "write_subnet") s.ref chain
          (addr_of s.account) (addr_of s.account) msg
    reject_if (not valid) (unauthorized (str "Invalid subnet data signature"))
    current_subnet v s.id
