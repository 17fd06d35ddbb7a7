-- ===== src/Service/Process/Checks.antt =====
-- service.go, lines 108 to 264: an event of this node; the payload's time, the validator's and the
-- agent's signatures, the subnet and the agent's authorization of any other event.
pub mod Facts
pub mod Time
use go_m_layer.Prelude.{
  ℕ, ◌+◌, ◌-◌, ◌%◌, ◌^◌, Bool, true, false, not, ◌&&◌, ◌||◌, Option, none, some, List, [], ◌∷◌,
  ◌++◌, Str, str, str_eq, is_empty, ltb, ◌==◌, if◌then◌else◌, length, Error, record_not_found, text,
  Outcome, ok, fail, panic, error_string, is_not_found,
}
use go_m_layer.External.{External, Bytes}
use go_m_layer.Entities.Ids.{EntityModel, subnet_model, EventPath, new_event_path}
use go_m_layer.Entities.Constants.{create_subnet_event, update_subnet_event, member_priviledge}
use go_m_layer.Entities.Did.{address_from_string, did_to_string, addr_of, device_string}
use go_m_layer.Entities.Records.{
  Authorization, Subnet, State, subnet_state, ClientPayload, Event, zero_authorization,
}
use go_m_layer.Entities.Wire.{payload_bytes}
use go_m_layer.DataStates.{DataStates, add_event, add_current_state, Stored, by_pointer}
use go_m_layer.Service.Env.{Env, P2pResponse}
use go_m_layer.Service.Signature.{validate_event}
use go_m_layer.Service.Sync.{sync_event_by_path}
use go_m_layer.Service.Validate.Authorization.{authorization_filter}
use go_m_layer.Service.Process.Phase.{
  Phase, next, stop, crash, ◌>>=◌, ◌>>◌, stop_if, call, read, change, Verdict, refuse, PayloadData,
}

abbrev pub accepted_locally : Option Authorization → Verdict
accepted_locally a = record {
  previous_up_to_date = true;
  auth_up_to_date = true;
  auth_state = a;
  is_recent = true;
  error = none;
}

-- uint64: the payload may be at most 15 seconds older or younger than the event.
unfoldable pub out_of_time : Event → Bool
out_of_time e =
    ltb ((e.timestamp + 15000) % 2 ^ 64) e.payload.timestamp
    || ltb e.payload.timestamp ((e.timestamp + 2 ^ 64 - 15000) % 2 ^ 64)

-- The loop keeps the last authorization that the query found.
unfoldable pub last_authorization : Authorization → List Authorization → Authorization
last_authorization a [] = a
last_authorization a (b ∷ more) = last_authorization b more

is_subnet_event : Event → Bool
is_subnet_event e = e.event_type == create_subnet_event || e.event_type == update_subnet_event

below_member : Authorization → Bool
below_member a = elim a.priviledge [ none ↦ false | some p ↦ ltb p member_priviledge ]

module _ (v : Env) where
  unfoldable pub is_local : Event → Bool
  is_local e = str_eq e.validator v.public_key_edd_hex

  state_of_local : Outcome Authorization → Outcome Verdict
  state_of_local (ok a) = ok (accepted_locally (some a))
  state_of_local (fail e) = ok (accepted_locally none)
  state_of_local panic = panic

  fetched_auth : Outcome (Event × Bytes) → Outcome Verdict
  unfolding state_of_local
  fetched_auth (ok (e, state)) = state_of_local (v.unpack_authorization state)
  fetched_auth (fail e) = ok (refuse true false true e)
  fetched_auth panic = panic

  -- What ProcessEvent returns for an event of this node.
  unfoldable pub process_local : Event → Outcome Verdict
  unfolding fetched_auth
  process_local e =
      if not (is_empty e.auth_event.id)
      then fetched_auth (sync_event_by_path v e.auth_event e.validator)
      else ok (accepted_locally none)

  found_authorizations : DataStates → Outcome (List Authorization) → Phase (List Authorization)
  found_authorizations ds (ok found) = next found
  found_authorizations ds (fail err) =
      if is_not_found (some err)
      then next []
      else stop ds (refuse false false true (text (str "db error: " ++ error_string err)))
  found_authorizations ds panic = crash

  -- The agent's authorization; the last one that is found counts.
  unfoldable pub agent_authorization : DataStates → Event → Bool → Phase Authorization
  unfolding found_authorizations last_authorization below_member
  agent_authorization ds e required = do
    found ←
        if required
        then found_authorizations ds (
            v.account_authorizations (
              authorization_filter (did_to_string (address_from_string e.payload.account))
                e.payload.subnet (device_string e.payload.agent)))
        else next []
    let current = last_authorization zero_authorization found
    stop_if (required && below_member current && str_eq current.id e.auth_event.id) ds
        (refuse false false true (text (str "no write priviledge")))
    next current

  signer_matches : DataStates → Str → Outcome Str → Phase (Unit {0})
  signer_matches ds agent (ok signer) =
      stop_if (not (str_eq signer agent)) ds
        (refuse false false true (text (str "invalid payload signer")))
  signer_matches ds agent (fail e) =
      stop ds (refuse false false true (text (str "invalid agent signature")))
  signer_matches ds agent panic = crash

  unfoldable pub agent_signature : DataStates → Event → Bytes → Bool → Phase (Unit {0})
  unfolding signer_matches
  agent_signature ds e d required =
      let agent = addr_of e.payload.agent in
      if required || not (is_empty agent)
      then signer_matches ds agent (v.signer_ecc d e.payload.signature)
      else next tt

  -- The loop keeps a state only where it could not be unpacked.
  keep_state : DataStates → Subnet → Outcome Subnet → Phase DataStates
  keep_state ds partial (ok good) = next ds
  keep_state ds partial (fail e) =
      change ds (add_current_state subnet_model partial.id (by_pointer (subnet_state partial)) ds)
  keep_state ds partial panic = crash

  keep_states : DataStates → List Bytes → Phase DataStates
  unfolding keep_state
  keep_states ds [] = next ds
  keep_states ds (s ∷ more) = do
    new ← keep_state ds (v.partial_subnet s) (v.unpack_subnet s)
    keep_states new more

module _ ⦃x : External⦄ (v : Env) where
  -- The subnet, asked from the event's validator.
  fetch_subnet : DataStates → Event → Str → Phase DataStates
  unfolding keep_states
  fetch_subnet ds e subnet = do
    (pp, state) ←
        call ds (v.p2p_state (new_event_path e.validator subnet_model subnet) (some e.validator))
          (λ err. refuse false false true (text (str "unable to get subnetdata")))
    stop_if (ltb (length pp.event) 2) ds
        (refuse false false true (text (str "unable to unpack subnetdata")))
    subnet_event ←
        call ds (v.unpack_event pp.event subnet_model)
          (λ err. refuse false false true (text (str "unable to unpack subnetdata")))
    new ← change ds (add_event subnet_event ds)
    keep_states v new pp.states

  -- Any error but a missing record ends the function without an error.
  known_subnet : DataStates → Event → Str → Outcome Subnet → Phase DataStates
  unfolding fetch_subnet
  known_subnet ds e subnet (ok s) = next ds
  known_subnet ds e subnet (fail record_not_found) = fetch_subnet ds e subnet
  known_subnet ds e subnet (fail err) =
      if is_not_found (some err)
      then fetch_subnet ds e subnet
      else stop ds (record {
        previous_up_to_date = false;
        auth_up_to_date = false;
        auth_state = none;
        is_recent = false;
        error = none;
      })
  known_subnet ds e subnet panic = crash

  unfoldable pub subnet_of_event : DataStates → Event → Str → Phase DataStates
  unfolding known_subnet is_subnet_event
  subnet_of_event ds e subnet =
      if is_subnet_event e then next ds else known_subnet ds e subnet (v.subnet_by_id subnet)

  payload_of_event : DataStates → Outcome Bytes → Phase Bytes
  payload_of_event ds (ok []) =
      stop ds (refuse false false true (text (str "invalid event payload")))
  payload_of_event ds (ok (b ∷ rest)) = next (b ∷ rest)
  payload_of_event ds (fail e) =
      stop ds (refuse false false true (text (str "invalid event payload")))
  payload_of_event ds panic = crash

  -- The checks before the event is kept, then AddEvent.
  unfoldable pub check_event : DataStates → Event → PayloadData → Bool → Phase DataStates
  unfolding out_of_time payload_of_event subnet_of_event agent_signature
  check_event ds e data_ required = do
    stop_if (required && ltb 0 e.payload.timestamp && out_of_time e) ds
        (refuse false false false (text (str "event timestamp exceeds payload timestamp")))
    call ds (validate_event v e) (refuse false false true)
    d ← payload_of_event ds (payload_bytes e.payload)
    with_subnet ← subnet_of_event ds e data_.subnet
    agent_signature v with_subnet e d required
    change with_subnet (add_event e with_subnet)
