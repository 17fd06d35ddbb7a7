-- ===== src/Service/Handle/Auth.antt =====
-- HandleNewPubSubAuthEvent of internal/service/authorization.go. Its transactions are only read from,
-- so they are left out.
pub mod Commits
use go_m_layer.Prelude.{
  Bool, false, Option, none, some, List, [], ◌∷◌, is_empty, if◌then◌else◌, Outcome, ok, fail, panic,
  hex_string,
}
use go_m_layer.External.{External}
use go_m_layer.Entities.Ids.{auth_model}
use go_m_layer.Entities.Did.{address_from_string, did_to_string, device_string}
use go_m_layer.Entities.Keys.{data_key}
use go_m_layer.Entities.Records.{
  State, Authorization, authorization_state, Event, zero_authorization,
}
use go_m_layer.Entities.Wire.{state_hash}
use go_m_layer.DataStates.{DataStates, new_data_states, add_event}
use go_m_layer.Service.Env.{Env}
use go_m_layer.Service.Process.Phase.{LocalDataState, failed_mark}
use go_m_layer.Service.Process.Checks.{is_local}
use go_m_layer.Service.Handle.Step.{
  Handled, Step, next, crash, ◌>>=◌, ◌>>◌, uncommitted, committed_with, call, read, change, finish,
}
use go_m_layer.Service.Handle.Common.{
  local_state, local_event, unless_local, both_up_to_date, store_state, state_event_or_none,
  path_of, hashed, processed, marked,
}
use go_m_layer.Service.Validate.Authorization.{authorization_filter, validate_auth_payload_data}

content_of : Option State → Step Authorization
content_of (some (authorization_state a)) = next a
content_of _ = crash

unfoldable pub content_authorization : Event → Step Authorization
unfolding content_of
content_authorization e = content_of e.payload.content

-- The first authorization that the query finds; an error is logged.
first_found : Outcome (List Authorization) → Step Authorization
first_found (ok []) = next zero_authorization
first_found (ok (a ∷ more)) = next a
first_found (fail e) = next zero_authorization
first_found panic = crash

-- Its timestamp is read only where it has an id.
local_authorization : Authorization → Step (Option LocalDataState)
local_authorization a =
    if is_empty a.id
    then next none
    else (do t ← read a.timestamp; next (local_state a.id a.event t))

module _ ⦃x : External⦄ (v : Env) where
  -- The payload's authorization with the event's fields. The hash is of the agent that was sent.
  filled_authorization : Event → Authorization → Step Authorization
  filled_authorization e sent = do
    path ← path_of e
    let placed = record sent {
      block_number = e.block_number;
      cycle = e.cycle;
      epoch = e.epoch;
      event = path;
    }
    hash ← hashed (authorization_state placed)
    next (record placed {
      event_signature = e.signature;
      agent = device_string placed.agent;
      hash = hex_string hash;
    })

  -- Where the check fails, `err` stays set, so that the deferred function commits nothing, neither the
  -- mark nor the entry that the source then adds to the history.
  apply_authorization :
      Event → Authorization → Bool → DataStates → Outcome (Unit {0}) → Step Handled
  apply_authorization e a recent ds checked =
      let id = data_key auth_model a.event in
      let state = authorization_state a in
      elim checked [
        | ok done ↦ (do
          new ← marked e (ok tt) (store_state recent auth_model id id state (v.pack state)) ds
          next (committed_with new none))
        | fail err ↦ (do
          new ← change ds (add_event (failed_mark e.id err) ds)
          next (record { committed = none; error = none }))
        | panic ↦ crash
      ]

  first_authorization : Authorization → Step Authorization
  unfolding first_found
  first_authorization a = first_found (
      v.account_authorizations (
        authorization_filter (did_to_string (address_from_string a.account)) a.subnet
          (device_string a.agent)))

  unfoldable pub handle_auth : Event → Outcome Handled
  unfolding content_authorization filled_authorization first_authorization local_authorization
      apply_authorization
  handle_auth e = finish (do
    ds ← change new_data_states (add_event e new_data_states)
    sent ← content_authorization e
    a ← filled_authorization e sent
    local ← first_authorization a
    local_data ← local_authorization local
    local_ev ← state_event_or_none v local.id local.event
    (processed_states, verdict) ←
        processed v e
          (record {
            subnet = a.subnet;
            local_data_state = local_data;
            local_data_state_event = local_event local_ev;
          })
          false ds (λ _ err. uncommitted err)
    if both_up_to_date verdict
        then (do
          call (v.increment_counters e.cycle e.validator e.subnet) uncommitted
          apply_authorization e a verdict.is_recent processed_states
              (unless_local (is_local v e) (validate_auth_payload_data v e.payload e.validator)))
        else next (committed_with processed_states none))
