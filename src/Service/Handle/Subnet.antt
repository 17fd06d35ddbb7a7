-- ===== src/Service/Handle/Subnet.antt =====
-- HandleNewPubSubSubnetEvent of internal/service/subnet.go, and Subnet.GetSignature.
pub mod Commits
use go_m_layer.Prelude.{
  false, Option, none, some, Str, if◌then◌else◌, Outcome, ok, fail, panic, hex_string, is_not_found,
}
use go_m_layer.External.{External}
use go_m_layer.Entities.Ids.{subnet_model}
use go_m_layer.Entities.Records.{State, Subnet, subnet_state, Event, subnet_signature}
use go_m_layer.Entities.Wire.{state_hash}
use go_m_layer.DataStates.{DataStates, new_data_states, add_event}
use go_m_layer.Service.Env.{Env}
use go_m_layer.Service.Process.Phase.{LocalDataState}
use go_m_layer.Service.Process.Checks.{is_local}
use go_m_layer.Service.Handle.Step.{
  Handled, Step, next, leave, crash, ◌>>=◌, uncommitted, committed_with, call, change, finish,
}
use go_m_layer.Service.Handle.Common.{
  local_state, local_event, unless_local, store_state, state_event_or_none, path_of, hashed, id_of,
  processed, marked,
}
use go_m_layer.Service.Validate.Subnet.{validate_subnet_data}

content_of : Option State → Step Subnet
content_of (some (subnet_state a)) = next a
content_of _ = crash

unfoldable pub content_subnet : Event → Step Subnet
unfolding content_of
content_subnet e = content_of e.payload.content

-- The subnet that is stored under the id; a missing one has the zero value, whose id is empty.
local_subnet : DataStates → Outcome Subnet → Step (Option Subnet)
local_subnet ds (ok s) = next (some s)
local_subnet ds (fail err) =
    if is_not_found (some err) then next none else leave (committed_with ds (some err))
local_subnet ds panic = crash

module _ ⦃x : External⦄ (v : Env) where
  filled_subnet : Event → Subnet → Step Subnet
  filled_subnet e sent = do
    path ← path_of e
    let placed = record sent {
      event = path;
      block_number = e.block_number;
      cycle = e.cycle;
      epoch = e.epoch;
      event_signature = e.signature;
    }
    hash ← hashed (subnet_state placed)
    next (record placed { hash = hex_string hash })

  pub subnet_id : Subnet → Step Str
  unfolding subnet_signature
  subnet_id s = do sig ← call (subnet_signature s.signature_data) uncommitted; id_of sig s.id

  local_of : Option Subnet → Option LocalDataState
  local_of none = none
  local_of (some s) = local_state s.id s.event s.timestamp

  event_of_local : Option Subnet → Step (Option Event)
  event_of_local none = next none
  event_of_local (some s) = state_event_or_none v s.id s.event

  -- The history is kept under the id that was sent, the current state under the computed one. Only the
  -- previous event has to be up to date.
  unfoldable pub handle_subnet : Event → Outcome Handled
  unfolding content_subnet filled_subnet subnet_id local_subnet local_of event_of_local
  handle_subnet e = finish (do
    ds ← change new_data_states (add_event e new_data_states)
    sent ← content_subnet e
    s ← filled_subnet e sent
    id ← subnet_id s
    local ← local_subnet ds (v.subnet_by_id id)
    local_ev ← event_of_local local
    (processed_states, verdict) ←
        processed v e
          (record {
            subnet = s.id;
            local_data_state = local_of local;
            local_data_state_event = local_event local_ev;
          })
          false ds (λ new err. committed_with new (some err))
    if verdict.previous_up_to_date
        then (do
          stored ←
              marked e (unless_local (is_local v e) (validate_subnet_data v e.payload v.chain_id))
                (store_state verdict.is_recent subnet_model id s.id (subnet_state s)
                  (v.pack (subnet_state s)))
                processed_states
          next (committed_with stored none))
        else next (committed_with processed_states none))
