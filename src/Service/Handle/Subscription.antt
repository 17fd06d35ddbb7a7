-- ===== src/Service/Handle/Subscription.antt =====
-- HandleNewPubSubSubscriptionEvent of internal/service/subscription.go
pub mod Commits
use go_m_layer.Prelude.{
  Bool, true, Option, none, some, List, [], ◌∷◌, is_empty, if◌then◌else◌, Outcome, ok, fail, panic,
  hex_string,
}
use go_m_layer.External.{External}
use go_m_layer.Entities.Ids.{subscription_model}
use go_m_layer.Entities.Did.{address_from_string}
use go_m_layer.Entities.Keys.{data_key}
use go_m_layer.Entities.Records.{
  State, Subscription, subscription_state, Event, zero_topic, zero_subscription,
}
use go_m_layer.Entities.Wire.{state_hash}
use go_m_layer.DataStates.{DataStates, new_data_states, add_event}
use go_m_layer.Service.Env.{Env}
use go_m_layer.Service.Sync.{sync_topic}
use go_m_layer.Service.Process.Phase.{LocalDataState}
use go_m_layer.Service.Process.Checks.{is_local}
use go_m_layer.Service.Handle.Step.{
  Handled, Step, next, crash, ◌>>=◌, uncommitted, committed_with, call, read, change, finish,
}
use go_m_layer.Service.Handle.Common.{
  local_state, local_event, unless_local, both_up_to_date, store_state, state_event_or_none,
  path_of, hashed, id_of, processed, marked,
}
use go_m_layer.Entities.Did.{to_did_string}
use go_m_layer.Service.Validate.Subscription.{validate_subscription_data}

content_of : Option State → Step Subscription
content_of (some (subscription_state a)) = next a
content_of _ = crash

unfoldable pub content_subscription : Event → Step Subscription
unfolding content_of
content_subscription e = content_of e.payload.content

-- The first subscription that the query finds; an error is dropped.
first_found : Outcome (List Subscription) → Step Subscription
first_found (ok []) = next zero_subscription
first_found (ok (a ∷ more)) = next a
first_found (fail e) = next zero_subscription
first_found panic = crash

local_subscription : Subscription → Step (Option LocalDataState)
local_subscription s =
    if is_empty s.id
    then next none
    else (do t ← read s.timestamp; next (local_state s.id s.event t))

module _ ⦃x : External⦄ (v : Env) where
  filled_subscription : Event → Subscription → Step Subscription
  filled_subscription e sent = do
    path ← path_of e
    let placed = record sent {
      event = path;
      block_number = e.block_number;
      cycle = e.cycle;
      epoch = e.epoch;
      agent = e.payload.agent;
      event_signature = e.signature;
      timestamp = some e.timestamp;
    }
    hash ← hashed (subscription_state placed)
    next (record placed { hash = hex_string hash })

  store_subscription : Event → Subscription → Bool → DataStates → Step DataStates
  store_subscription e s recent ds = do
    own ← id_of s.event_signature s.id
    let state = subscription_state (record s { id = own })
    let key = data_key subscription_model s.event
    store_state recent subscription_model key key state (v.pack state) ds

  -- The check is made against a topic that nothing was read into, not the one that is found.
  apply_subscription : Event → Subscription → Bool → DataStates → Step Handled
  unfolding store_subscription
  apply_subscription e s recent ds = do
    topic ←
        call (sync_topic v s.topic (if is_local v e then [] else e.validator))
          (λ err. committed_with ds (some err))
    stored ←
        marked e (unless_local (is_local v e) (validate_subscription_data v e.payload zero_topic))
          (store_subscription e s recent) ds
    next (committed_with stored none)

  first_subscription : Subscription → Step Subscription
  unfolding first_found
  first_subscription s = first_found (
      v.subscriptions (record zero_subscription {
        subnet = s.subnet;
        topic = s.topic;
        subscriber = to_did_string (address_from_string s.subscriber);
      }))

  unfoldable pub handle_subscription : Event → Outcome Handled
  unfolding content_subscription filled_subscription first_subscription local_subscription
      apply_subscription
  handle_subscription e = finish (do
    sent ← content_subscription e
    ds ← change new_data_states (add_event e new_data_states)
    s ← filled_subscription e sent
    local ← first_subscription s
    local_data ← local_subscription local
    local_ev ← state_event_or_none v local.id local.event
    (processed_states, verdict) ←
        processed v e
          (record {
            subnet = s.subnet;
            local_data_state = local_data;
            local_data_state_event = local_event local_ev;
          })
          true ds (λ new err. committed_with new (some err))
    if both_up_to_date verdict
        then apply_subscription e s verdict.is_recent processed_states
        else next (committed_with processed_states none))
