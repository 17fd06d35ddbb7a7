-- ===== src/Service/Handle/Topic.antt =====
-- HandleNewPubSubTopicEvent of internal/service/topic.go
pub mod Commits
use go_m_layer.Prelude.{
  Option, some, none, Bool, true, none, some, [], Str, is_empty, if◌then◌else◌, Outcome, hex_string,
}
use go_m_layer.External.{External}
use go_m_layer.Entities.Ids.{topic_model}
use go_m_layer.Entities.Records.{State, Topic, topic_state, Event, zero_topic}
use go_m_layer.Entities.Wire.{state_hash}
use go_m_layer.DataStates.{DataStates, new_data_states, add_event}
use go_m_layer.Service.Env.{Env}
use go_m_layer.Service.Sync.{sync_topic}
use go_m_layer.Service.Process.Checks.{is_local}
use go_m_layer.Service.Handle.Step.{
  Handled, Step, next, crash, ◌>>=◌, uncommitted, committed_with, call, change, finish,
}
use go_m_layer.Service.Handle.Common.{
  local_state, local_event, unless_local, both_up_to_date, store_state, state_event, path_of,
  hashed, id_of, processed, marked,
}
use go_m_layer.Service.Validate.Topic.{validate_topic_data}

content_of : Option State → Step Topic
content_of (some (topic_state t)) = next t
content_of _ = crash

unfoldable pub content_topic : Event → Step Topic
unfolding content_of
content_topic e = content_of e.payload.content

module _ ⦃x : External⦄ (v : Env) where
  -- The hash is taken before the account, the agent and the time are set.
  filled_topic : Event → Topic → Step Topic
  filled_topic e sent = do
    path ← path_of e
    let placed = record sent {
      event = path;
      block_number = e.block_number;
      cycle = e.cycle;
      epoch = e.epoch;
      event_signature = e.signature;
    }
    hash ← hashed (topic_state placed)
    next (record placed {
      hash = hex_string hash;
      account = e.payload.account;
      agent = e.payload.agent;
      timestamp = e.payload.timestamp;
    })

  local_topic_state : Event → Str → Str → DataStates → Step Topic
  local_topic_state e sent_id id ds =
      if is_empty sent_id
      then next zero_topic
      else call (sync_topic v id (if is_local v e then [] else e.validator))
          (λ err. committed_with ds (some err))

  -- The id that the topic is stored under was computed from the payload's own signature.
  store_topic : Event → Topic → Str → Bool → DataStates → Step DataStates
  store_topic e t id recent ds = do
    own ← id_of t.event_signature t.id
    let state = topic_state (record t { id = own })
    store_state recent topic_model id id state (v.pack state) ds

  unfoldable pub handle_topic : Event → Outcome Handled
  unfolding content_topic filled_topic local_topic_state store_topic
  handle_topic e = finish (do
    ds ← change new_data_states (add_event e new_data_states)
    sent ← content_topic e
    id ← id_of sent.event_signature sent.id
    t ← filled_topic e sent
    local ← local_topic_state e sent.id id ds
    local_ev ← call (state_event v local.id local.event) (λ err. committed_with ds (some err))
    (processed_states, verdict) ←
        processed v e
          (record {
            subnet = t.subnet;
            local_data_state = local_state local.id local.event local.timestamp;
            local_data_state_event = local_event local_ev;
          })
          true ds (λ new err. committed_with new (some err))
    if both_up_to_date verdict
        then (do
          stored ←
              marked e (unless_local (is_local v e) (validate_topic_data v t verdict.auth_state))
                (store_topic e t id verdict.is_recent) processed_states
          next (committed_with stored none))
        else next (committed_with processed_states none))
