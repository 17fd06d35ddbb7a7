-- ===== src/Service/Handle/Message.antt =====
-- HandleNewPubSubMessageEvent of internal/service/message.go
pub mod Commits
use go_m_layer.Prelude.{
  Option, some, none, true, none, some, [], Str, if◌then◌else◌, Outcome, hex_string,
}
use go_m_layer.External.{External}
use go_m_layer.Entities.Ids.{message_model}
use go_m_layer.Entities.Records.{State, Message, message_state, Event}
use go_m_layer.Entities.Wire.{state_hash}
use go_m_layer.DataStates.{DataStates, new_data_states, by_value, add_event, add_current_state}
use go_m_layer.Service.Env.{Env}
use go_m_layer.Service.Sync.{sync_topic}
use go_m_layer.Service.Process.Checks.{is_local}
use go_m_layer.Service.Handle.Step.{
  Handled, Step, next, crash, ◌>>=◌, uncommitted, committed_with, call, change, finish,
}
use go_m_layer.Service.Handle.Common.{
  unless_local, both_up_to_date, path_of, hashed, id_of, processed, marked,
}
use go_m_layer.Service.Validate.Message.{validate_message_data}

content_of : Option State → Step Message
content_of (some (message_state m)) = next m
content_of _ = crash

unfoldable pub content_message : Event → Step Message
unfolding content_of
content_message e = content_of e.payload.content

module _ ⦃x : External⦄ (v : Env) where
  -- The message with the event's fields, and the id that it is stored under. The hash is taken before
  -- the agent and the sender are set.
  filled_message : Event → Message → Step (Message × Str)
  filled_message e sent = do
    path ← path_of e
    let placed = record sent {
      block_number = e.block_number;
      cycle = e.cycle;
      epoch = e.epoch;
      event = path;
      event_signature = e.signature;
      event_timestamp = e.timestamp;
    }
    id ← id_of placed.event_signature placed.id
    hash ← hashed (message_state placed)
    next (
      record placed { hash = hex_string hash; agent = e.payload.agent; sender = e.payload.account },
      id,
    )

  -- The error of the topic is returned, and nothing is committed then; that of the check is not.
  apply_message : Event → Message → Str → DataStates → Step Handled
  apply_message e m id ds = do
    topic ← call (sync_topic v m.topic (if is_local v e then [] else e.validator)) uncommitted
    stored ←
        marked e (unless_local (is_local v e) (validate_message_data v e.payload topic))
          (λ new. change new (add_current_state message_model id (by_value (message_state m)) new))
          ds
    next (committed_with stored none)

  unfoldable pub handle_message : Event → Outcome Handled
  unfolding content_message filled_message apply_message
  handle_message e = finish (do
    ds ← change new_data_states (add_event e new_data_states)
    sent ← content_message e
    (m, id) ← filled_message e sent
    (processed_states, verdict) ←
        processed v e
          (record {
            subnet = e.payload.subnet;
            local_data_state = none;
            local_data_state_event = none;
          })
          true ds (λ _ err. uncommitted err)
    if both_up_to_date verdict
        then apply_message e m id processed_states
        else next (committed_with processed_states none))
