-- ===== src/Tests/Handle.antt =====
-- A message of the node itself is handled and published; two orders of events leave the same winner.
use go_m_layer.Prelude.{
  ◌≡◌, refl, true, Option, none, some, Outcome, ok, str, lookup, insert, str_has_eq, str_eq,
  is_empty, decimal, hex_prefix, hex_string, hex_valid, remove_char, remove_0x, split, trim_spaces,
  key_eq,
}
use go_m_layer.Encoding.{parse_uint, big_bytes, has_0x, encode_param, encode_bytes}
use go_m_layer.Entities.Ids.{model_text}
use go_m_layer.Entities.Records.{
  Event, event_id, get_id, event_path, get_model, id_of_signature, uuid_to_bytes, message_state,
}
use go_m_layer.Entities.Wire.{message_bytes, actions_bytes, state_hash}
use go_m_layer.DataStates.{
  DataStates, new_data_states, event_at, add_event, add_current_state, update_event_struct,
  is_zero_list,
}
use go_m_layer.Service.Sync.{sync_topic, sync_typed_state}
use go_m_layer.Service.Process.Run.{process_event, with_states}
use go_m_layer.Service.Process.Checks.{is_local, process_local}
use go_m_layer.Service.Handle.Step.{Handled}
use go_m_layer.Service.Handle.Common.{path_of, hashed, id_of, processed, marked, unless_local}
use go_m_layer.Service.Handle.Message.{content_message, handle_message}
use go_m_layer.Service.Handle.Dispatch.{broadcasts, handle_event}
use go_m_layer.Service.Handle.Dispatch.Facts.{handle_event-published}
use go_m_layer.Tests.Data.{plain, a_node, an_event, a_signature}
use go_m_layer.Tests.Validate.{a_message}

abbrev own_event : Event
own_event = record an_event {
  id = hex_prefix a_signature;
  signature = a_signature;
  validator = str "node1";
  auth_event = an_event.previous_event;
  payload = record an_event.payload { content = some (message_state a_message) };
}

answer : Outcome (Handled × Option Event) → Handled × Option Event
answer (ok r) = r
answer _ = (record { committed = none; error = none }, none)

run : Handled × Option Event
unfolding answer
run = answer (handle_event a_node own_event)

published_event : Event
published_event = record own_event { broadcasted = true }

own_published : handle_event a_node own_event ≡ ok (run.0, some published_event)
unfolding published_event hashed run answer handle_event handle_message broadcasts is_local str_eq
    add_event event_at lookup insert event_id id_of_signature hex_prefix hex_valid is_empty
    content_message path_of event_path get_model id_of get_id remove_0x state_hash message_bytes
    actions_bytes encode_bytes encode_param parse_uint big_bytes has_0x decimal uuid_to_bytes
    remove_char hex_string processed process_event with_states process_local sync_topic
    sync_typed_state marked unless_local update_event_struct is_zero_list add_current_state
    model_text key_eq split trim_spaces
own_published = refl

run_again : Handled × Option Event
unfolding answer published_event
run_again = answer (handle_event a_node published_event)

not_again : handle_event a_node published_event ≡ ok (run_again.0, none)
unfolding run_again published_event hashed run answer handle_event handle_message broadcasts
    is_local str_eq add_event event_at lookup insert event_id id_of_signature hex_prefix hex_valid
    is_empty content_message path_of event_path get_model id_of get_id remove_0x state_hash
    message_bytes actions_bytes encode_bytes encode_param parse_uint big_bytes has_0x decimal
    uuid_to_bytes remove_char hex_string processed process_event with_states process_local
    sync_topic sync_typed_state marked unless_local update_event_struct is_zero_list
    add_current_state model_text key_eq split trim_spaces
not_again = refl

abbrev unpublished : Option Event
unpublished = none

handle_event-published_example :
    (is_local a_node own_event ≡ true)
    × (run.0.error ≡ none)
    × (published_event.payload ≡ own_event.payload)
    × (published_event.signature ≡ own_event.signature)
    × (published_event.validator ≡ own_event.validator)
    × (unpublished ≡ none)
handle_event-published_example =
    handle_event-published a_node a_node own_event published_event run.0 run_again.0 unpublished
      own_published not_again

committed_or : Option DataStates → DataStates
committed_or none = new_data_states
committed_or (some ds) = ds
