-- ===== src/Tests/Commit.antt =====
-- Runs of UpdateEvent and of Commit on association lists.
use go_m_layer.Prelude.{
  ◌≡◌, refl, true, false, some, [], ◌∷◌, Str, str, str_eq, is_empty, lower, equal_fold, lookup,
  insert, str_has_eq, ok, fail, text, not_found, is_not_found, All, decimal, padded, hex_prefix,
  hex_valid, remove_char,
}
use go_m_layer.Entities.Ids.{topic_model, auth_model, model_text, model_of_text}
use go_m_layer.Entities.Records.{
  Event, topic_state, authorization_state, zero_event, zero_authorization, get_id, event_id,
  id_of_signature, uuid_to_bytes,
}
use go_m_layer.Entities.Keys.{
  id_key, data_key, topic_keys, topic_ref_key, account_topics_key, timestamp_string, event_data_key,
  block_key, event_keys, subnet_cycle_key,
}
use go_m_layer.DataStates.{DataStates, new_data_states, by_value, state_key}
use go_m_layer.Store.KeyValue.{found, read}
use go_m_layer.Store.Codec.{Codec}
use go_m_layer.Store.States.{
  Stores, create_state, rest_value, is_taken, state_store, get_state_by_id, entity_data_key,
}
use go_m_layer.Store.Topics.{create_topic_state, topic_param, get_topic_by_id, update_topic_state}
use go_m_layer.Store.Authorizations.{create_authorization_state}
use go_m_layer.Store.Events.{is_synced, create_event, update_event}
use go_m_layer.Store.Events.Facts.{update_event_late}
use go_m_layer.Store.Commit.{
  Written, commit_states, commit_historic, commit_events, commit_all, commit_data_states,
}
use go_m_layer.Store.Commit.Facts.{
  Committable, commit_data_states_events, commit_data_states_structs,
}
use go_m_layer.Tests.Cells.{Cells, cells, cells_laws, apart}
use go_m_layer.Tests.Data.{plain, a_signature}
use go_m_layer.Tests.Stores.{counting_clock, club_topic, one_topic, result_or}

abbrev an_id : Str
an_id = hex_prefix a_signature

abbrev stored_event : Event
stored_event = record zero_event { id = an_id; signature = a_signature; synced = some true }

abbrev with_event : Cells
with_event = result_or [] (update_event one_topic stored_event true 0 [])

abbrev no_stores : Stores
no_stores = record { event = []; state = []; message = []; network_stats = []; system = [] }

abbrev id_reader : Codec
id_reader = record one_topic { unpack_event = λ b model. ok stored_event }

update_event_late_example :
    update_event one_topic (record stored_event { id = an_id }) false 9 with_event
    ≡ fail (text (str "event does not exist"))
unfolding update_event create_event event_id id_of_signature is_synced event_keys subnet_cycle_key
    block_key event_data_key uuid_to_bytes remove_char hex_prefix hex_valid padded decimal is_empty
    equal_fold lower str_eq lookup insert is_not_found
update_event_late_example =
    update_event_late one_topic stored_event an_id 1 9 [] with_event not_found refl (apart _ _ refl)
      (apart _ _ refl) (apart _ _ refl) refl refl refl

-- An authorization without an account, which cannot be stored.
abbrev bad_states : DataStates
bad_states = record new_data_states {
  events = (an_id, stored_event) ∷ [];
  current_states =
      (state_key auth_model (str "a1"), by_value (authorization_state zero_authorization)) ∷ [];
}

abbrev nothing_written : Written
nothing_written = record {
  stores = no_stores;
  error = some (text (str "new state must include acc, snet and agent fields"));
}

commit_data_states_events_example : nothing_written.stores.event ≡ no_stores.event
unfolding commit_data_states commit_states create_authorization_state model_of_text model_text
    str_eq is_empty
commit_data_states_events_example =
    commit_data_states_events one_topic bad_states no_stores nothing_written _ refl refl

abbrev good_states : DataStates
good_states = record new_data_states {
  events = (an_id, stored_event) ∷ [];
  current_states = (state_key topic_model (str "t1"), by_value (topic_state club_topic)) ∷ [];
}

abbrev all_written : Written
all_written = result_or nothing_written (commit_data_states one_topic good_states no_stores)

commit_data_states_structs_example : All Committable good_states.current_states
unfolding commit_data_states commit_states commit_historic commit_events commit_all
    update_topic_state get_topic_by_id get_state_by_id state_store entity_data_key
    create_topic_state create_state topic_param topic_keys topic_ref_key account_topics_key id_key
    data_key timestamp_string model_text model_of_text get_id is_empty decimal padded rest_value
    is_taken read found equal_fold lower str_eq lookup insert is_not_found update_event create_event
    event_id id_of_signature is_synced event_keys subnet_cycle_key block_key event_data_key
    uuid_to_bytes remove_char hex_prefix hex_valid
commit_data_states_structs_example =
    commit_data_states_structs one_topic good_states no_stores all_written refl refl
