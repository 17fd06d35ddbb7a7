-- ===== src/Tests/Stores.antt =====
-- Runs of the store queries on association lists.
use go_m_layer.Prelude.{
  ◌+◌, ◌%◌, ◌^◌, ◌≡◌, refl, false, none, some, List, [], ◌∷◌, Str, str, str_eq, is_empty, lower,
  equal_fold, lookup, insert, str_has_eq, Outcome, ok, fail, not_found, is_not_found, decimal,
  padded,
}
use go_m_layer.Encoding.{big_bytes, big_number}
use go_m_layer.Entities.Ids.{topic_model, model_text, empty_path}
use go_m_layer.Entities.Records.{Topic, zero_topic, zero_event, get_id}
use go_m_layer.Entities.Keys.{
  Clock, id_key, data_key, topic_keys, topic_ref_key, account_topics_key, timestamp_string,
  network_counter_key, cycle_counter_key,
}
use go_m_layer.Store.KeyValue.{found, read}
use go_m_layer.Store.Codec.{Codec}
use go_m_layer.Store.Counters.{
  AccountCount, raised, counted, counter_keys, increment_counter_by_key, increment_each,
  increment_counters, update_account_counter, get_num_accounts,
}
use go_m_layer.Store.Counters.Facts.{count_at, occurrences, count_at-increment_counters}
use go_m_layer.Store.Counters.Accounts.{update_account_counter_once}
use go_m_layer.Store.States.{
  Stores, create_state, update_state, rest_value, is_taken, state_store, get_state_by_id,
  entity_data_key,
}
use go_m_layer.Store.States.Facts.{final_value, read-create_state}
use go_m_layer.Store.Topics.{create_topic_state, topic_param, get_topic_by_id, update_topic_state}
use go_m_layer.Store.Topics.Facts.{create_topic_state_taken, get_topic_by_id-create_topic_state}
use go_m_layer.Store.Topics.Update.{read-update_topic_state}
use go_m_layer.Tests.Cells.{Cells, cells, cells_laws, erased, apart}
use go_m_layer.Tests.Data.{plain, a_signature}

-- The time is the number of the reading.
instance abbrev pub counting_clock : Clock
counting_clock = record {
  now = λ n. n;
  format_nanoseconds = λ n. decimal n;
  parse_milliseconds = λ s. 0;
}

abbrev pub club_topic : Topic
club_topic = record zero_topic {
  id = str "t1";
  ref = str "news";
  subnet = str "s1";
  account = str "alice";
  event = record empty_path { model = topic_model; id = str "e1" };
}

abbrev other_topic : Topic
other_topic = record club_topic {
  id = str "t2";
  event = record empty_path { model = topic_model; id = str "e2" };
}

-- Every state is packed to one byte, which is read as the first topic.
abbrev pub one_topic : Codec
one_topic = record {
  pack = λ s. 1 ∷ [];
  pack_event = λ e. e.id;
  unpack_event = λ b model. ok (record zero_event { id = b; signature = a_signature });
  unpack_authorization = λ b. fail not_found;
  unpack_subnet = λ b. fail not_found;
  unpack_topic = λ b. ok club_topic;
  unpack_subscription = λ b. fail not_found;
  unpack_message = λ b. fail not_found;
}

abbrev pub result_or {ℓ} : {A : Type ℓ} → A → Outcome A → A
result_or d (ok a) = a
result_or d _ = d

abbrev with_club : Cells
with_club = (result_or (club_topic, []) (create_topic_state one_topic club_topic [])).1

created_club : create_topic_state one_topic club_topic [] ≡ ok (club_topic, with_club)
unfolding create_topic_state create_state topic_param topic_keys topic_ref_key account_topics_key
    id_key data_key timestamp_string model_text get_id is_empty decimal rest_value is_taken read
    found equal_fold lower str_eq lookup insert is_not_found
created_club = refl

-- Another key is written after the commit.
abbrev later_cells : Cells
later_cells = (str "unrelated", 7 ∷ []) ∷ with_club

create_topic_state_taken_example :
    ¬ (create_topic_state one_topic other_topic later_cells ≡ ok (other_topic, []))
unfolding topic_keys topic_ref_key account_topics_key id_key data_key timestamp_string model_text
    is_empty decimal str_eq create_topic_state equal_fold lookup
create_topic_state_taken_example =
    create_topic_state_taken one_topic club_topic other_topic club_topic other_topic [] with_club
      later_cells [] with_club later_cells [] refl refl refl
      (apart _ _ refl, (apart _ _ refl, (apart _ _ refl, tt))) refl created_club refl refl refl

get_topic_by_id-create_topic_state_example :
    get_topic_by_id one_topic
      (str "t1")
      (record { event = []; state = with_club; message = []; network_stats = []; system = [] })
    ≡ ok club_topic
unfolding topic_ref_key id_key data_key model_text is_empty str_eq
get_topic_by_id-create_topic_state_example =
    get_topic_by_id-create_topic_state one_topic club_topic club_topic
      (record { event = []; state = []; message = []; network_stats = []; system = [] }) []
      with_club with_club (apart _ _ refl) (apart _ _ refl) (apart _ _ refl) refl refl refl refl
      created_club refl

abbrev club_stores : Stores
club_stores = record {
  event = [];
  state = with_club;
  message = [];
  network_stats = [];
  system = [];
}

abbrev renamed_topic : Topic
renamed_topic = record other_topic { id = str "t1"; ref = str "views" }

abbrev with_renamed : Cells
with_renamed =
    (result_or (club_topic, [])
      (update_topic_state one_topic (str "t1") renamed_topic with_club club_stores false)).1

renamed_club :
    update_topic_state one_topic (str "t1") renamed_topic with_club club_stores false
    ≡ ok (renamed_topic, with_renamed)
unfolding update_topic_state update_state get_topic_by_id get_state_by_id state_store
    entity_data_key create_topic_state create_state topic_param topic_keys topic_ref_key
    account_topics_key id_key data_key timestamp_string model_text get_id is_empty decimal
    rest_value is_taken read found equal_fold lower str_eq lookup insert is_not_found erased
renamed_club = refl

read-update_topic_state_example :
    (read (id_key topic_model (str "t1")) with_renamed ≡ ok (some (str "e2")))
    × (read (data_key topic_model renamed_topic.event) with_renamed ≡ ok (some (1 ∷ [])))
    × (read (topic_ref_key club_topic) with_renamed ≡ read (topic_ref_key club_topic) with_club)
unfolding topic_ref_key id_key data_key model_text is_empty str_eq get_id get_topic_by_id
    get_state_by_id state_store entity_data_key create_topic_state create_state topic_param
    topic_keys account_topics_key timestamp_string decimal rest_value is_taken read found equal_fold
    lower lookup insert is_not_found
read-update_topic_state_example =
    read-update_topic_state one_topic (str "t1") (str "t1") club_topic renamed_topic club_topic
      renamed_topic false club_stores with_club with_renamed refl refl (apart _ _ refl)
      (apart _ _ refl, (apart _ _ refl, tt)) (apart _ _ refl, (apart _ _ refl, tt))
      (apart _ _ refl, (apart _ _ refl, (apart _ _ refl, (apart _ _ refl, tt)))) renamed_club

abbrev counter_list : List Str
counter_list = result_or [] (counter_keys 3 (str "v1") (str "s1"))

abbrev counted_once : Cells
counted_once = result_or [] (increment_counters 3 (str "v1") (str "s1") [])

count_at-increment_counters_example :
    count_at (network_counter_key (some (str "s1"))) counted_once
    ≡ ok (0 + occurrences (network_counter_key (some (str "s1"))) counter_list)
unfolding counter_keys increment_counters increment_each increment_counter_by_key count_at raised
    read found is_not_found network_counter_key cycle_counter_key padded decimal lookup insert
    str_eq big_bytes big_number
count_at-increment_counters_example =
    count_at-increment_counters 3 (str "v1") (str "s1") (network_counter_key (some (str "s1")))
      counter_list 0 [] counted_once refl refl refl

abbrev no_count : AccountCount
no_count = record { system = []; network_stats = []; count = 0; error = none }

abbrev alice_counted : AccountCount
alice_counted = result_or no_count (update_account_counter (str "alice") [] [])

update_account_counter_once_example :
    (alice_counted.count ≡ (0 + 1) % 2 ^ 64)
    × (get_num_accounts alice_counted.system ≡ ok alice_counted.count)
    × (alice_counted ≡ alice_counted)
unfolding update_account_counter get_num_accounts counted read found is_not_found lookup insert
    str_eq big_bytes big_number
update_account_counter_once_example =
    update_account_counter_once (str "alice") [] [] 0 not_found alice_counted alice_counted refl
      refl refl refl refl refl refl

read-create_state_example :
    read (topic_ref_key club_topic) with_club
    ≡ final_value
        (topic_param one_topic club_topic)
        (topic_ref_key club_topic)
        (topic_keys club_topic)
        (ok none)
unfolding create_topic_state create_state topic_param topic_keys topic_ref_key account_topics_key
    id_key data_key timestamp_string model_text get_id is_empty decimal rest_value is_taken read
    found equal_fold lower str_eq lookup insert is_not_found
read-create_state_example =
    read-create_state (topic_param one_topic club_topic) (topic_ref_key club_topic) [] with_club
      refl
