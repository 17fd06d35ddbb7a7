-- ===== src/Store/Topics.antt =====
-- internal/ds/query/topic.go
pub mod Facts
pub mod Update
use go_m_layer.Prelude.{
  Bool, ◌&&◌, Option, none, some, List, Str, is_empty, if◌then◌else◌, Outcome, ok, fail,
  is_not_found, attempt, ◌>>=◌,
}
use go_m_layer.External.{External, Bytes}
use go_m_layer.Entities.Ids.{topic_model, EventPath}
use go_m_layer.Entities.Records.{Topic, topic_state, get_id}
use go_m_layer.Entities.Keys.{
  Clock, id_key, data_key, topic_keys, topic_ref_key, account_topics_key,
}
use go_m_layer.Store.KeyValue.{
  KeyValue, QueryLimit, default_query_limit, limits_or, collect, read, write,
}
use go_m_layer.Store.Codec.{Codec}
use go_m_layer.Store.States.{
  CreateStateParam, NewStateParam, Stores, create_state, update_state, get_state_by_id,
}

module _ ⦃x : External⦄ ⦃c : Clock⦄ ⦃kv : KeyValue⦄ (codec : Codec) where
  open kv use {Store, Txn, new_key, get, prefixed, txn_prefixed}

  -- GetTopicById
  unfoldable pub get_topic_by_id : Str → Stores → Outcome Topic
  unfolding get_state_by_id
  get_topic_by_id id stores = get_state_by_id id topic_model stores >>= codec.unpack_topic

  -- GetTopicByEvent
  unfoldable pub get_topic_by_event : EventPath → Stores → Outcome Topic
  unfolding data_key
  get_topic_by_event event stores =
      get (new_key (data_key topic_model event)) stores.state >>= codec.unpack_topic

  account_entries : Str → QueryLimit → Option Txn → Stores → Outcome (List (Str × Bytes))
  account_entries prefix l (some t) stores = txn_prefixed prefix l.limit l.offset t
  account_entries prefix l none stores = prefixed prefix l.limit l.offset stores.state

  -- GetAccountTopics
  unfoldable pub get_account_topics :
      Topic → Option QueryLimit → Option Txn → Stores → Outcome (List Topic)
  unfolding account_entries limits_or collect account_topics_key get_topic_by_id
  get_account_topics topic limits txn stores = do
    entries ←
        account_entries (account_topics_key topic) (limits_or default_query_limit limits) txn stores
    collect (λ entry. get_topic_by_id entry.1 stores) entries

  -- The parameter of CreateState for a topic that has its id.
  unfoldable pub topic_param : Topic → CreateStateParam
  unfolding topic_ref_key id_key data_key topic_keys
  topic_param t = record {
    id = t.id;
    model = topic_model;
    id_key = id_key topic_model t.id;
    data_key = data_key topic_model t.event;
    ref_key = some (topic_ref_key t);
    keys = topic_keys t;
    content = codec.pack (topic_state t);
    event_hash = t.event.id;
    rest_key_value = none;
  }

  -- CreateTopicState. A topic without an id is given one, by Key.
  unfoldable pub create_topic_state : Topic → Txn → Outcome (Topic × Txn)
  unfolding topic_param create_state get_id is_empty
  create_topic_state t txn = do
    id ← get_id t.event_signature t.id
    let named = record t { id = id }
    u ← create_state (topic_param named) txn
    ok (named, u)

  -- The reference of a topic is moved from the text of the old one to the text of the new one, which
  -- are not the keys that CreateTopicState writes.
  topic_update : Str → Topic → Topic → NewStateParam
  unfolding id_key data_key
  topic_update id t old = record {
    old_id_key = id_key topic_model id;
    data_key = data_key topic_model t.event;
    event_hash = t.event.id;
    content = codec.pack (topic_state t);
    ref_key = some t.ref;
    old_ref_key = some old.ref;
  }

  update_topic : Str → Topic → Topic → Txn → Outcome (Topic × Txn)
  unfolding update_state topic_update
  update_topic id t old txn = do u ← update_state id (topic_update id t old) txn; ok (t, u)

  -- UpdateTopicState: the old state is read from the store, not from the transaction.
  unfoldable pub update_topic_state : Str → Topic → Txn → Stores → Bool → Outcome (Topic × Txn)
  unfolding update_topic get_topic_by_id create_topic_state get_id
  update_topic_state given t txn stores create = do
    id ← get_id t.event_signature given
    attempt (get_topic_by_id id stores) (λ old. update_topic id t old txn)
        λ e. if is_not_found (some e) && create then create_topic_state t txn else fail e
