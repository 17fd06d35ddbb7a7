-- ===== src/Store/Messages.antt =====
-- internal/ds/query/message.go
use go_m_layer.Prelude.{
  not, ◌&&◌, ◌||◌, Option, none, some, List, [], Str, str, str_eq, is_empty, split, if◌then◌else◌,
  ◌==◌, Outcome, ok, text, attempt, ◌>>=◌, ◌>>◌, reject_if,
}
use go_m_layer.External.{External, Bytes}
use go_m_layer.Entities.Ids.{message_model, empty_path}
use go_m_layer.Entities.Records.{Message, message_state, get_id}
use go_m_layer.Entities.Keys.{
  Clock, data_key, message_key, message_keys, unique_id, topic_message_key, message_sender_key,
  message_receiver_key, message_sender_receiver_key,
}
use go_m_layer.Store.KeyValue.{
  KeyValue, QueryLimit, default_query_limit, limits_or, collect, last_part,
}
use go_m_layer.Store.Codec.{Codec}
use go_m_layer.Store.States.{CreateStateParam, Stores, create_state}

-- The prefix that GetMessages asks for.
unfoldable pub messages_prefix : Message → Str
unfolding is_empty topic_message_key message_sender_key message_receiver_key
    message_sender_receiver_key
messages_prefix m =
    if not (is_empty m.sender) && not (is_empty m.receiver)
    then message_sender_receiver_key m
    else if not (is_empty m.receiver)
    then message_receiver_key m
    else if not (is_empty m.sender)
    then message_sender_key m
    else topic_message_key m

module _ ⦃x : External⦄ ⦃c : Clock⦄ ⦃kv : KeyValue⦄ (codec : Codec) where
  open kv use {Store, Txn, new_key, get, prefixed, txn_get, txn_prefixed}

  -- GetMessageByEventHash
  unfoldable pub get_message_by_event_hash : Str → Stores → Outcome Message
  unfolding data_key
  get_message_by_event_hash id stores =
      get (new_key (data_key message_model (record empty_path { id = id }))) stores.message
      >>= codec.unpack_message

  message_entries : Str → QueryLimit → Option Txn → Stores → Outcome (List (Str × Bytes))
  message_entries prefix l (some t) stores = txn_prefixed prefix l.limit l.offset t
  message_entries prefix l none stores = prefixed prefix l.limit l.offset stores.message

  -- GetMessages: every entry's key ends in the id of the message's event.
  unfoldable pub get_messages :
      Message → Option QueryLimit → Option Txn → Stores → Outcome (List Message)
  unfolding messages_prefix message_entries limits_or collect last_part split
      get_message_by_event_hash topic_message_key is_empty
  get_messages filter limits txn stores =
      let prefix = messages_prefix filter in
      if str_eq prefix (topic_message_key filter) && is_empty filter.topic
      then ok []
      else (message_entries prefix (limits_or default_query_limit limits) txn stores >>= λ entries.
          collect (λ entry. get_message_by_event_hash (last_part (split 47 entry.0)) stores)
            entries)

  -- The message that is stored under the unique id. An error of the Get is dropped, and the value of
  -- a message that was created is empty.
  known_message : Outcome Bytes → Outcome (Option Message)
  unfolding is_empty
  known_message answer =
      attempt answer
        (λ b. if is_empty b then ok none else (codec.unpack_message b >>= λ m. ok (some m)))
        λ e. ok none

  time_of_message : Message → Message
  time_of_message m = if m.event_timestamp == 0 then record m { event_timestamp = c.now 0 } else m

  -- The parameter of CreateState; the bytes are those of the message before it got its time.
  unfoldable pub message_param : Message → Message → List Str → CreateStateParam
  unfolding message_key data_key
  message_param packed m keys = record {
    id = m.id;
    model = message_model;
    id_key = message_key m.id;
    data_key = data_key message_model m.event;
    ref_key = none;
    keys = keys;
    content = codec.pack (message_state packed);
    event_hash = m.event.id;
    rest_key_value = some [];
  }

  store_message : Message → Option Message → Txn → Outcome (Message × Txn)
  unfolding time_of_message message_keys message_param create_state
  store_message m (some known) t = ok (known, t)
  store_message m none t = do
    let timed = time_of_message m
    keys ← message_keys timed
    u ← create_state (message_param m timed keys) t
    ok (timed, u)

  -- CreateMessageState, in a transaction that is given
  unfoldable pub create_message_state : Message → Txn → Outcome (Message × Txn)
  unfolding is_empty get_id unique_id known_message store_message
  create_message_state given t = do
    reject_if (is_empty given.sender || (is_empty given.receiver && is_empty given.topic)) (
        text (
          str
            "new message state must include s (sender), and (r (receiver) or top (topic)) fields"))
    id ← get_id given.event_signature given.id
    let m = record given { id = id }
    unique ← unique_id m
    known ← known_message (txn_get (new_key unique) t)
    store_message m known t
