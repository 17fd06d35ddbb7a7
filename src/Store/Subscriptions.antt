-- ===== src/Store/Subscriptions.antt =====
-- internal/ds/query/subscription.go
use go_m_layer.Prelude.{
  ℕ, Bool, false, not, ◌&&◌, ◌||◌, Option, none, some, List, [], ◌∷◌, Str, str, str_eq, is_empty,
  equal_fold, length, ltb, if◌then◌else◌, Outcome, ok, fail, text, is_not_found, attempt, ◌>>=◌,
  ◌>>◌, reject_if,
}
use go_m_layer.External.{External, Bytes}
use go_m_layer.Entities.Ids.{subscription_model, EventPath, empty_path}
use go_m_layer.Entities.Records.{Subscription, subscription_state, get_id, zero_subscription}
use go_m_layer.Entities.Keys.{
  Clock, data_key, subscription_key, subscription_keys, subscription_ref_key, subscriber_key,
  subscribed_topics_key, subscription_status_key,
}
use go_m_layer.DataStates.{is_nil}
use go_m_layer.Store.KeyValue.{
  KeyValue, QueryLimit, default_query_limit, limits_or, collect, after_last_slash, read,
  txn_entries, try_delete, delete_entries,
}
use go_m_layer.Store.Codec.{Codec}
use go_m_layer.Store.States.{CreateStateParam, Stores, create_state}

module _ ⦃x : External⦄ ⦃c : Clock⦄ ⦃kv : KeyValue⦄ (codec : Codec) where
  open kv use {Store, Txn, new_key, get, prefixed, txn_prefixed}

  -- GetSubscriptionByEvent
  unfoldable pub get_subscription_by_event : EventPath → Stores → Outcome Subscription
  unfolding data_key
  get_subscription_by_event event stores =
      get (new_key (data_key subscription_model event)) stores.state >>= codec.unpack_subscription

  time_in_key : Option Str → Option ℕ
  time_in_key none = none
  time_in_key (some s) = some (c.parse_milliseconds s)

  -- A subscription without a timestamp takes the one in the entry's key.
  timed : Str → Option ℕ → Subscription → Subscription
  unfolding time_in_key after_last_slash
  timed key (some millis) s = s
  timed key none s = record s { timestamp = time_in_key (after_last_slash key) }

  unfoldable pub subscription_of_entry : Stores → Str × Bytes → Outcome Subscription
  unfolding timed get_subscription_by_event
  subscription_of_entry stores entry = do
    s ← get_subscription_by_event (record empty_path { id = entry.1 }) stores
    ok (timed entry.0 s.timestamp s)

  subscription_entries : Str → QueryLimit → Option Txn → Stores → Outcome (List (Str × Bytes))
  subscription_entries prefix l (some t) stores = txn_prefixed prefix l.limit l.offset t
  subscription_entries prefix l none stores = prefixed prefix l.limit l.offset stores.state

  -- The prefix that GetSubscriptions asks for.
  unfoldable pub subscriptions_prefix : Subscription → Str
  unfolding is_nil is_empty subscribed_topics_key subscription_status_key subscriber_key
  subscriptions_prefix filter =
      if not (is_nil filter.status) && (is_empty filter.topic && not (is_empty filter.subscriber))
      then subscribed_topics_key filter
      else if not (is_nil filter.status)
      then subscription_status_key filter
      else subscriber_key filter

  -- GetSubscriptions; without limits all are asked for.
  unfoldable pub get_subscriptions :
      Subscription → Option QueryLimit → Option Txn → Stores → Outcome (List Subscription)
  unfolding subscriptions_prefix subscription_entries limits_or collect subscription_of_entry
  get_subscriptions filter limits txn stores = do
    entries ←
        subscription_entries (subscriptions_prefix filter)
          (limits_or (record { limit = 0; offset = 0 }) limits) txn stores
    collect (subscription_of_entry stores) entries

  -- GetSubscriptionStates
  unfoldable pub get_subscription_states :
      Str → Str → Str → QueryLimit → Stores → Outcome (List Subscription)
  unfolding subscriber_key subscription_entries collect get_subscription_by_event
  get_subscription_states subnet topic subscriber limits stores = do
    let filter = record zero_subscription {
      subnet = subnet;
      topic = topic;
      subscriber = subscriber;
    }
    entries ← subscription_entries (subscriber_key filter) limits none stores
    collect (λ entry. get_subscription_by_event (record empty_path { id = entry.1 }) stores) entries

  -- The keys of one earlier subscription that go. The source compares the addresses of the two
  -- statuses, and that of the earlier one is fresh: they are equal only where both are nil.
  drop_earlier : Subscription → Subscription → Txn → Outcome Txn
  unfolding try_delete subscription_ref_key subscribed_topics_key is_nil
  drop_earlier new sub t = do
    u ←
        if equal_fold (subscription_ref_key sub) (subscription_ref_key new)
        then ok t
        else try_delete (subscription_ref_key sub) t
    if is_nil sub.status && is_nil new.status
        then ok u
        else try_delete (subscribed_topics_key sub) u

  drop_each_earlier : Subscription → List Subscription → Txn → Outcome Txn
  unfolding drop_earlier
  drop_each_earlier new [] t = ok t
  drop_each_earlier new (sub ∷ subs) t = do u ← drop_earlier new sub t; drop_each_earlier new subs u

  -- An answer that nothing was found is an empty list here.
  or_no_subscriptions : Outcome (List Subscription) → Outcome (List Subscription)
  or_no_subscriptions m =
      attempt m (λ subs. ok subs) λ e. if is_not_found (some e) then ok [] else fail e

  time_or_now : Option ℕ → ℕ
  time_or_now none = c.now 0
  time_or_now (some millis) = millis

  held_by_other : Str → Option Bytes → Bool
  held_by_other id none = false
  held_by_other id (some v) = ltb 0 (length v) && not (str_eq v id)

  -- A reference that another subscription holds is refused, under the name of the subnets.
  check_ref : Subscription → Txn → Outcome (Option Str)
  unfolding read held_by_other subscription_ref_key
  check_ref s t =
      if ltb 0 (length s.ref)
      then (do
        held ← read (subscription_ref_key s) t
        reject_if (held_by_other s.id held) (text (str "\"snet\" ref already exists"))
        ok (some (subscription_ref_key s)))
      else ok none

  -- The parameter of CreateState for a subscription that has its id and its timestamp.
  unfoldable pub subscription_param : Subscription → Option Str → List Str → CreateStateParam
  unfolding subscription_key data_key
  subscription_param s ref keys = record {
    id = s.id;
    model = subscription_model;
    id_key = subscription_key s;
    data_key = data_key subscription_model s.event;
    ref_key = ref;
    keys = keys;
    content = codec.pack (subscription_state s);
    event_hash = s.event.id;
    rest_key_value = none;
  }

  -- CreateSubscriptionState
  unfoldable pub create_subscription_state :
      Subscription → Txn → Stores → Outcome (Subscription × Txn)
  unfolding is_empty get_id get_subscriptions or_no_subscriptions drop_each_earlier txn_entries
      delete_entries subscriber_key subscription_status_key time_or_now check_ref subscription_keys
      subscription_param create_state
  create_subscription_state given t stores = do
    reject_if (is_empty given.subscriber || (is_empty given.topic || is_empty given.subnet))
        (text (str "new state must include acc, snet and agent fields"))
    id ← get_id given.event_signature given.id
    let s = record given { id = id }
    let filter = record zero_subscription { topic = s.topic; subscriber = s.subscriber }
    subs ← or_no_subscriptions (get_subscriptions filter (some default_query_limit) (some t) stores)
    u ← drop_each_earlier s subs t
    entries ← txn_entries (subscriber_key s) u
    v ← delete_entries entries u
    status_entries ← txn_entries (subscription_status_key s) v
    w ← delete_entries status_entries v
    let millis = time_or_now s.timestamp
    let timed_state = record s { timestamp = some millis }
    ref ← check_ref timed_state w
    keys ← subscription_keys timed_state millis
    y ← create_state (subscription_param timed_state ref keys) w
    ok (timed_state, y)
