-- ===== src/Entities/Keys.antt =====
-- The keys of entities/ under which states and events are stored, and those of counters.
use go_m_layer.Prelude.{
  ℕ, ◌*◌, ◌%◌, ◌^◌, Bool, not, ◌&&◌, Option, none, some, List, [], ◌∷◌, ◌++◌, Str, str, is_empty,
  str_eq, padded, decimal, length, ltb, take, map, ◌==◌, if◌then◌else◌, Outcome, ok, panic, ◌>>=◌,
  deref,
}
use go_m_layer.Entities.Ids.{
  EntityModel, auth_model, topic_model, subscription_model, message_model, subnet_model, model_text,
  model_of_event_type, EventPath,
}
use go_m_layer.Entities.Records.{Authorization, Subnet, Topic, Subscription, Message, Event}

-- What the source takes from package `time`: the readings of `time.Now().UnixMilli()` of one call, in
-- their order, and `Time.Format("20060102150405000")` in the local zone of the instant that the int64
-- of this bit pattern counts in nanoseconds.
pub record Clock : Type 0 where
  pub now : ℕ → ℕ
  pub format_nanoseconds : ℕ → Str
  -- uint64(date.UnixMilli()) of what time.Parse("200602011504000", …) returns, beside any error
  pub parse_milliseconds : Str → ℕ

-- fmt.Sprintf(DataKey, model, item.Event.ID)
unfoldable pub data_key : EntityModel → EventPath → Str
unfolding model_text
data_key model event = str "data/" ++ (model_text model ++ (str "/" ++ event.id))

-- Texts joined by slashes.
infixr 30 ◌⟋◌
abbrev pub ◌⟋◌ : Str → Str → Str
a ⟋ b = a ++ (47 ∷ b)

-- fmt.Sprintf("%s/id/%s", model, id)
unfoldable pub id_key : EntityModel → Str → Str
unfolding model_text
id_key model id = model_text model ⟋ str "id" ⟋ id

-- Event.DataKey, VectorKey and SubnetKey
unfoldable pub event_data_key : Str → Str
event_data_key id = str "id" ⟋ id

unfoldable pub vector_key : Event → Str → Str
vector_key e topic = str "vec" ⟋ e.validator ⟋ topic

unfoldable pub subnet_cycle_key : Event → Str
subnet_cycle_key e = str "snet" ⟋ e.subnet ⟋ padded 15 e.cycle

-- Event.BlockKey at a reading of the clock
unfoldable pub block_key : ℕ → Event → Str
block_key millis e =
    if not (is_empty e.id)
    then str "/bl" ⟋ padded 20 e.block_number ⟋ padded 15 millis ⟋ e.id
    else if not (e.block_number == 0)
    then str "/bl" ⟋ padded 20 e.block_number
    else str "bl"

-- Event.GetKeys
unfoldable pub event_keys : ℕ → Event → List Str
event_keys millis e = subnet_cycle_key e ∷ block_key millis e ∷ event_data_key e.id ∷ []

-- CycleCounterKey, which reads the validator unless all three are nil.
unfoldable pub cycle_counter_key : ℕ → Option Str → Option Bool → Option Str → Outcome Str
cycle_counter_key cycle none none none = ok (str "cy" ⟋ padded 15 cycle ⟋ str "n")
cycle_counter_key cycle none _ _ = panic
cycle_counter_key cycle (some v) none _ = ok (str "cy" ⟋ padded 15 cycle ⟋ v)
cycle_counter_key cycle (some v) (some claimed) none =
    ok (str "cy" ⟋ padded 15 cycle ⟋ v ⟋ (if claimed then str "1" else str "0"))
cycle_counter_key cycle (some v) (some claimed) (some subnet) =
    ok (str "cy" ⟋ padded 15 cycle ⟋ v ⟋ (if claimed then str "1" else str "0") ⟋ subnet)

-- NetworkCounterKey
unfoldable pub network_counter_key : Option Str → Str
network_counter_key none = str "net/"
network_counter_key (some subnet) = str "net" ⟋ subnet

-- CycleSubnetKey
unfoldable pub cycle_subnet_key : ℕ → Str → Str
cycle_subnet_key cycle subnet = str "cyc" ⟋ padded 15 cycle ⟋ subnet

-- RecentEventKey
unfoldable pub recent_event_key : ℕ → Str
recent_event_key cycle = str "c" ⟋ padded 15 cycle ⟋ str "e"

-- GetBlockStatsKeys
unfoldable pub block_stats_keys : Event → List Str
unfolding model_of_event_type recent_event_key model_text
block_stats_keys e =
    str "e"
    ∷ (str "e" ⟋ model_text (model_of_event_type e.event_type))
    ∷ (str "b" ⟋ padded 15 e.block_number ⟋ model_text (model_of_event_type e.event_type))
    ∷ (str "b" ⟋ padded 15 e.block_number)
    ∷ (str "e" ⟋ padded 15 e.epoch)
    ∷ (str "c" ⟋ padded 15 e.cycle)
    ∷ recent_event_key e.cycle
    ∷ []

-- AgentCountKey
unfoldable pub agent_count_key : Str
agent_count_key = str "sub/agents"

-- strings.ReplaceAll(key, "/", ":")
colons : Str → Str
colons = map λ c. if c == 47 then 58 else c

-- Subnet.RefKey and Topic.RefKey
unfoldable pub subnet_ref_key : Subnet → Str
subnet_ref_key s = str "snet|ref|" ++ s.ref

unfoldable pub topic_ref_key : Topic → Str
topic_ref_key t = if is_empty t.ref then [] else str "top|ref|" ++ (t.subnet ++ (124 ∷ t.ref))

unfoldable pub subscription_ref_key : Subscription → Str
subscription_ref_key s = str "sub|ref|" ++ s.ref

-- GetAccountTopicsKey
unfoldable pub account_topics_key : Topic → Str
account_topics_key t =
    if not (is_empty t.subnet)
    then (if not (is_empty t.agent)
        then str "top/sub" ⟋ t.subnet ⟋ t.account ⟋ t.agent
        else str "top/sub" ⟋ t.subnet ⟋ t.account)
    else str "top/sub" ⟋ t.subnet

-- AccountSubnetsKey
unfoldable pub account_subnets_key : Subnet → Str
account_subnets_key s = str "snet/acct" ⟋ s.account

-- AuthorizedAgentStateKey
unfoldable pub authorized_agent_state_key : Authorization → Str
authorized_agent_state_key a =
    if is_empty a.account
    then str "auth/agt" ⟋ a.agent ⟋ a.subnet
    else str "auth/agt" ⟋ a.agent ⟋ a.subnet ⟋ a.account

-- AccountAuthorizationsKey
unfoldable pub account_authorizations_key : Authorization → Str
account_authorizations_key a =
    if not (is_empty a.topic_ids) && not (str_eq a.topic_ids (str "*"))
    then str "auth/agt" ⟋ a.account ⟋ a.subnet ⟋ a.agent ⟋ a.topic_ids
    else if not (is_empty a.subnet)
    then (if not (is_empty a.agent)
        then str "auth/agt" ⟋ a.account ⟋ a.subnet ⟋ a.agent
        else str "auth/agt" ⟋ a.account ⟋ a.subnet)
    else str "auth/agt" ⟋ a.account

-- Authorization.Key
unfoldable pub authorization_key : Authorization → Str
unfolding colons account_authorizations_key
authorization_key a = str "auth/id" ⟋ colons (account_authorizations_key a)

-- SubscriberKey, SubscribedTopicsKey and SubscriptionStatusKey
unfoldable pub subscriber_key : Subscription → Str
subscriber_key s =
    if not (is_empty s.subscriber)
    then str "sub/sub" ⟋ s.topic ⟋ s.subscriber
    else str "sub/sub" ⟋ s.topic

unfoldable pub subscribed_topics_key : Subscription → Str
subscribed_topics_key s =
    if not (is_empty s.subscriber)
    then str "sub/sub" ⟋ s.subscriber ⟋ s.topic
    else str "sub/sub" ⟋ s.subscriber

unfoldable pub subscription_status_key : Subscription → Str
subscription_status_key s = str "sub/st" ⟋ s.topic ⟋ s.subscriber

-- Subscription.Key
unfoldable pub subscription_key : Subscription → Str
unfolding colons subscriber_key
subscription_key s = str "sub/id" ⟋ colons (subscriber_key s)

-- Message.Key, which lacks the model
unfoldable pub message_key : Str → Str
message_key id = str "id" ⟋ id

-- msg.Hash[0:32]
unfoldable pub unique_id : Message → Outcome Str
unique_id m = if ltb (length m.hash) 32 then panic else ok (take 32 m.hash)

unfoldable pub topic_message_key : Message → Str
topic_message_key m = str "top" ⟋ m.topic

unfoldable pub message_sender_key : Message → Str
message_sender_key m =
    if not (is_empty m.topic) then str "s" ⟋ m.sender ⟋ m.topic else str "s" ⟋ m.sender

unfoldable pub message_receiver_key : Message → Str
message_receiver_key m =
    if not (is_empty m.topic) then str "msg/s" ⟋ m.receiver ⟋ m.topic else str "msg/s" ⟋ m.receiver

-- Without a topic the source writes the receiver twice.
unfoldable pub message_sender_receiver_key : Message → Str
message_sender_receiver_key m =
    if not (is_empty m.topic)
    then str "msg/s" ⟋ m.sender ⟋ m.receiver ⟋ m.topic
    else str "msg/s" ⟋ m.receiver ⟋ m.receiver

module _ ⦃c : Clock⦄ where
  -- IntMilliToTimestampString; the product is an int64.
  unfoldable pub timestamp_string : ℕ → Str
  timestamp_string millis = c.format_nanoseconds (millis * 1000000 % 2 ^ 64)

  -- The GetKeys of a subnet, once it has its id.
  unfoldable pub subnet_keys : Subnet → List Str
  subnet_keys s =
      (account_subnets_key s ⟋ timestamp_string s.timestamp ⟋ s.id)
      ∷ id_key subnet_model s.id
      ∷ subnet_ref_key s
      ∷ data_key subnet_model s.event
      ∷ (str "arc" ⟋ padded 10 s.cycle ⟋ s.hash)
      ∷ []

  -- The GetKeys of a topic, once it has its id.
  unfoldable pub topic_keys : Topic → List Str
  topic_keys t =
      (account_topics_key t ⟋ timestamp_string t.timestamp ⟋ t.id)
      ∷ id_key topic_model t.id
      ∷ data_key topic_model t.event
      ∷ topic_ref_key t
      ∷ []

  -- The GetKeys of an authorization that has its id; a nil timestamp panics.
  unfoldable pub authorization_keys : Authorization → Outcome (List Str)
  authorization_keys a = deref a.timestamp >>= λ millis. ok (
      (authorized_agent_state_key a ⟋ timestamp_string millis)
      ∷ (account_authorizations_key a ⟋ timestamp_string millis)
      ∷ authorization_key a
      ∷ data_key auth_model a.event
      ∷ (if not (str_eq a.account a.grantor)
          then (str "auth" ⟋ a.grantor ⟋ a.subnet ⟋ a.id) ∷ []
          else []))

  -- The GetKeys of a subscription with a timestamp. The source compares the address of the status with
  -- the addresses of two constants, which nothing else ever takes, so the test always passes.
  unfoldable pub subscription_keys : Subscription → ℕ → Outcome (List Str)
  subscription_keys s millis = deref s.status >>= λ status. ok (
      (subscriber_key s ⟋ timestamp_string millis)
      ∷ (subscription_status_key s ⟋ decimal status ⟋ timestamp_string millis)
      ∷ subscribed_topics_key s
      ∷ (subscription_status_key s ⟋ decimal status ⟋ timestamp_string millis)
      ∷ subscription_key s
      ∷ data_key subscription_model s.event
      ∷ (if ltb 0 (length s.ref) then subscription_ref_key s ∷ [] else []))

  -- The GetKeys of a message that has its id, with its EventTimestamp filled in.
  unfoldable pub message_keys : Message → Outcome (List Str)
  message_keys m = unique_id m >>= λ unique. ok (
      message_key m.id
      ∷ data_key message_model m.event
      ∷ (message_receiver_key m ⟋ timestamp_string m.event_timestamp ⟋ m.event.id)
      ∷ (message_sender_key m ⟋ timestamp_string m.event_timestamp ⟋ m.event.id)
      ∷ (message_sender_receiver_key m ⟋ timestamp_string m.event_timestamp ⟋ m.event.id)
      ∷ (topic_message_key m ⟋ timestamp_string m.event_timestamp ⟋ m.event.id)
      ∷ unique
      ∷ [])
