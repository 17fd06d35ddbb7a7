-- ===== src/Entities/Wire.antt =====
-- The EncodeBytes and GetHash methods of entities/, and ChainId.Bytes of configs/config.go.
use go_m_layer.Prelude.{
  ℕ, suc, ◌-◌, ◌^◌, Bool, false, not, Option, none, some, List, [], ◌∷◌, ◌++◌, Str, str, is_empty,
  decimal, hex_prefix, hex_valid, length, replicate, leb, if◌then◌else◌, ◌==◌, Outcome, ok, fail,
  panic, text, ◌>>=◌, deref,
}
use go_m_layer.External.{External, Bytes}
use go_m_layer.Encoding.{
  EncoderParam, byte, string, int, bool, hex, address, encode_bytes, parse_uint, big_bytes,
}
use go_m_layer.Entities.Ids.{ℤ, pos, negsuc}
use go_m_layer.Entities.Did.{addr_of}
use go_m_layer.Entities.Records.{
  Authorization, Subnet, Topic, Subscription, MessageAction, Message, State, subnet_state,
  authorization_state, topic_state, subscription_state, message_state, ClientPayload, Event,
  uuid_to_bytes,
}

-- fmt.Sprintf("%v", i) of an int64
unfoldable pub print_int : ℤ → Str
print_int (pos n) = decimal n
print_int (negsuc n) = 45 ∷ decimal (suc n)

-- The number that SafePointerValue(p, 0) prints.
safe_number : Option ℕ → ℕ
safe_number none = 0
safe_number (some n) = n

safe_bool : Option Bool → Bool
safe_bool none = false
safe_bool (some b) = b

-- The absolute value that strconv.Atoi reads. FillBytes drops the sign.
within : ℕ → Option ℕ → Option ℕ
within limit none = none
within limit (some n) = if leb n limit then some n else none

atoi_abs : Str → Option ℕ
unfolding within
atoi_abs [] = none
atoi_abs (c ∷ rest) =
    if c == 45
    then within (2 ^ 63) (parse_uint rest)
    else if c == 43
    then within (2 ^ 63 - 1) (parse_uint rest)
    else within (2 ^ 63 - 1) (parse_uint (c ∷ rest))

fill_bytes : ℕ → ℕ → Bytes
fill_bytes size n = let b = big_bytes n in replicate (size - length b) 0 ++ b

-- ChainId.Bytes
unfoldable pub chain_id_bytes : Str → Bytes
unfolding atoi_abs fill_bytes
chain_id_bytes s = elim (atoi_abs s) [ none ↦ s | some n ↦ fill_bytes 32 n ]

int_of : ℕ → EncoderParam
int_of n = int (decimal n)

module _ ⦃x : External⦄ where
  unfoldable pub authorization_bytes : Authorization → Outcome Bytes
  unfolding int_of
  authorization_bytes g = do
    duration ← deref g.duration
    priviledge ← deref g.priviledge
    timestamp ← deref g.timestamp
    encode_bytes (
        address g.account
        ∷ hex (addr_of g.agent)
        ∷ int_of duration
        ∷ string g.meta
        ∷ int_of priviledge
        ∷ byte (uuid_to_bytes g.subnet)
        ∷ int_of timestamp
        ∷ string g.topic_ids
        ∷ [])

  -- The categories are encoded, and can fail, but are no part of the result.
  encode_categories : List ℤ → Outcome Bytes
  encode_categories [] = ok []
  encode_categories (c ∷ cs) = do
    b ← encode_bytes (int (print_int c) ∷ [])
    rest ← encode_categories cs
    ok (b ++ rest)

  unfoldable pub subnet_bytes : Subnet → Outcome Bytes
  unfolding int_of safe_number encode_categories
  subnet_bytes s = do
    cats ← encode_categories s.categories
    encode_bytes (
        string s.account
        ∷ int_of (safe_number s.default_auth_privilege)
        ∷ string s.meta
        ∷ string s.ref
        ∷ int_of (safe_number s.status)
        ∷ int_of s.timestamp
        ∷ [])

  unfoldable pub topic_bytes : Topic → Outcome Bytes
  unfolding int_of safe_number safe_bool
  topic_bytes t = encode_bytes (
      int_of (safe_number t.default_subscriber_role)
      ∷ byte (uuid_to_bytes t.id)
      ∷ string t.meta
      ∷ byte (uuid_to_bytes t.parent_topic)
      ∷ bool (safe_bool t.is_public)
      ∷ bool (safe_bool t.read_only)
      ∷ string t.ref
      ∷ [])

  unfoldable pub subscription_bytes : Subscription → Outcome Bytes
  unfolding int_of safe_number
  subscription_bytes s = encode_bytes (
      string s.meta
      ∷ string s.ref
      ∷ int_of (safe_number s.role)
      ∷ int_of (safe_number s.status)
      ∷ string s.subscriber
      ∷ byte (uuid_to_bytes s.topic)
      ∷ [])

  -- An error of the encoding is dropped with its bytes.
  bytes_or_none : Outcome Bytes → Outcome Bytes
  bytes_or_none (ok b) = ok b
  bytes_or_none (fail e) = ok []
  bytes_or_none panic = panic

  join_parameters : List Str → Bytes
  join_parameters [] = []
  join_parameters (p ∷ ps) = p ++ join_parameters ps

  unfoldable pub action_bytes : MessageAction → Outcome Bytes
  unfolding bytes_or_none join_parameters
  action_bytes a = bytes_or_none (
      encode_bytes (
        hex a.contract ∷ string a.abi ∷ string a.action ∷ byte (join_parameters a.parameters) ∷ []))

  unfoldable pub actions_bytes : List MessageAction → Outcome Bytes
  unfolding action_bytes
  actions_bytes [] = ok []
  actions_bytes (a ∷ rest) = do b ← action_bytes a; more ← actions_bytes rest; ok (b ++ more)

  unfoldable pub message_bytes : Message → Outcome Bytes
  unfolding actions_bytes int_of
  message_bytes m = do
    actions ← actions_bytes m.actions
    encode_bytes (
        byte actions
        ∷ byte (hex_prefix m.content)
        ∷ string m.data_type
        ∷ int_of m.nonce
        ∷ address m.receiver
        ∷ address m.sender
        ∷ byte (uuid_to_bytes m.topic)
        ∷ [])

  unfoldable pub state_bytes : State → Outcome Bytes
  unfolding subnet_bytes authorization_bytes topic_bytes subscription_bytes message_bytes
  state_bytes (subnet_state s) = subnet_bytes s
  state_bytes (authorization_state a) = authorization_bytes a
  state_bytes (topic_state t) = topic_bytes t
  state_bytes (subscription_state s) = subscription_bytes s
  state_bytes (message_state m) = message_bytes m

  hash_of_content : Option State → Outcome Bytes
  unfolding state_bytes
  hash_of_content none = ok []
  hash_of_content (some s) = do b ← state_bytes s; ok (x.keccak256 b)

  subnet_param : Str → List EncoderParam
  subnet_param s = if not (is_empty s) then byte (uuid_to_bytes s) ∷ [] else []

  account_param : Str → List EncoderParam
  account_param s = if not (is_empty s) then address s ∷ [] else []

  -- ClientPayload.EncodeBytes
  unfoldable pub payload_bytes : ClientPayload → Outcome Bytes
  unfolding hash_of_content subnet_param account_param int_of
  payload_bytes p = do
    hashed ← hash_of_content p.content
    encode_bytes (
        (byte (chain_id_bytes p.chain_id) ∷ byte hashed ∷ int_of p.event_type ∷ string p.id ∷ [])
        ++ (subnet_param p.subnet
            ++ (account_param p.account
                ++ (hex p.validator ∷ int_of p.nonce ∷ int_of p.timestamp ∷ []))))

  hex_decode : Str → Outcome Bytes
  hex_decode s =
      if hex_valid s then ok (hex_prefix s) else fail (text (str "encoding/hex: invalid byte"))

  -- The GetHash methods return a hash that is set, decoded, and compute it otherwise.
  cached_hash : Str → (Bytes → Bytes) → Outcome Bytes → Outcome Bytes
  unfolding hex_decode
  cached_hash hash f encoded =
      if not (is_empty hash) then hex_decode hash else (do b ← encoded; ok (f b))

  unfoldable pub payload_hash : ClientPayload → Outcome Bytes
  unfolding cached_hash
  payload_hash p = cached_hash p.hash x.keccak256 (payload_bytes p)

  -- A subscription's hash is always computed anew.
  unfoldable pub state_hash : State → Outcome Bytes
  unfolding cached_hash
  state_hash (subnet_state s) = cached_hash s.hash x.sha256 (subnet_bytes s)
  state_hash (authorization_state a) = cached_hash a.hash x.sha256 (authorization_bytes a)
  state_hash (topic_state t) = cached_hash t.hash x.sha256 (topic_bytes t)
  state_hash (subscription_state s) = do b ← subscription_bytes s; ok (x.keccak256 b)
  state_hash (message_state m) = cached_hash m.hash x.keccak256 (message_bytes m)

  join : List Str → Str
  join [] = []
  join (a ∷ rest) = a ++ join rest

  -- The arguments of Event.EncodeBytes behind the payload's bytes.
  unfoldable pub event_params : Event → List EncoderParam
  unfolding join int_of
  event_params e =
      string (join e.associations)
      ∷ byte (uuid_to_bytes e.auth_event.id)
      ∷ int_of e.block_number
      ∷ int_of e.cycle
      ∷ int_of e.epoch
      ∷ int_of e.event_type
      ∷ byte (uuid_to_bytes e.previous_event.id)
      ∷ byte (uuid_to_bytes e.subnet)
      ∷ int_of e.timestamp
      ∷ int (print_int e.index)
      ∷ []

  -- Event.EncodeBytes: what the validator signs
  unfoldable pub event_bytes : Event → Outcome Bytes
  unfolding event_params
  event_bytes e = do d ← payload_bytes e.payload; encode_bytes (byte d ∷ event_params e)
