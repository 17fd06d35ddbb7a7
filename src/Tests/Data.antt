-- ===== src/Tests/Data.antt =====
-- A node, its store and its peers, as small as the runs allow, and the events that it handles.
use go_m_layer.Prelude.{true, none, some, [], ◌∷◌, Str, str, ok, fail, not_found}
use go_m_layer.External.{External}
use go_m_layer.Entities.Ids.{auth_model, empty_path, new_event_path}
use go_m_layer.Entities.Records.{
  SignatureData, ethereum, Authorization, Subnet, Event, zero_payload, zero_event,
  zero_authorization, zero_topic,
}
use go_m_layer.DataStates.{DataStates, new_data_states}
use go_m_layer.Service.Env.{Env}
use go_m_layer.Service.Process.Phase.{PayloadData}

-- The hash functions and the names by signature are the identity.
instance abbrev pub plain : External
plain = record {
  sha256 = λ b. b;
  keccak256 = λ b. b;
  hexutil_decode = λ s. ok s;
  uuid_from_bytes = λ b. ok b;
  base64_decode = λ s. ok s;
  base64_raw_decode = λ s. ok s;
  base64_partial = λ s. s;
}

abbrev pub a_signature : Str
a_signature = str "000102030405060708090a0b0c0d0e0f"

abbrev pub another_signature : Str
another_signature = str "101102030405060708090a0b0c0d0e0f"

abbrev pub ethereum_signature : SignatureData
ethereum_signature = record { ty = ethereum; public_key = []; signature = [] }

abbrev pub alice : Str
alice = str "alice"

abbrev pub bob : Str
bob = str "bob"

abbrev pub a_subnet : Subnet
a_subnet = record {
  id = [];
  meta = [];
  ref = str "club";
  categories = [];
  signature_data = ethereum_signature;
  status = some 1;
  timestamp = 5;
  balance = 0;
  account = alice;
  default_auth_privilege = some 40;
  event = empty_path;
  hash = [];
  block_number = 0;
  cycle = 0;
  epoch = 0;
  agent = [];
  owner = [];
  event_signature = [];
}

abbrev pub an_authorization : Authorization
an_authorization = record zero_authorization {
  id = str "a1";
  account = alice;
  grantor = alice;
  agent = bob;
  subnet = str "s1";
  priviledge = some 20;
  timestamp = some 50000;
  signature_data = ethereum_signature;
}

-- The event by which alice authorized bob.
abbrev pub auth_event : Event
auth_event = record zero_event {
  id = str "e1";
  signature = a_signature;
  timestamp = 50000;
  synced = some true;
}

abbrev pub a_node : Env
a_node = record {
  public_key_edd_hex = str "node1";
  chain_id = str "1";
  validators = λ k. [];
  random_synced_node = ok (str "node2");
  event_by_id = λ id model. ok auth_event;
  subnet_by_id = λ id. ok a_subnet;
  topic_by_id = λ id. ok zero_topic;
  state_by_id = λ id model. ok id;
  account_authorizations = λ a. ok [];
  authorization_by_event = λ p. ok an_authorization;
  subscriptions = λ s. ok [];
  state_from_event_path = λ p. [];
  increment_counters = λ c v s. ok tt;
  update_event = λ e. ok tt;
  create_state = λ s. ok tt;
  p2p_event = λ p v. fail not_found;
  p2p_state = λ p v. fail not_found;
  pack = λ s. [];
  unpack_event = λ b m. ok auth_event;
  unpack_authorization = λ b. ok an_authorization;
  unpack_subnet = λ b. ok a_subnet;
  unpack_topic = λ b. ok zero_topic;
  partial_subnet = λ b. a_subnet;
  eth_message = λ b. b;
  signer_ecc = λ b s. ok bob;
  verify_ecc = λ a m s. true;
  verify_edd = λ k m s. ok true;
  verify_amino = λ m s a k. ok true;
}

-- An event of another node, which bob signed for alice.
abbrev pub an_event : Event
an_event = record zero_event {
  id = str "e2";
  validator = str "node2";
  signature = another_signature;
  timestamp = 60000;
  event_type = 1201;
  payload = record zero_payload {
    account = str "did:alice";
    agent = bob;
    timestamp = 61000;
    event_type = 1201;
    chain_id = str "1";
  };
  auth_event = new_event_path (str "node2") auth_model (str "e1");
}

abbrev pub no_local_state : PayloadData
no_local_state = record {
  subnet = str "s1";
  local_data_state = none;
  local_data_state_event = none;
}

-- Another event is collected already.
abbrev pub with_event : DataStates
with_event = record new_data_states {
  events = (str "e0", record zero_event { id = str "e0" }) ∷ [];
}
