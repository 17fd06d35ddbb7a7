-- ===== src/Entities/Records/Zero.antt =====
-- The zero values of the structs of entities/.
use go_m_layer.Prelude.{false, none, []}
use go_m_layer.Entities.Ids.{pos, empty_path}
use go_m_layer.Entities.Records.Structs.{
  Authorization, Topic, Subscription, ClientPayload, Event, other_key,
}

-- The zero values of the structs.
abbrev pub zero_payload : ClientPayload
zero_payload = record {
  id = [];
  content = none;
  timestamp = 0;
  event_type = 0;
  nonce = 0;
  account = [];
  chain_id = [];
  validator = [];
  signature = [];
  hash = [];
  agent = [];
  subnet = [];
  page = 0;
  per_page = 0;
}

abbrev pub zero_event : Event
zero_event = record {
  id = [];
  payload = zero_payload;
  nonce = [];
  timestamp = 0;
  event_type = 0;
  associations = [];
  previous_event = empty_path;
  auth_event = empty_path;
  payload_hash = [];
  error = [];
  hash = [];
  signature = [];
  broadcasted = false;
  block_number = 0;
  cycle = 0;
  epoch = 0;
  is_valid = none;
  synced = none;
  validator = [];
  subnet = [];
  index = pos 0;
  total = pos 0;
}

abbrev pub zero_authorization : Authorization
zero_authorization = record {
  id = [];
  agent = [];
  meta = [];
  account = [];
  grantor = [];
  priviledge = none;
  topic_ids = [];
  timestamp = none;
  duration = none;
  signature_data = record { ty = other_key []; public_key = []; signature = [] };
  hash = [];
  event = empty_path;
  subnet = [];
  block_number = 0;
  cycle = 0;
  epoch = 0;
  event_signature = [];
}

abbrev pub zero_subscription : Subscription
zero_subscription = record {
  id = [];
  topic = [];
  ref = [];
  meta = [];
  subnet = [];
  subscriber = [];
  status = none;
  role = none;
  timestamp = none;
  hash = [];
  event = empty_path;
  agent = [];
  block_number = 0;
  cycle = 0;
  epoch = 0;
  event_signature = [];
}

abbrev pub zero_topic : Topic
zero_topic = record {
  id = [];
  ref = [];
  meta = [];
  parent_topic = [];
  subscriber_count = 0;
  account = [];
  agent = [];
  is_public = none;
  default_subscriber_role = none;
  read_only = none;
  event = empty_path;
  hash = [];
  timestamp = 0;
  subnet = [];
  block_number = 0;
  cycle = 0;
  epoch = 0;
  event_signature = [];
}
