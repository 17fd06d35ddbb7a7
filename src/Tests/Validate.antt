-- ===== src/Tests/Validate.antt =====
-- Payloads that the checks accept, a mark, and an event that is published.
use go_m_layer.Prelude.{
  ◌≡◌, refl, true, false, none, some, [], ◌∷◌, ok, forbidden, str, lookup, str_has_eq, str_eq,
  is_empty, decimal, hex_prefix, hex_valid, split, trim_spaces, is_not_found, error_string,
}
use go_m_layer.Encoding.{to_base64_padded, add_base64_padding}
use go_m_layer.Entities.Did.{
  addr_of, address_from_string, build_address, device_string, to_did_string, did_to_string,
}
use go_m_layer.Entities.Records.{
  Authorization, Subnet, Topic, Message, ClientPayload, subnet_state, authorization_state,
  message_state, zero_payload, zero_topic, zero_subscription,
}
use go_m_layer.Entities.Wire.{payload_hash}
use go_m_layer.DataStates.{DataStates, event_at, add_event}
use go_m_layer.DataStates.Marks.{add_event-failed_mark}
use go_m_layer.Service.Env.{Env}
use go_m_layer.Service.Signature.{
  verify_auth_data_signature, verify_signature_data, signature_message,
}
use go_m_layer.Service.Sync.{sync_subnet, sync_typed_state}
use go_m_layer.Service.Process.Phase.{failed_mark}
use go_m_layer.Service.Validate.Authorization.{validate_auth_payload_data}
use go_m_layer.Service.Validate.Authorization.Facts.{
  GoodAuthorization, validate_auth_payload_data-GoodAuthorization,
}
use go_m_layer.Service.Validate.Topic.{validate_topic_data, is_alpha_numeric_dot}
use go_m_layer.Service.Validate.Topic.Facts.{GoodTopic, validate_topic_data-GoodTopic}
use go_m_layer.Service.Validate.Message.{
  validate_message_data, may_post, below, chosen_subscription,
}
use go_m_layer.Service.Validate.Message.Facts.{GoodMessage, validate_message_data-GoodMessage}
use go_m_layer.Service.Validate.Subnet.{validate_subnet_data, subnet_of, some_admin}
use go_m_layer.Service.Validate.Subnet.Facts.{
  GoodSubnet, AdminOf, validate_subnet_data-GoodSubnet, validate_subnet_data-AdminOf,
}
use go_m_layer.Tests.Data.{
  plain, a_node, an_event, a_subnet, an_authorization, with_event, alice, bob,
}

-- A node where an administrator and a subscription are stored.
abbrev store : Env
store = record a_node {
  account_authorizations = λ a. ok (record an_authorization { priviledge = some 40 } ∷ []);
  subscriptions = λ s. ok (record zero_subscription { role = some 10 } ∷ []);
  unpack_subnet = λ b. ok (record a_subnet { status = some 1 });
}

abbrev a_topic : Topic
a_topic = record zero_topic { ref = str "news.1"; account = alice; read_only = some false }

validate_topic_data-GoodTopic_example : GoodTopic a_topic (some an_authorization)
unfolding validate_topic_data is_alpha_numeric_dot is_empty
validate_topic_data-GoodTopic_example =
    validate_topic_data-GoodTopic store a_topic (some an_authorization) none refl

abbrev pub a_message : Message
a_message = record {
  id = [];
  topic = str "t1";
  receiver = [];
  content = [];
  data_type = [];
  actions = [];
  sender = bob;
  nonce = 0;
  agent = [];
  event = an_event.previous_event;
  hash = [];
  signature = [];
  data_hash = [];
  url = [];
  block_number = 0;
  cycle = 0;
  epoch = 0;
  subnet = [];
  event_signature = [];
  event_timestamp = 0;
}

abbrev message_payload : ClientPayload
message_payload = record zero_payload { account = bob; content = some (message_state a_message) }

validate_message_data-GoodMessage_example :
    GoodMessage store message_payload a_topic (some (record zero_subscription { role = some 10 }))
unfolding validate_message_data str_eq may_post below chosen_subscription
validate_message_data-GoodMessage_example =
    validate_message_data-GoodMessage store message_payload a_topic
      (some (record zero_subscription { role = some 10 })) refl

abbrev signed_authorization : Authorization
signed_authorization = record an_authorization { priviledge = some 30 }

abbrev auth_payload : ClientPayload
auth_payload = record zero_payload {
  account = alice;
  content = some (authorization_state signed_authorization);
  hash = str "0a";
}

validate_auth_payload_data-GoodAuthorization_example : GoodAuthorization store auth_payload
unfolding validate_auth_payload_data sync_subnet sync_typed_state is_empty str_eq addr_of
    address_from_string build_address split trim_spaces payload_hash hex_prefix hex_valid
    verify_auth_data_signature verify_signature_data signature_message to_base64_padded
    add_base64_padding device_string to_did_string did_to_string is_not_found
validate_auth_payload_data-GoodAuthorization_example =
    validate_auth_payload_data-GoodAuthorization store auth_payload []
      (some (record an_authorization { priviledge = some 40 }), none, a_subnet) refl

abbrev named_subnet : Subnet
named_subnet = record a_subnet { id = str "s1"; agent = bob }

abbrev subnet_payload : ClientPayload
subnet_payload = record zero_payload { content = some (subnet_state named_subnet); hash = str "0a" }

subnet_accepted : validate_subnet_data store subnet_payload (str "1") ≡ ok (some a_subnet)
unfolding validate_subnet_data is_empty is_alpha_numeric_dot payload_hash hex_prefix hex_valid
    verify_signature_data some_admin subnet_of addr_of address_from_string build_address split
    trim_spaces signature_message to_base64_padded add_base64_padding
subnet_accepted = refl

validate_subnet_data-GoodSubnet_example : GoodSubnet store subnet_payload (str "1")
validate_subnet_data-GoodSubnet_example =
    validate_subnet_data-GoodSubnet store subnet_payload (str "1") (some a_subnet) subnet_accepted

validate_subnet_data-AdminOf_example : AdminOf store named_subnet
unfolding is_empty
validate_subnet_data-AdminOf_example =
    validate_subnet_data-AdminOf store subnet_payload (str "1") named_subnet (some a_subnet) refl
      refl refl subnet_accepted

add_event-failed_mark_example :
    (new : DataStates) × (add_event (failed_mark (str "e0") (forbidden (str "no"))) with_event
      ≡ ok new)
    × (event_at (str "e0") new ≡ record (event_at (str "e0") with_event) {
      id = str "e0";
      error = error_string (forbidden (str "no"));
      is_valid = some false;
      synced = some true;
    })
unfolding is_empty event_at lookup str_eq error_string forbidden decimal
add_event-failed_mark_example =
    add_event-failed_mark with_event (str "e0") (forbidden (str "no")) refl refl refl
