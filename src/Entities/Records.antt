-- ===== src/Entities/Records.antt =====
-- The structs of entities/, their zero values, and what they are named by.
pub mod Structs
pub mod Zero
pub mod Identity
pub use Structs.{
  PubKeyType, SignatureData, Authorization, Subnet, Topic, Subscription, MessageAction, Message,
  State, ClientPayload, Event, tendermint, ethereum, other_key, subnet_state, authorization_state,
  topic_state, subscription_state, message_state,
}
pub use Zero.{zero_payload, zero_event, zero_authorization, zero_subscription, zero_topic}
unfoldable pub use Identity.{
  get_model, uuid_to_bytes, id_of_signature, get_id, event_id, event_path, subnet_signature,
}
