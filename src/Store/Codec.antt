-- ===== src/Store/Codec.antt =====
-- What internal/ds/query takes from msgpack (entities/*.go: MsgPack and the Unpack functions).
use go_m_layer.Prelude.{Outcome}
use go_m_layer.External.{Bytes}
use go_m_layer.Entities.Ids.{EntityModel}
use go_m_layer.Entities.Records.{Authorization, Subnet, Topic, Subscription, Message, Event, State}

pub record Codec : Type 0 where
  pub pack : State → Bytes
  pub pack_event : Event → Bytes
  pub unpack_event : Bytes → EntityModel → Outcome Event
  pub unpack_authorization : Bytes → Outcome Authorization
  pub unpack_subnet : Bytes → Outcome Subnet
  pub unpack_topic : Bytes → Outcome Topic
  pub unpack_subscription : Bytes → Outcome Subscription
  pub unpack_message : Bytes → Outcome Message
