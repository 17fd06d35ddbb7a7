-- ===== src/Service/Env.antt =====
-- What internal/service reads and calls: the queries of internal/ds/query, the requests of
-- pkg/core/p2p, msgpack, and the signature checks of internal/crypto. A handler sees them as
-- functions, so each answers alike within one call of a handler.
use go_m_layer.Prelude.{ℕ, Bool, Option, List, Str, Outcome}
use go_m_layer.External.{Bytes}
use go_m_layer.Entities.Ids.{EntityModel, EventPath}
use go_m_layer.Entities.Records.{Authorization, Subnet, Topic, Subscription, Event, State}

-- P2pEventResponse
pub record P2pResponse : Type 0 where
  pub event : Bytes
  pub states : List Bytes

pub record Env : Type 0 where
  -- MainConfiguration: PublicKeyEDDHex and ChainId
  pub public_key_edd_hex : Str
  pub chain_id : Str
  -- NetworkInfo.Validators, the empty text for a missing key, and GetRandomSyncedNode
  pub validators : Str → Str
  pub random_synced_node : Outcome Str
  -- internal/ds/query
  pub event_by_id : Str → EntityModel → Outcome Event
  pub subnet_by_id : Str → Outcome Subnet
  pub topic_by_id : Str → Outcome Topic
  pub state_by_id : Str → EntityModel → Outcome Bytes
  pub account_authorizations : Authorization → Outcome (List Authorization)
  pub authorization_by_event : EventPath → Outcome Authorization
  pub subscriptions : Subscription → Outcome (List Subscription)
  pub state_from_event_path : EventPath → Bytes
  -- IncrementCounters, at the cycle, the validator and the subnet of an event
  pub increment_counters : ℕ → Str → Str → Outcome (Unit {0})
  -- the writes that a state fetched from a peer makes, as far as they fail
  pub update_event : Event → Outcome (Unit {0})
  pub create_state : State → Outcome (Unit {0})
  -- pkg/core/p2p, with the validator that is asked, if one is given
  pub p2p_event : EventPath → Option Str → Outcome (Event × P2pResponse)
  pub p2p_state : EventPath → Option Str → Outcome (P2pResponse × State)
  -- msgpack
  pub pack : State → Bytes
  pub unpack_event : Bytes → EntityModel → Outcome Event
  pub unpack_authorization : Bytes → Outcome Authorization
  pub unpack_subnet : Bytes → Outcome Subnet
  pub unpack_topic : Bytes → Outcome Topic
  -- what UnpackSubnet leaves in its result where it fails
  pub partial_subnet : Bytes → Subnet
  -- internal/crypto
  pub eth_message : Bytes → Bytes
  pub signer_ecc : Bytes → Str → Outcome Str
  pub verify_ecc : Str → Bytes → Str → Bool
  pub verify_edd : Bytes → Bytes → Bytes → Outcome Bool
  pub verify_amino : Str → Bytes → Str → Bytes → Outcome Bool
