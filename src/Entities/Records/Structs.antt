-- ===== src/Entities/Records/Structs.antt =====
-- The structs of entities/: a pointer field is an Option. What a text field holds is its bytes.
use go_m_layer.Prelude.{ℕ, Bool, Option, List, Str}
use go_m_layer.Entities.Ids.{ℤ, EventPath}

pub data PubKeyType : Type 0 where
  tendermint ethereum : PubKeyType
  other_key : Str → PubKeyType

pub record SignatureData : Type 0 where
  pub ty : PubKeyType
  pub public_key : Str
  pub signature : Str

pub record Authorization : Type 0 where
  pub id : Str
  pub agent : Str
  pub meta : Str
  pub account : Str
  pub grantor : Str
  pub priviledge : Option ℕ
  pub topic_ids : Str
  pub timestamp : Option ℕ
  pub duration : Option ℕ
  pub signature_data : SignatureData
  pub hash : Str
  pub event : EventPath
  pub subnet : Str
  pub block_number : ℕ
  pub cycle : ℕ
  pub epoch : ℕ
  pub event_signature : Str

pub record Subnet : Type 0 where
  pub id : Str
  pub meta : Str
  pub ref : Str
  pub categories : List ℤ
  pub signature_data : SignatureData
  pub status : Option ℕ
  pub timestamp : ℕ
  pub balance : ℕ
  pub account : Str
  pub default_auth_privilege : Option ℕ
  pub event : EventPath
  pub hash : Str
  pub block_number : ℕ
  pub cycle : ℕ
  pub epoch : ℕ
  pub agent : Str
  pub owner : Str
  pub event_signature : Str

pub record Topic : Type 0 where
  pub id : Str
  pub ref : Str
  pub meta : Str
  pub parent_topic : Str
  pub subscriber_count : ℕ
  pub account : Str
  pub agent : Str
  pub is_public : Option Bool
  pub default_subscriber_role : Option ℕ
  pub read_only : Option Bool
  pub event : EventPath
  pub hash : Str
  pub timestamp : ℕ
  pub subnet : Str
  pub block_number : ℕ
  pub cycle : ℕ
  pub epoch : ℕ
  pub event_signature : Str

pub record Subscription : Type 0 where
  pub id : Str
  pub topic : Str
  pub ref : Str
  pub meta : Str
  pub subnet : Str
  pub subscriber : Str
  pub status : Option ℕ
  pub role : Option ℕ
  pub timestamp : Option ℕ
  pub hash : Str
  pub event : EventPath
  pub agent : Str
  pub block_number : ℕ
  pub cycle : ℕ
  pub epoch : ℕ
  pub event_signature : Str

pub record MessageAction : Type 0 where
  pub contract : Str
  pub abi : Str
  pub action : Str
  pub parameters : List Str

pub record Message : Type 0 where
  pub id : Str
  pub topic : Str
  pub receiver : Str
  pub content : Str
  pub data_type : Str
  pub actions : List MessageAction
  pub sender : Str
  pub nonce : ℕ
  pub agent : Str
  pub event : EventPath
  pub hash : Str
  pub signature : Str
  pub data_hash : Str
  pub url : Str
  pub block_number : ℕ
  pub cycle : ℕ
  pub epoch : ℕ
  pub subnet : Str
  pub event_signature : Str
  pub event_timestamp : ℕ

-- What the `Data` field of a payload holds: one of the states.
pub data State : Type 0 where
  subnet_state : Subnet → State
  authorization_state : Authorization → State
  topic_state : Topic → State
  subscription_state : Subscription → State
  message_state : Message → State

pub record ClientPayload : Type 0 where
  pub id : Str
  pub content : Option State
  pub timestamp : ℕ
  pub event_type : ℕ
  pub nonce : ℕ
  pub account : Str
  pub chain_id : Str
  pub validator : Str
  pub signature : Str
  pub hash : Str
  pub agent : Str
  pub subnet : Str
  pub page : ℕ
  pub per_page : ℕ

pub record Event : Type 0 where
  pub id : Str
  pub payload : ClientPayload
  pub nonce : Str
  pub timestamp : ℕ
  pub event_type : ℕ
  pub associations : List Str
  pub previous_event : EventPath
  pub auth_event : EventPath
  pub payload_hash : Str
  pub error : Str
  pub hash : Str
  pub signature : Str
  pub broadcasted : Bool
  pub block_number : ℕ
  pub cycle : ℕ
  pub epoch : ℕ
  pub is_valid : Option Bool
  pub synced : Option Bool
  pub validator : Str
  pub subnet : Str
  pub index : ℤ
  pub total : ℤ
