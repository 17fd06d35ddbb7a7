-- ===== src/DataStates.antt =====
-- internal/ds/query/data_state_manager.go, the changes that one handled event collects before they
-- are committed, and UpdateStruct of common/utils/helper.go, which merges them.
pub mod Keep
pub mod Marks
use go_m_layer.Prelude.{
  ℕ, zero, suc, ◌+◌, ◌%◌, ◌^◌, Bool, true, false, not, ◌&&◌, Option, none, some, List, [], ◌∷◌, Str,
  is_empty, if◌then◌else◌, ◌==◌, Outcome, ok, fail, panic, lookup, insert, StateKey, str_has_eq,
  state_key_has_eq,
}
use go_m_layer.External.{External, Bytes}
use go_m_layer.Entities.Ids.{ℤ, pos, negsuc, EntityModel, EventPath, model_text}
use go_m_layer.Entities.Records.{
  SignatureData, PubKeyType, other_key, Authorization, Subnet, State, subnet_state,
  authorization_state, topic_state, subscription_state, message_state, ClientPayload, Event,
  zero_event, event_id,
}

-- IsZero, at the types of the fields.
unfoldable pub is_zero_list {ℓ} : {A : Type ℓ} → List A → Bool
is_zero_list [] = true
is_zero_list (x ∷ xs) = false

unfoldable pub is_zero_int : ℤ → Bool
is_zero_int (pos zero) = true
is_zero_int (pos (suc n)) = false
is_zero_int (negsuc n) = false

unfoldable pub is_nil {ℓ} : {A : Type ℓ} → Option A → Bool
is_nil none = true
is_nil (some a) = false

unfoldable pub is_zero_path : EventPath → Bool
unfolding is_zero_list is_zero_int model_text
is_zero_path p =
    is_zero_list (model_text p.model)
    && is_zero_list p.id
    && is_zero_list p.validator
    && is_zero_int p.index

is_zero_key : PubKeyType → Bool
is_zero_key (other_key s) = is_zero_list s
is_zero_key _ = false

unfoldable pub is_zero_signature : SignatureData → Bool
unfolding is_zero_list is_zero_key
is_zero_signature s = is_zero_key s.ty && is_zero_list s.public_key && is_zero_list s.signature

unfoldable pub is_zero_payload : ClientPayload → Bool
unfolding is_zero_list is_nil
is_zero_payload p =
    is_zero_list p.id
    && is_nil p.content
    && p.timestamp == 0
    && p.event_type == 0
    && p.nonce == 0
    && is_zero_list p.account
    && is_zero_list p.chain_id
    && is_zero_list p.validator
    && is_zero_list p.signature
    && is_zero_list p.hash
    && is_zero_list p.agent
    && is_zero_list p.subnet
    && p.page == 0
    && p.per_page == 0

-- One field: a zero value in the source leaves the destination's.
abbrev pub keep_if {ℓ} : {A : Type ℓ} → Bool → A → A → A
keep_if zero_value old new = if zero_value then old else new

-- UpdateStruct(&src, &dst) for two events; the new destination. The source writes through pointers that
-- the destination has; a struct that shares them is not changed here.
unfoldable pub update_event_struct : Event → Event → Event
unfolding is_zero_list is_zero_int is_nil is_zero_path is_zero_payload
update_event_struct src dst = record {
  id = keep_if (is_zero_list src.id) dst.id src.id;
  payload = keep_if (is_zero_payload src.payload) dst.payload src.payload;
  nonce = keep_if (is_zero_list src.nonce) dst.nonce src.nonce;
  timestamp = keep_if (src.timestamp == 0) dst.timestamp src.timestamp;
  event_type = keep_if (src.event_type == 0) dst.event_type src.event_type;
  associations = keep_if (is_zero_list src.associations) dst.associations src.associations;
  previous_event = keep_if (is_zero_path src.previous_event) dst.previous_event src.previous_event;
  auth_event = keep_if (is_zero_path src.auth_event) dst.auth_event src.auth_event;
  payload_hash = keep_if (is_zero_list src.payload_hash) dst.payload_hash src.payload_hash;
  error = keep_if (is_zero_list src.error) dst.error src.error;
  hash = keep_if (is_zero_list src.hash) dst.hash src.hash;
  signature = keep_if (is_zero_list src.signature) dst.signature src.signature;
  broadcasted = keep_if (not src.broadcasted) dst.broadcasted src.broadcasted;
  block_number = keep_if (src.block_number == 0) dst.block_number src.block_number;
  cycle = keep_if (src.cycle == 0) dst.cycle src.cycle;
  epoch = keep_if (src.epoch == 0) dst.epoch src.epoch;
  is_valid = keep_if (is_nil src.is_valid) dst.is_valid src.is_valid;
  synced = keep_if (is_nil src.synced) dst.synced src.synced;
  validator = keep_if (is_zero_list src.validator) dst.validator src.validator;
  subnet = keep_if (is_zero_list src.subnet) dst.subnet src.subnet;
  index = keep_if (is_zero_int src.index) dst.index src.index;
  total = keep_if (is_zero_int src.total) dst.total src.total;
}

unfoldable pub update_authorization_struct : Authorization → Authorization → Authorization
unfolding is_zero_list is_nil is_zero_path is_zero_signature
update_authorization_struct src dst = record {
  id = keep_if (is_zero_list src.id) dst.id src.id;
  agent = keep_if (is_zero_list src.agent) dst.agent src.agent;
  meta = keep_if (is_zero_list src.meta) dst.meta src.meta;
  account = keep_if (is_zero_list src.account) dst.account src.account;
  grantor = keep_if (is_zero_list src.grantor) dst.grantor src.grantor;
  priviledge = keep_if (is_nil src.priviledge) dst.priviledge src.priviledge;
  topic_ids = keep_if (is_zero_list src.topic_ids) dst.topic_ids src.topic_ids;
  timestamp = keep_if (is_nil src.timestamp) dst.timestamp src.timestamp;
  duration = keep_if (is_nil src.duration) dst.duration src.duration;
  signature_data =
      keep_if (is_zero_signature src.signature_data) dst.signature_data src.signature_data;
  hash = keep_if (is_zero_list src.hash) dst.hash src.hash;
  event = keep_if (is_zero_path src.event) dst.event src.event;
  subnet = keep_if (is_zero_list src.subnet) dst.subnet src.subnet;
  block_number = keep_if (src.block_number == 0) dst.block_number src.block_number;
  cycle = keep_if (src.cycle == 0) dst.cycle src.cycle;
  epoch = keep_if (src.epoch == 0) dst.epoch src.epoch;
  event_signature =
      keep_if (is_zero_list src.event_signature) dst.event_signature src.event_signature;
}

unfoldable pub update_subnet_struct : Subnet → Subnet → Subnet
unfolding is_zero_list is_nil is_zero_path is_zero_signature
update_subnet_struct src dst = record {
  id = keep_if (is_zero_list src.id) dst.id src.id;
  meta = keep_if (is_zero_list src.meta) dst.meta src.meta;
  ref = keep_if (is_zero_list src.ref) dst.ref src.ref;
  categories = keep_if (is_zero_list src.categories) dst.categories src.categories;
  signature_data =
      keep_if (is_zero_signature src.signature_data) dst.signature_data src.signature_data;
  status = keep_if (is_nil src.status) dst.status src.status;
  timestamp = keep_if (src.timestamp == 0) dst.timestamp src.timestamp;
  balance = keep_if (src.balance == 0) dst.balance src.balance;
  account = keep_if (is_zero_list src.account) dst.account src.account;
  default_auth_privilege =
      keep_if (is_nil src.default_auth_privilege) dst.default_auth_privilege
        src.default_auth_privilege;
  event = keep_if (is_zero_path src.event) dst.event src.event;
  hash = keep_if (is_zero_list src.hash) dst.hash src.hash;
  block_number = keep_if (src.block_number == 0) dst.block_number src.block_number;
  cycle = keep_if (src.cycle == 0) dst.cycle src.cycle;
  epoch = keep_if (src.epoch == 0) dst.epoch src.epoch;
  agent = keep_if (is_zero_list src.agent) dst.agent src.agent;
  owner = keep_if (is_zero_list src.owner) dst.owner src.owner;
  event_signature =
      keep_if (is_zero_list src.event_signature) dst.event_signature src.event_signature;
}

-- The `interface{}` that a state is stored as holds a struct or a pointer to one.
pub data Stored : Type 0 where
  by_value : State → Stored
  by_pointer : State → Stored

-- UpdateStruct(state, old) where both are `interface{}`: `reflect` panics unless both are pointers.
-- Only subnets and authorizations are ever stored by pointer; two structs of different types have
-- no fields to match and panic as well.
unfoldable pub update_stored : Stored → Stored → Outcome Stored
unfolding update_authorization_struct update_subnet_struct
update_stored (by_pointer (authorization_state s)) (by_pointer (authorization_state d)) =
    ok (by_pointer (authorization_state (update_authorization_struct s d)))
update_stored (by_pointer (subnet_state s)) (by_pointer (subnet_state d)) =
    ok (by_pointer (subnet_state (update_subnet_struct s d)))
update_stored _ _ = panic

-- DataStates; its configuration is an argument of what reads it.
pub record DataStates : Type 0 where
  pub events : List (Str × Event)
  pub current_states : List (StateKey × Stored)
  pub historic_state : List (StateKey × Bytes)
  pub data_count : ℕ

-- NewDataStates
abbrev pub new_data_states : DataStates
new_data_states = record { events = []; current_states = []; historic_state = []; data_count = 0 }

unfoldable pub is_empty_states : DataStates → Bool
is_empty_states ds = ds.data_count == 0

-- DataCount is a uint16.
count_one : ℕ → ℕ
count_one n = (n + 1) % 2 ^ 16

-- Indexing a Go map gives the zero value for a missing key.
found_event : Option Event → Event
found_event none = zero_event
found_event (some e) = e

unfoldable pub event_at : Str → DataStates → Event
unfolding lookup found_event
event_at i ds = found_event (lookup i ds.events)

invalid_on_error : Event → Event
invalid_on_error e = if not (is_empty e.error) then record e { is_valid = some false } else e

abbrev pub state_key : EntityModel → Str → StateKey
state_key model id = record { model = model_text model; id = id }

module _ ⦃x : External⦄ where
  store_new_event : DataStates → Event → Outcome Str → Outcome DataStates
  store_new_event ds event (ok id) =
      ok (record ds { events = insert id event ds.events; data_count = count_one ds.data_count })
  store_new_event ds event (fail e) = panic
  store_new_event ds event panic = panic

  -- AddEvent panics where the event is new and has no id.
  unfoldable pub add_event : Event → DataStates → Outcome DataStates
  unfolding invalid_on_error store_new_event count_one
  add_event given ds =
      let event = invalid_on_error given in
      let old = event_at event.id ds in
      if is_empty old.id
      then store_new_event ds event (event_id event)
      else ok (record ds { events = insert event.id (update_event_struct event old) ds.events })

store_updated : DataStates → StateKey → Outcome Stored → Outcome DataStates
store_updated ds path (ok s) = ok (record ds { current_states = insert path s ds.current_states })
store_updated ds path (fail e) = fail e
store_updated ds path panic = panic

place_state : DataStates → StateKey → Stored → Option Stored → Outcome DataStates
unfolding store_updated count_one
place_state ds path state none = ok (record ds {
  current_states = insert path state ds.current_states;
  data_count = count_one ds.data_count;
})
place_state ds path state (some old) = store_updated ds path (update_stored state old)

unfoldable pub add_current_state : EntityModel → Str → Stored → DataStates → Outcome DataStates
unfolding place_state
add_current_state model id state ds =
    let path = state_key model id in place_state ds path state (lookup path ds.current_states)

unfoldable pub add_historic_state : EntityModel → Str → Bytes → DataStates → DataStates
unfolding is_nil count_one
add_historic_state model id state ds =
    let path = state_key model id in
    record ds {
      historic_state = insert path state ds.historic_state;
      data_count =
          if is_nil (lookup path ds.historic_state) then count_one ds.data_count else ds.data_count;
    }
