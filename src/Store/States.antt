-- ===== src/Store/States.antt =====
-- internal/ds/query/query.go: the writers and the readers that the states of all models share.
pub mod Facts
pub mod Update
use go_m_layer.Prelude.{
  Bool, true, false, not, ◌&&◌, Option, none, some, List, [], ◌∷◌, ◌++◌, Str, str, is_empty,
  equal_fold, if◌then◌else◌, Outcome, ok, fail, panic, not_found, text, ◌>>=◌, ◌>>◌, reject_if,
  deref,
}
use go_m_layer.External.{Bytes}
use go_m_layer.Entities.Ids.{EntityModel, message_model, model_text, EventPath}
use go_m_layer.Entities.Keys.{◌⟋◌, id_key, data_key}
use go_m_layer.Store.KeyValue.{KeyValue, found, read, write}

-- CreateStateParam and NewStateParam
pub record CreateStateParam : Type 0 where
  pub id : Str
  pub model : EntityModel
  pub id_key : Str
  pub data_key : Str
  pub ref_key : Option Str
  pub keys : List Str
  pub content : Bytes
  pub event_hash : Str
  pub rest_key_value : Option Bytes

pub record NewStateParam : Type 0 where
  pub old_id_key : Str
  pub data_key : Str
  pub event_hash : Str
  pub content : Bytes
  pub ref_key : Option Str
  pub old_ref_key : Option Str

rest_of : Option Bytes → Str → Bytes
rest_of none id = id
rest_of (some b) id = b

-- What the keys hold that are neither of the data, nor of the id, nor of the reference.
unfoldable pub rest_value : CreateStateParam → Bytes
unfolding rest_of
rest_value p = rest_of p.rest_key_value p.id

unfoldable pub is_taken : Option Bytes → Bool
unfolding is_empty
is_taken none = false
is_taken (some v) = not (is_empty v)

-- EntityDataKey
unfoldable pub entity_data_key : EntityModel → Str → Str
unfolding model_text
entity_data_key model event_hash = str "data" ⟋ model_text model ⟋ event_hash

present : Option Bytes → Outcome Bytes
present none = fail not_found
present (some b) = ok b

module _ ⦃kv : KeyValue⦄ where
  open kv use {Store, Txn, new_key, get, put, view, txn_delete}

  -- internal/ds/stores: the instances of the datastore
  pub record Stores : Type 0 where
    pub event : Store
    pub state : Store
    pub message : Store
    pub network_stats : Store
    pub system : Store

  put_ref : CreateStateParam → Str → Txn → Outcome Txn
  unfolding read is_taken
  put_ref p ref t = do
    old ← read ref t
    reject_if (is_taken old)
        (text (str "\"" ++ (model_text p.model ++ str "\" ref already exists")))
    write ref p.id t

  create_other : CreateStateParam → Option Str → Str → Txn → Outcome Txn
  unfolding put_ref rest_value
  create_other p none key t = write key (rest_value p) t
  create_other p (some ref) key t =
      if not (is_empty ref) && equal_fold key ref
      then put_ref p ref t
      else write key (rest_value p) t

  create_key : CreateStateParam → Str → Txn → Outcome Txn
  unfolding create_other
  create_key p key t =
      if equal_fold key p.data_key
      then write key p.content t
      else if equal_fold key p.id_key
      then write key p.event_hash t
      else create_other p p.ref_key key t

  create_keys : CreateStateParam → List Str → Txn → Outcome Txn
  unfolding create_key
  create_keys p [] t = ok t
  create_keys p (key ∷ keys) t = do u ← create_key p key t; create_keys p keys u

  -- CreateState, in a transaction that is given
  unfoldable pub create_state : CreateStateParam → Txn → Outcome Txn
  unfolding create_keys
  create_state p t = do
    reject_if (is_empty p.id) (text (str "CreateStateParam ID is required"))
    create_keys p p.keys t

  move_ref : Str → Option Str → Option Str → Txn → Outcome Txn
  move_ref id none old t = ok t
  move_ref id (some ref) old t = do
    old_ref ← deref old
    u ← txn_delete (new_key old_ref) t
    write ref id u

  -- UpdateState, in a transaction that is given
  unfoldable pub update_state : Str → NewStateParam → Txn → Outcome Txn
  unfolding move_ref
  update_state id p t = do
    u ← write p.data_key p.content t
    v ← write p.old_id_key p.event_hash u
    move_ref id p.ref_key p.old_ref_key v

  -- The store of a model's states.
  unfoldable pub state_store : EntityModel → Stores → Store
  state_store message_model s = s.message
  state_store _ s = s.state

  -- GetStateById: the id's key holds an event's id, and that event's key the state.
  unfoldable pub get_state_by_id : Str → EntityModel → Stores → Outcome Bytes
  unfolding state_store present id_key entity_data_key
  get_state_by_id id model stores = do
    let s = state_store model stores
    first ← view (new_key (id_key model id)) s
    event ← present first
    second ← view (new_key (entity_data_key model event)) s
    present second

  -- SaveHistoricState, which writes to the store itself
  unfoldable pub save_historic_state : EntityModel → Str → Bytes → Stores → Outcome Stores
  unfolding entity_data_key
  save_historic_state message_model id state stores = do
    s ← put (new_key (entity_data_key message_model id)) state stores.message
    ok (record stores { message = s })
  save_historic_state model id state stores = do
    s ← put (new_key (entity_data_key model id)) state stores.state
    ok (record stores { state = s })

  -- RefExists
  unfoldable pub ref_exists : EntityModel → Str → Str → Stores → Outcome Bool
  unfolding found is_taken model_text is_empty
  ref_exists model ref subnet stores = do
    let prefix = model_text model ++ str "|ref|"
    let key = if is_empty subnet then prefix ++ ref else prefix ++ (subnet ++ (124 ∷ ref))
    stored ← found (get (new_key key) stores.state)
    ok (is_taken stored)

  -- GetStateBytesFromEventPath
  unfoldable pub get_state_bytes_from_event_path : EventPath → Stores → Outcome Bytes
  unfolding state_store entity_data_key
  get_state_bytes_from_event_path path stores =
      get (new_key (entity_data_key path.model path.id)) (state_store path.model stores)
