-- ===== src/Store/Events.antt =====
-- internal/ds/query/event.go: how events are stored and read.
pub mod Facts
use go_m_layer.Prelude.{
  ℕ, zero, suc, ◌+◌, Bool, true, false, Option, none, some, List, [], ◌∷◌, ◌++◌, Str, str, is_empty,
  equal_fold, if◌then◌else◌, Error, Outcome, ok, fail, panic, text, is_not_found, attempt, ◌>>=◌,
}
use go_m_layer.External.{External, Bytes}
use go_m_layer.Encoding.Atoi.{atoi}
use go_m_layer.Entities.Ids.{ℤ, pos, EntityModel, EventPath}
use go_m_layer.Entities.Records.{Event, State, message_state, event_id, uuid_to_bytes}
use go_m_layer.Entities.Wire.{print_int}
use go_m_layer.Entities.Keys.{Clock, event_data_key, vector_key, block_key, event_keys}
use go_m_layer.Order.{ltb_ℤ}
use go_m_layer.Store.KeyValue.{KeyValue, own_txn, found, read, write}
use go_m_layer.Store.Codec.{Codec}
use go_m_layer.Store.States.{Stores}

-- event.Synced != nil && *event.Synced
unfoldable pub is_synced : Event → Bool
is_synced e = elim e.synced [ none ↦ false | some b ↦ b ]

parsed_index : Option ℤ → Outcome ℤ
parsed_index none = fail (text (str "strconv.Atoi: parsing: invalid syntax"))
parsed_index (some n) = ok n

-- The index that the vector of a topic holds.
vector_index : Option Bytes → Outcome ℤ
unfolding parsed_index
vector_index none = ok (pos 0)
vector_index (some b) = parsed_index (atoi b)

module _ ⦃x : External⦄ ⦃c : Clock⦄ ⦃kv : KeyValue⦄ (codec : Codec) where
  open kv use {Store, Txn, new_key, get, begin, commit, txn_get}

  -- GetEventById, and GetEventByIdTxn in a transaction that is given
  unfoldable pub get_event_by_id : Str → EntityModel → Stores → Outcome Event
  unfolding event_data_key
  get_event_by_id id model stores =
      get (new_key (event_data_key id)) stores.event >>= λ b. codec.unpack_event b model

  unfoldable pub get_event_by_id_txn : Str → EntityModel → Option Txn → Stores → Outcome Event
  unfolding get_event_by_id event_data_key
  get_event_by_id_txn id model none stores = get_event_by_id id model stores
  get_event_by_id_txn id model (some t) stores =
      txn_get (new_key (event_data_key id)) t >>= λ b. codec.unpack_event b model

  -- GetEventFromPath; an empty id has no event.
  unfoldable pub get_event_from_path : EventPath → Stores → Outcome (Option Event)
  unfolding is_empty get_event_by_id
  get_event_from_path path stores =
      if is_empty path.id
      then ok none
      else (get_event_by_id path.id path.model stores >>= λ e. ok (some e))

  unsynced : Outcome (Option Event) → Outcome (List Event)
  unfolding is_synced
  unsynced (ok (some e)) = ok (if is_synced e then [] else e ∷ [])
  unsynced (ok none) = ok []
  unsynced (fail err) = ok []
  unsynced panic = panic

  -- GetDependentEvents: the stored ones of the two that are not synced.
  unfoldable pub get_dependent_events : Event → Stores → Outcome (List Event)
  unfolding unsynced get_event_from_path
  get_dependent_events e stores = do
    previous ← unsynced (get_event_from_path e.previous_event stores)
    auth ← unsynced (get_event_from_path e.auth_event stores)
    ok (previous ++ auth)

  -- One key of createEvent, at the reading of the clock that this turn of the loop takes. Only the
  -- block key of the same millisecond is known for one.
  create_event_key : Event → ℕ → Str → Txn → Outcome Txn
  unfolding block_key event_data_key is_synced uuid_to_bytes
  create_event_key e reading key t =
      if equal_fold key (block_key (c.now reading) e)
      then (if is_synced e then write key [] t else ok t)
      else if equal_fold key (event_data_key e.id)
      then write key (codec.pack_event e) t
      else write key (uuid_to_bytes e.id) t

  create_event_keys : Event → ℕ → List Str → Txn → Outcome Txn
  unfolding create_event_key
  create_event_keys e reading [] t = ok t
  create_event_keys e reading (key ∷ keys) t = do
    u ← create_event_key e reading key t
    create_event_keys e (suc reading) keys u

  -- createEvent in a transaction, from a reading of the clock on
  unfoldable pub create_event : Event → ℕ → Txn → Outcome Txn
  unfolding event_id create_event_keys event_keys
  create_event given reading t = do
    id ← event_id given
    let e = record given { id = id }
    create_event_keys e (suc reading) (event_keys (c.now reading) e) t

  put_index : Event → Str → ℤ → Txn → Outcome Txn
  unfolding vector_key print_int ltb_ℤ
  put_index e topic old t =
      if ltb_ℤ old e.index
      then attempt (write (vector_key e topic) (print_int e.index) t) (λ u. ok u) (λ err. ok t)
      else ok t

  -- The vector of a message's validator and topic keeps the greatest index. GetDataModelType panics on
  -- an event without data.
  put_vector : Event → Option State → Txn → Outcome Txn
  unfolding read vector_index put_index vector_key
  put_vector e (some (message_state m)) t = do
    old ← read (vector_key e m.topic) t
    n ← vector_index old
    put_index e m.topic n t
  put_vector e none t = panic
  put_vector e _ t = ok t

  put_block_key : Event → ℕ → Txn → Outcome Txn
  unfolding is_synced block_key
  put_block_key e reading t =
      if is_synced e
      then attempt (txn_get (new_key (block_key (c.now reading) e)) t) (λ b. ok t)
          (λ err.
            if is_not_found (some err) then write (block_key (c.now reading) e) [] t else fail err)
      else ok t

  -- The part of UpdateEvent where the block key was found, or its Get failed in another way.
  update_found : Event → ℕ → Txn → Outcome Txn
  unfolding put_vector put_block_key event_data_key
  update_found e reading t = do
    u ← put_vector e e.payload.content t
    v ← write (event_data_key e.id) (codec.pack_event e) u
    put_block_key e reading v

  on_block_key_error : Event → Bool → ℕ → Error → Txn → Outcome Txn
  unfolding update_found create_event
  on_block_key_error e create reading err t =
      if is_not_found (some err)
      then (if create then create_event e reading t else fail (text (str "event does not exist")))
      else (update_found e reading t >>= λ u. fail err)

  -- UpdateEvent, in a transaction that is given, from a reading of the clock on: the block key holds
  -- the time of the call.
  unfoldable pub update_event : Event → Bool → ℕ → Txn → Outcome Txn
  unfolding on_block_key_error update_found block_key
  update_event e create reading t =
      attempt (txn_get (new_key (block_key (c.now reading) e)) t)
        (λ b. update_found e (suc reading) t)
        (λ err. on_block_key_error e create (suc reading) err t)

  -- UpdateEvent without a transaction: what is updated is committed only where the event is synced.
  update_found_now : Event → Store → Txn → Outcome Store
  unfolding update_found is_synced
  update_found_now e s t = do u ← update_found e 1 t; if is_synced e then commit u s else ok s

  -- The commit takes the place of the error of the first Get.
  create_or_refuse : Event → Bool → Error → Store → Txn → Outcome Store
  unfolding own_txn create_event update_found is_synced
  create_or_refuse e create err s t =
      if is_not_found (some err)
      then (if create
          then own_txn (create_event e 1) s
          else fail (text (str "event does not exist")))
      else (update_found e 1 t >>= λ u. if is_synced e then commit u s else fail err)

  unfoldable pub update_event_now : Event → Bool → Store → Outcome Store
  unfolding create_or_refuse update_found_now block_key
  update_event_now e create s = do
    t ← begin s
    attempt (txn_get (new_key (block_key (c.now 0) e)) t) (λ b. update_found_now e s t)
        (λ err. create_or_refuse e create err s t)
