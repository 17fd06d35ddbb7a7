-- ===== src/Store/Subnets.antt =====
-- internal/ds/query/subnet.go
use go_m_layer.Prelude.{
  Bool, ◌&&◌, some, List, [], ◌∷◌, Str, str, is_empty, str_eq, equal_fold, split, if◌then◌else◌,
  Outcome, ok, fail, panic, is_not_found, attempt, ◌>>=◌,
}
use go_m_layer.External.{External}
use go_m_layer.Entities.Ids.{subnet_model}
use go_m_layer.Entities.Records.{Subnet, subnet_state, get_id, subnet_signature}
use go_m_layer.Entities.Keys.{Clock, id_key, data_key, subnet_keys, subnet_ref_key, ◌⟋◌}
use go_m_layer.Store.KeyValue.{KeyValue, QueryLimit, collect, last_part, write}
use go_m_layer.Store.Codec.{Codec}
use go_m_layer.Store.States.{Stores, get_state_by_id}

module _ ⦃x : External⦄ ⦃c : Clock⦄ ⦃kv : KeyValue⦄ (codec : Codec) where
  open kv use {Store, Txn, new_key, prefixed, txn_delete}

  -- GetSubnetStateById
  unfoldable pub get_subnet_state_by_id : Str → Stores → Outcome Subnet
  unfolding get_state_by_id
  get_subnet_state_by_id id stores = get_state_by_id id subnet_model stores >>= codec.unpack_subnet

  -- The id of a subnet, from its own signature if it has none.
  unfoldable pub stored_subnet_id : Subnet → Outcome Str
  unfolding is_empty get_id subnet_signature
  stored_subnet_id s =
      if is_empty s.id
      then (subnet_signature s.signature_data >>= λ signature. get_id signature s.id)
      else ok s.id

  create_subnet_key : Subnet → Str → Txn → Outcome Txn
  unfolding data_key id_key
  create_subnet_key s key t =
      if equal_fold key (data_key subnet_model s.event)
      then write key (codec.pack (subnet_state s)) t
      else if equal_fold key (id_key subnet_model s.id)
      then write key s.event.id t
      else write key s.id t

  create_subnet_keys : Subnet → List Str → Txn → Outcome Txn
  unfolding create_subnet_key
  create_subnet_keys s [] t = ok t
  create_subnet_keys s (key ∷ keys) t = do
    u ← create_subnet_key s key t
    create_subnet_keys s keys u

  -- CreateSubnetState
  unfoldable pub create_subnet_state : Subnet → Txn → Outcome (Subnet × Txn)
  unfolding stored_subnet_id create_subnet_keys subnet_keys
  create_subnet_state s t = do
    id ← stored_subnet_id s
    let named = record s { id = id }
    u ← create_subnet_keys named (subnet_keys named) t
    ok (named, u)

  -- The id that Key puts into a subnet, which drops an error.
  id_in_key : Subnet → Outcome Str
  unfolding stored_subnet_id
  id_in_key s = attempt (stored_subnet_id s) (λ id. ok id) (λ e. ok [])

  move_subnet_ref : Subnet → Subnet → Txn → Outcome Txn
  unfolding subnet_ref_key
  move_subnet_ref old s t =
      if str_eq old.ref s.ref
      then ok t
      else (txn_delete (new_key (subnet_ref_key old)) t >>= write (subnet_ref_key s) s.event.id)

  update_subnet : Subnet → Subnet → Txn → Outcome (Subnet × Txn)
  unfolding move_subnet_ref data_key id_key id_in_key
  update_subnet s old t = do
    u ← write (data_key subnet_model s.event) (codec.pack (subnet_state s)) t
    old_id ← id_in_key old
    v ← write (id_key subnet_model old_id) s.event.id u
    w ← move_subnet_ref old s v
    ok (s, w)

  -- UpdateSubnetState: the old state is read from the store, not from the transaction.
  unfoldable pub update_subnet_state : Str → Subnet → Txn → Stores → Bool → Outcome (Subnet × Txn)
  unfolding update_subnet get_subnet_state_by_id create_subnet_state
  update_subnet_state id s t stores create =
      attempt (get_subnet_state_by_id id stores) (λ old. update_subnet s old t)
        λ e. if is_not_found (some e) && create then create_subnet_state s t else fail e

  -- GetAccountSubnets reads the entries also of a query that fails, where it panics.
  unfoldable pub get_account_subnets : Str → QueryLimit → Stores → Outcome (List Subnet)
  unfolding last_part split collect get_subnet_state_by_id
  get_account_subnets account l stores =
      attempt (prefixed (str "snet/acct" ⟋ account) l.limit l.offset stores.state)
        (λ entries.
          collect (λ entry. get_subnet_state_by_id (last_part (split 47 entry.0)) stores) entries)
        (λ e. panic)
