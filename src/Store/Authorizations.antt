-- ===== src/Store/Authorizations.antt =====
-- internal/ds/query/authorization.go, and GetStateFromEntityPath of query.go
use go_m_layer.Prelude.{
  ◌||◌, Option, none, some, List, [], ◌∷◌, Str, str, is_empty, split, length, ltb, if◌then◌else◌,
  Outcome, ok, fail, panic, text, attempt, ◌>>=◌, ◌>>◌, reject_if,
}
use go_m_layer.External.{External, Bytes}
use go_m_layer.Encoding.Atoi.{atoi, next_int}
use go_m_layer.Entities.Did.{address_from_string, to_did_string, device_string}
use go_m_layer.Entities.Ids.{ℤ, pos, EntityModel, auth_model, EventPath, empty_path}
use go_m_layer.Entities.Records.{Authorization, authorization_state, get_id, zero_authorization}
use go_m_layer.Entities.Wire.{print_int}
use go_m_layer.Entities.Keys.{
  Clock, data_key, authorization_key, authorization_keys, account_authorizations_key,
  authorized_agent_state_key, agent_count_key,
}
use go_m_layer.Store.KeyValue.{
  KeyValue, QueryLimit, default_query_limit, limits_or, collect, read, write, txn_entries,
  delete_entries,
}
use go_m_layer.Store.Codec.{Codec}
use go_m_layer.Store.States.{CreateStateParam, Stores, create_state, get_state_by_id}

-- AccountAuthorizationsKeyToAuthorization
authorization_of_parts : List Str → Outcome Authorization
authorization_of_parts (a ∷ s ∷ []) =
    ok (record zero_authorization { account = to_did_string (address_from_string a); subnet = s })
authorization_of_parts (a ∷ s ∷ g ∷ []) = ok (record zero_authorization {
  account = to_did_string (address_from_string a);
  subnet = s;
  agent = device_string g;
})
authorization_of_parts (a ∷ s ∷ g ∷ h ∷ more) = fail (text (str "auth key too long"))
authorization_of_parts _ = panic

unfoldable pub authorization_of_key : Str → Outcome Authorization
unfolding authorization_of_parts split
authorization_of_key key = authorization_of_parts (split 47 key)

parsed_count : Option ℤ → Outcome ℤ
parsed_count none = fail (text (str "strconv.Atoi: parsing: invalid syntax"))
parsed_count (some n) = ok n

-- The count of agents that is stored; an empty text counts none.
agent_count : Option Bytes → Outcome ℤ
unfolding parsed_count
agent_count none = ok (pos 0)
agent_count (some b) = if is_empty b then ok (pos 0) else parsed_count (atoi b)

module _ ⦃x : External⦄ ⦃c : Clock⦄ ⦃kv : KeyValue⦄ (codec : Codec) where
  open kv use {Store, Txn, new_key, get, prefixed, txn_prefixed}

  -- GetAuthorizationByEvent
  unfoldable pub get_authorization_by_event : EventPath → Stores → Outcome Authorization
  unfolding data_key
  get_authorization_by_event event stores =
      get (new_key (data_key auth_model event)) stores.state >>= codec.unpack_authorization

  entries_of : Str → QueryLimit → Option Txn → Stores → Outcome (List (Str × Bytes))
  entries_of prefix l (some t) stores = txn_prefixed prefix l.limit l.offset t
  entries_of prefix l none stores = prefixed prefix l.limit l.offset stores.state

  -- The authorizations of the events that the entries hold.
  of_entries : List (Str × Bytes) → Stores → Outcome (List Authorization)
  unfolding collect get_authorization_by_event
  of_entries entries stores =
      collect (λ entry. get_authorization_by_event (record empty_path { id = entry.1 }) stores)
        entries

  -- GetAccountAuthorizations
  unfoldable pub get_account_authorizations :
      Authorization → Option QueryLimit → Option Txn → Stores → Outcome (List Authorization)
  unfolding entries_of of_entries limits_or account_authorizations_key
  get_account_authorizations a limits txn stores = do
    entries ←
        entries_of (account_authorizations_key a) (limits_or default_query_limit limits) txn stores
    of_entries entries stores

  -- GetAgentAuthorizationStates
  unfoldable pub get_agent_authorization_states :
      Str → Str → QueryLimit → Stores → Outcome (List Authorization)
  unfolding entries_of of_entries authorized_agent_state_key
  get_agent_authorization_states subnet agent limits stores = do
    let filter = record zero_authorization { subnet = subnet; agent = agent }
    entries ← entries_of (authorized_agent_state_key filter) limits none stores
    of_entries entries stores

  -- The write of the new count, whose error is dropped.
  put_agent_count : ℤ → Txn → Outcome Txn
  unfolding agent_count_key print_int
  put_agent_count n t = attempt (write agent_count_key (print_int n) t) (λ u. ok u) (λ e. ok t)

  -- The first authorization of an account counts its agent.
  count_agent : List (Str × Bytes) → Txn → Outcome Txn
  unfolding read agent_count put_agent_count next_int agent_count_key
  count_agent [] t = do
    stored ← read agent_count_key t
    n ← agent_count stored
    put_agent_count (next_int n) t
  count_agent (entry ∷ entries) t = ok t

  -- The parameter of CreateState for an authorization that has its id.
  unfoldable pub authorization_param : Authorization → List Str → CreateStateParam
  unfolding authorization_key data_key
  authorization_param a keys = record {
    id = a.id;
    model = auth_model;
    id_key = authorization_key a;
    data_key = data_key auth_model a.event;
    ref_key = none;
    keys = keys;
    content = codec.pack (authorization_state a);
    event_hash = a.event.id;
    rest_key_value = some a.event.id;
  }

  -- CreateAuthorizationState: the older entries of the account and of the agent go.
  unfoldable pub create_authorization_state : Authorization → Txn → Outcome (Authorization × Txn)
  unfolding is_empty get_id authorization_keys account_authorizations_key authorized_agent_state_key
      txn_entries count_agent delete_entries authorization_param create_state
  create_authorization_state a t = do
    reject_if (is_empty a.account || (is_empty a.agent || is_empty a.subnet))
        (text (str "new state must include acc, snet and agent fields"))
    id ← get_id a.event_signature a.id
    let named = record a { id = id }
    keys ← authorization_keys named
    entries ← txn_entries (account_authorizations_key named) t
    counted ← count_agent entries t
    u ← delete_entries entries counted
    agent_entries ← txn_entries (authorized_agent_state_key named) u
    v ← delete_entries agent_entries u
    w ← create_state (authorization_param named keys) v
    ok (named, w)

  first_or_stored : List Authorization → EntityModel → Str → Stores → Outcome Bytes
  unfolding get_state_by_id
  first_or_stored [] model id stores = get_state_by_id id model stores
  first_or_stored (a ∷ more) model id stores = ok (codec.pack (authorization_state a))

  by_key_or_id : EntityModel → Str → Stores → Outcome Bytes
  unfolding first_or_stored get_account_authorizations authorization_of_key get_state_by_id
  by_key_or_id auth_model id stores =
      if ltb 36 (length id)
      then (do
        a ← authorization_of_key id
        authorizations ← get_account_authorizations a none none stores
        first_or_stored authorizations auth_model id stores)
      else get_state_by_id id auth_model stores
  by_key_or_id model id stores = get_state_by_id id model stores

  -- GetStateFromEntityPath, of a path that is not nil; an empty id has no state.
  unfoldable pub get_state_from_entity_path : EventPath → Stores → Outcome (Option Bytes)
  unfolding by_key_or_id is_empty
  get_state_from_entity_path path stores =
      if is_empty path.id
      then ok none
      else (by_key_or_id path.model path.id stores >>= λ b. ok (some b))
