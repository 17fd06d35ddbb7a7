-- ===== src/Service/Sync.antt =====
-- internal/service/helper.go: states that are read from the local store, or asked from a peer.
use go_m_layer.Prelude.{
  not, none, some, List, [], ◌∷◌, ◌++◌, Str, str, is_empty, length, ltb, if◌then◌else◌, Outcome, ok,
  fail, panic, not_found_error, is_not_found, ◌>>=◌, ◌>>◌, reject_if, attempt,
}
use go_m_layer.External.{Bytes}
use go_m_layer.Entities.Ids.{
  EntityModel, topic_model, subnet_model, wallet_model, other_model, model_text, EventPath,
  new_event_path,
}
use go_m_layer.Entities.Records.{
  Subnet, Topic, State, Event, subnet_state, authorization_state, topic_state, subscription_state,
  message_state,
}
use go_m_layer.Service.Env.{Env, P2pResponse}

-- newState.ID = id
with_id : Str → State → State
with_id id (subnet_state s) = subnet_state (record s { id = id })
with_id id (authorization_state a) = authorization_state (record a { id = id })
with_id id (topic_state t) = topic_state (record t { id = id })
with_id id (subscription_state s) = subscription_state (record s { id = id })
with_id id (message_state m) = message_state (record m { id = id })

module _ (v : Env) where
  -- The state that the peer sent, in a variable of the model's type. The source asserts that a new
  -- Subnet is an Authorization, which panics; for wallets and other models it asks nobody, and reads
  -- the nil response.
  ask_peer : EntityModel → EventPath → Outcome (P2pResponse × State)
  ask_peer subnet_model path = panic
  ask_peer wallet_model path = panic
  ask_peer (other_model s) path = panic
  ask_peer _ path = v.p2p_state path none

  -- SyncStateFromPeer. The caller gets the address of a variable of type `any`.
  unfoldable pub sync_state_from_peer : Str → EntityModel → Str → Outcome (State × Event)
  unfolding ask_peer with_id
  sync_state_from_peer id model validator = do
    peer ← if is_empty validator then v.random_synced_node else ok validator
    reject_if (is_empty peer) (not_found_error (model_text model ++ str " state not found"))
    (pp, state) ← ask_peer model (new_event_path peer model id)
    reject_if (ltb (length pp.event) 2)
        (not_found_error (model_text model ++ str " state not found"))
    event ← v.unpack_event pp.event model
    v.update_event event
    v.create_state (with_id id state)
    ok (state, event)

  -- `d.(*M)` on what SyncStateFromPeer returns: a pointer to an `any` is no *M.
  assert_state_pointer {ℓ} : {A : Type ℓ} → State × Event → Outcome A
  assert_state_pointer r = panic

  -- SyncTypedStateById, at the type that `unpack` yields.
  unfoldable pub sync_typed_state :
      {A : Type 0} → EntityModel → (Bytes → Outcome A) → Str → Str → Outcome A
  unfolding assert_state_pointer sync_state_from_peer
  sync_typed_state model unpack did validator = attempt (v.state_by_id did model) unpack λ e.
      if not (is_not_found (some e))
      then fail e
      else (sync_state_from_peer did model validator >>= λ r. assert_state_pointer r)

  unfoldable pub sync_subnet : Str → Str → Outcome Subnet
  unfolding sync_typed_state
  sync_subnet did validator = sync_typed_state subnet_model v.unpack_subnet did validator

  unfoldable pub sync_topic : Str → Str → Outcome Topic
  unfolding sync_typed_state
  sync_topic did validator = sync_typed_state topic_model v.unpack_topic did validator

  -- resp.States[0]
  first_state : Event → List Bytes → Outcome (Event × Bytes)
  first_state event [] = panic
  first_state event (s ∷ more) = ok (event, s)

  -- SyncEventByPath: the event, and the bytes of its state.
  unfoldable pub sync_event_by_path : EventPath → Str → Outcome (Event × Bytes)
  unfolding first_state
  sync_event_by_path path validator =
      attempt (v.event_by_id path.id path.model) (λ event. ok (event, v.state_from_event_path path))
        λ e.
          if not (is_not_found (some e))
          then fail e
          else (v.p2p_event path (some validator) >>= λ r. first_state r.0 r.1.states)
