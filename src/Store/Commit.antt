-- ===== src/Store/Commit.antt =====
-- Commit of internal/ds/query/data_state_manager.go: what was collected is written to the stores.
pub mod Facts
use go_m_layer.Prelude.{
  ℕ, ◌+◌, Bool, true, false, Option, none, some, List, [], ◌∷◌, Str, Error, Outcome, ok, fail,
  panic, attempt, ◌>>=◌, StateKey,
}
use go_m_layer.External.{External, Bytes}
use go_m_layer.Entities.Ids.{
  EntityModel, model_of_text, subnet_model, auth_model, topic_model, subscription_model,
  message_model,
}
use go_m_layer.Entities.Records.{
  Event, State, subnet_state, authorization_state, topic_state, subscription_state, message_state,
}
use go_m_layer.Entities.Keys.{Clock}
use go_m_layer.DataStates.{DataStates, Stored, by_value, by_pointer}
use go_m_layer.Store.KeyValue.{KeyValue}
use go_m_layer.Store.Codec.{Codec}
use go_m_layer.Store.States.{Stores, save_historic_state}
use go_m_layer.Store.Subnets.{update_subnet_state}
use go_m_layer.Store.Topics.{update_topic_state}
use go_m_layer.Store.Authorizations.{create_authorization_state}
use go_m_layer.Store.Subscriptions.{create_subscription_state}
use go_m_layer.Store.Messages.{create_message_state}
use go_m_layer.Store.Events.{update_event}

module _ ⦃kv : KeyValue⦄ where
  open kv use {Txn}

  -- The transactions of one Commit on the states and on the messages.
  pub record StateTxns : Type 0 where
    pub state : Txn
    pub message : Txn

  -- The stores after a call, with the error that it returned.
  pub record Written : Type 0 where
    pub stores : Stores
    pub error : Option Error

module _ ⦃x : External⦄ ⦃c : Clock⦄ ⦃kv : KeyValue⦄ (codec : Codec) where
  open kv use {Store, Txn, begin, commit}

  with_state {ℓ} : {A : Type ℓ} → StateTxns → Outcome (A × Txn) → Outcome StateTxns
  with_state t written = written >>= λ r. ok (record t { state = r.1 })

  with_message {ℓ} : {A : Type ℓ} → StateTxns → Outcome (A × Txn) → Outcome StateTxns
  with_message t written = written >>= λ r. ok (record t { message = r.1 })

  -- The branch of the switch on the model of the key: it asserts that the value is a struct of the
  -- model's type, and panics where it is a pointer or another struct.
  commit_state_of : EntityModel → Str → Stored → Stores → StateTxns → Outcome StateTxns
  unfolding with_state with_message update_subnet_state create_authorization_state
      update_topic_state create_subscription_state create_message_state
  commit_state_of subnet_model id (by_value (subnet_state s)) stores t =
      with_state t (update_subnet_state codec id s t.state stores true)
  commit_state_of auth_model id (by_value (authorization_state a)) stores t =
      with_state t (create_authorization_state codec a t.state)
  commit_state_of topic_model id (by_value (topic_state s)) stores t =
      with_state t (update_topic_state codec id s t.state stores true)
  commit_state_of subscription_model id (by_value (subscription_state s)) stores t =
      with_state t (create_subscription_state codec s t.state stores)
  commit_state_of message_model id (by_value (message_state m)) stores t =
      with_message t (create_message_state codec m t.message)
  commit_state_of subnet_model id _ stores t = panic
  commit_state_of auth_model id _ stores t = panic
  commit_state_of topic_model id _ stores t = panic
  commit_state_of subscription_model id _ stores t = panic
  commit_state_of message_model id _ stores t = panic
  commit_state_of _ id _ stores t = ok t

  -- The loop over the current states, in the order in which the map is ranged over.
  unfoldable pub commit_states : List (StateKey × Stored) → Stores → StateTxns → Outcome StateTxns
  unfolding commit_state_of model_of_text
  commit_states [] stores t = ok t
  commit_states (entry ∷ entries) stores t = do
    u ← commit_state_of (model_of_text entry.0.model) entry.0.id entry.1 stores t
    commit_states entries stores u

  -- The loop over the historic states writes to the stores at once, up to the first error.
  unfoldable pub commit_historic : List (StateKey × Bytes) → Stores → Outcome Written
  unfolding save_historic_state model_of_text
  commit_historic [] stores = ok (record { stores = stores; error = none })
  commit_historic (entry ∷ entries) stores =
      attempt (save_historic_state (model_of_text entry.0.model) entry.0.id entry.1 stores)
        (λ later. commit_historic entries later)
        (λ e. ok (record { stores = stores; error = some e }))

  -- One UpdateEvent reads the clock five times at most.
  unfoldable pub commit_events : List (Str × Event) → ℕ → Txn → Outcome Txn
  unfolding update_event
  commit_events [] reading t = ok t
  commit_events (entry ∷ entries) reading t = do
    u ← update_event codec entry.1 true reading t
    commit_events entries (reading + 5) u

  written_with : Stores → Option Error → Outcome Written
  written_with stores e = ok (record { stores = stores; error = e })

  -- The three commits at the end: the first that fails is the last.
  unfoldable pub commit_all : Stores → StateTxns → Txn → Outcome Written
  unfolding written_with
  commit_all stores t events =
      attempt (commit t.state stores.state)
        (λ state.
          attempt (commit t.message stores.message)
            (λ message.
              attempt (commit events stores.event)
                (λ event.
                  written_with (record stores { state = state; message = message; event = event })
                    none)
                (λ e. written_with (record stores { state = state; message = message }) (some e)))
            (λ e. written_with (record stores { state = state }) (some e)))
        (λ e. written_with stores (some e))

  -- len(ds.Events) == 0 panics.
  commit_with_events : DataStates → Written → StateTxns → Txn → List (Str × Event) → Outcome Written
  unfolding commit_events commit_all written_with
  commit_with_events ds w t events [] = panic
  commit_with_events ds w t events (entry ∷ entries) =
      attempt (commit_events (entry ∷ entries) 0 events) (λ later. commit_all w.stores t later)
        (λ e. written_with w.stores (some e))

  after_historic : DataStates → StateTxns → Txn → Written → Option Error → Outcome Written
  unfolding commit_with_events
  after_historic ds t events w (some e) = ok w
  after_historic ds t events w none = commit_with_events ds w t events ds.events

  after_states : DataStates → Stores → Txn → StateTxns → Outcome Written
  unfolding commit_historic after_historic
  after_states ds stores events t =
      commit_historic ds.historic_state stores >>= λ w. after_historic ds t events w w.error

  in_txns : DataStates → Stores → Txn → Txn → Txn → Outcome Written
  unfolding commit_states after_states written_with
  in_txns ds stores state event message =
      attempt (commit_states ds.current_states stores (record { state = state; message = message }))
        (after_states ds stores event) (λ e. written_with stores (some e))

  -- Commit, without transactions that are given. A panic ends the process.
  unfoldable pub commit_data_states : DataStates → Stores → Outcome Written
  unfolding in_txns written_with
  commit_data_states ds stores =
      attempt (begin stores.state)
        (λ state.
          attempt (begin stores.event)
            (λ event.
              attempt (begin stores.message) (λ message. in_txns ds stores state event message)
                (λ e. written_with stores (some e)))
            (λ e. written_with stores (some e)))
        (λ e. written_with stores (some e))
