-- ===== src/Store/Commit/Facts.antt =====
-- What Commit leaves in the stores, with and without an error.
use go_m_layer.Prelude.{
  ◌≡◌, refl, sym, ap, ◌∙◌, Bool, true, false, Option, none, some, List, [], ◌∷◌, Str, Error, ok,
  attempt-ok, >>=-ok, ok_inj, StateKey, inl, inr, ◌⊎◌, All,
}
use go_m_layer.External.{External, Bytes}
use go_m_layer.Entities.Ids.{
  EntityModel, model_of_text, subnet_model, auth_model, topic_model, subscription_model,
  message_model, wallet_model, other_model,
}
use go_m_layer.Entities.Records.{
  Event, State, subnet_state, authorization_state, topic_state, subscription_state, message_state,
  get_model,
}
use go_m_layer.Entities.Keys.{Clock}
use go_m_layer.DataStates.{DataStates, Stored, by_value}
use go_m_layer.Store.KeyValue.{KeyValue}
use go_m_layer.Store.Codec.{Codec}
use go_m_layer.Store.States.{Stores, save_historic_state}
use go_m_layer.Store.Commit.{
  StateTxns, Written, commit_state_of, commit_states, commit_historic, commit_events, commit_all,
  commit_with_events, after_historic, after_states, in_txns, commit_data_states, written_with,
}

-- The five models that Commit has a branch for.
unfoldable pub is_state_model : EntityModel → Bool
is_state_model wallet_model = false
is_state_model (other_model m) = false
is_state_model _ = true

-- A stored value is a struct, not a pointer, and GetModel of the struct is the given model.
unfoldable pub StructOf : EntityModel → Stored → Type 0
StructOf model s = (state : State) × (s ≡ by_value state) × (get_model (some state) ≡ ok model)

unfoldable pub Committable : StateKey × Stored → Type 0
unfolding StructOf
Committable entry =
    (is_state_model (model_of_text entry.0.model) ≡ false)
    ⊎ StructOf (model_of_text entry.0.model) entry.1

module _ ⦃x : External⦄ ⦃c : Clock⦄ ⦃kv : KeyValue⦄ (codec : Codec) where
  commit_state_of-StructOf :
      (model : EntityModel) (id : Str) (s : Stored) (stores : Stores) (t u : StateTxns)
      → commit_state_of codec model id s stores t ≡ ok u
      → (is_state_model model ≡ false) ⊎ StructOf model s
  unfolding commit_state_of is_state_model StructOf get_model
  commit_state_of-StructOf subnet_model id (by_value (subnet_state s)) stores t u h =
      inr (subnet_state s, refl, refl)
  commit_state_of-StructOf auth_model id (by_value (authorization_state s)) stores t u h =
      inr (authorization_state s, refl, refl)
  commit_state_of-StructOf topic_model id (by_value (topic_state s)) stores t u h =
      inr (topic_state s, refl, refl)
  commit_state_of-StructOf subscription_model id (by_value (subscription_state s)) stores t u h =
      inr (subscription_state s, refl, refl)
  commit_state_of-StructOf message_model id (by_value (message_state s)) stores t u h =
      inr (message_state s, refl, refl)
  commit_state_of-StructOf wallet_model id s stores t u h = inl refl
  commit_state_of-StructOf (other_model m) id s stores t u h = inl refl
  commit_state_of-StructOf _ id s stores t u h = cc

  commit_states-Committable :
      (entries : List (StateKey × Stored)) (stores : Stores) (t u : StateTxns)
      → commit_states codec entries stores t ≡ ok u
      → All Committable entries
  unfolding commit_states Committable
  commit_states-Committable [] stores t u h = tt
  commit_states-Committable (entry ∷ entries) stores t u h =
      let (v, first, rest) =
        >>=-ok (commit_state_of codec (model_of_text entry.0.model) entry.0.id entry.1 stores t)
          (commit_states codec entries stores) u h in
      (
        commit_state_of-StructOf (model_of_text entry.0.model) entry.0.id entry.1 stores t v first,
        commit_states-Committable entries stores v u rest,
      )

  written_with-stores :
      (stores : Stores) (e : Option Error) (w : Written)
      → written_with codec stores e ≡ ok w
      → (w.stores ≡ stores) × (w.error ≡ e)
  unfolding written_with
  written_with-stores stores e w h =
      (ap Written.stores (sym (ok_inj h)), ap Written.error (sym (ok_inj h)))

  event_of :
      (stores : Stores) (e : Option Error) (w : Written)
      → written_with codec stores e ≡ ok w
      → w.stores.event ≡ stores.event
  event_of stores e w h = ap Stores.event (written_with-stores stores e w h).0

  no_error :
      (stores : Stores) (e : Error) (w : Written)
      → written_with codec stores none ≡ ok w
      → w.error ≡ some e
      → ⊥
  no_error stores e w h err = cc (sym (written_with-stores stores none w h).1 ∙ err)

  commit_all-event :
      (stores : Stores) (t : StateTxns) (events : kv.Txn) (w : Written) (e : Error)
      → commit_all codec stores t events ≡ ok w
      → w.error ≡ some e
      → w.stores.event ≡ stores.event
  unfolding commit_all
  commit_all-event stores t events w e h err =
      elim (attempt-ok (kv.commit t.state stores.state) _ _ w h) [
        | inr (f, done, last) ↦ event_of stores (some f) w last
        | inl (state, done, rest) ↦
            (elim (attempt-ok (kv.commit t.message stores.message) _ _ w rest) [
              | inr (f, done_too, last) ↦ event_of (record stores { state = state }) (some f) w last
              | inl (message, done_too, more) ↦
                  (elim (attempt-ok (kv.commit events stores.event) _ _ w more) [
                    | inr (f, failed, last) ↦
                        event_of (record stores { state = state; message = message }) (some f) w
                          last
                    | inl (event, stored, last) ↦ absurd (no_error _ e w last err)
                  ])
            ])
      ]

  commit_with_events-event :
      (ds : DataStates) (v : Written) (t : StateTxns) (events : kv.Txn)
      (entries : List (Str × Event)) (w : Written) (e : Error)
      → commit_with_events codec ds v t events entries ≡ ok w
      → w.error ≡ some e
      → w.stores.event ≡ v.stores.event
  unfolding commit_with_events
  commit_with_events-event ds v t events [] w e h err = cc
  commit_with_events-event ds v t events (entry ∷ entries) w e h err =
      elim (attempt-ok (commit_events codec (entry ∷ entries) 0 events) _ _ w h) [
        | inl (later, updated, rest) ↦ commit_all-event v.stores t later w e rest err
        | inr (f, failed, last) ↦ event_of v.stores (some f) w last
      ]

  save_historic_state-event :
      (model : EntityModel) (id : Str) (state : Bytes) (stores later : Stores)
      → save_historic_state model id state stores ≡ ok later
      → later.event ≡ stores.event
  unfolding save_historic_state
  save_historic_state-event message_model id state stores later h =
      let (s, put, last) = >>=-ok (kv.put _ state stores.message) _ later h in
      ap Stores.event (sym (ok_inj last))
  save_historic_state-event _ id state stores later h =
      let (s, put, last) = >>=-ok (kv.put _ state stores.state) _ later h in
      ap Stores.event (sym (ok_inj last))

  commit_historic-event :
      (entries : List (StateKey × Bytes)) (stores : Stores) (w : Written)
      → commit_historic codec entries stores ≡ ok w
      → w.stores.event ≡ stores.event
  unfolding commit_historic
  commit_historic-event [] stores w h = ap (λ (v : Written). v.stores.event) (sym (ok_inj h))
  commit_historic-event (entry ∷ entries) stores w h =
      elim (attempt-ok (save_historic_state (model_of_text entry.0.model) entry.0.id entry.1 stores)
        _ _ w h) [
          | inl (later, put, rest) ↦
              commit_historic-event entries later w rest
              ∙ save_historic_state-event (model_of_text entry.0.model) entry.0.id entry.1 stores
                  later put
          | inr (f, failed, last) ↦ ap (λ (v : Written). v.stores.event) (sym (ok_inj last))
        ]

  after_historic-event :
      (ds : DataStates) (t : StateTxns) (events : kv.Txn) (v : Written) (o : Option Error)
      (w : Written) (e : Error)
      → after_historic codec ds t events v o ≡ ok w
      → w.error ≡ some e
      → w.stores.event ≡ v.stores.event
  unfolding after_historic
  after_historic-event ds t events v (some f) w e h err =
      ap (λ (r : Written). r.stores.event) (sym (ok_inj h))
  after_historic-event ds t events v none w e h err =
      commit_with_events-event ds v t events ds.events w e h err

  in_txns-event :
      (ds : DataStates) (stores : Stores) (state event message : kv.Txn) (w : Written) (e : Error)
      → in_txns codec ds stores state event message ≡ ok w
      → w.error ≡ some e
      → w.stores.event ≡ stores.event
  unfolding in_txns after_states
  in_txns-event ds stores state event message w e h err =
      elim (attempt-ok
        (commit_states codec ds.current_states stores (record { state = state; message = message }))
        _ _ w h) [
          | inr (f, failed, last) ↦ event_of stores (some f) w last
          | inl (t, written, rest) ↦
              let (v, historic, more) =
                >>=-ok (commit_historic codec ds.historic_state stores)
                  (λ v. after_historic codec ds t event v v.error) w rest in
              after_historic-event ds t event v v.error w e more err
              ∙ commit_historic-event ds.historic_state stores v historic
        ]

  -- What Commit comes to once it has its three transactions, or else that nothing is written.
  begun :
      (ds : DataStates) (stores : Stores) (w : Written)
      → commit_data_states codec ds stores ≡ ok w
      → ((state : kv.Txn) × (event : kv.Txn) × (message : kv.Txn) × (in_txns codec ds stores state
              event message
            ≡ ok w))
        ⊎ ((e : Error) × (written_with codec stores (some e) ≡ ok w))
  unfolding commit_data_states
  begun ds stores w h = elim (attempt-ok (kv.begin stores.state) _ _ w h) [
    | inr (f, failed, last) ↦ inr (f, last)
    | inl (state, begun_state, rest) ↦ (elim (attempt-ok (kv.begin stores.event) _ _ w rest) [
      | inr (f, failed, last) ↦ inr (f, last)
      | inl (event, begun_event, more) ↦ (elim (attempt-ok (kv.begin stores.message) _ _ w more) [
        | inr (f, failed, last) ↦ inr (f, last)
        | inl (message, begun_message, last) ↦ inl (state, event, message, last)
      ])
    ])
  ]

  -- Where Commit returns an error, no event is stored: the event store is as it was.
  pub commit_data_states_events :
      (ds : DataStates) (stores : Stores) (w : Written) (e : Error)
      → commit_data_states codec ds stores ≡ ok w
      → w.error ≡ some e
      → w.stores.event ≡ stores.event
  commit_data_states_events ds stores w e h err = elim (begun ds stores w h) [
    | inl (state, event, message, last) ↦ in_txns-event ds stores state event message w e last err
    | inr (f, last) ↦ event_of stores (some f) w last
  ]

  -- Where Commit returns without an error, every current state that was collected under one of the five
  -- models of states is a struct, and not a pointer to one, and GetModel of the struct is that model.
  pub commit_data_states_structs :
      (ds : DataStates) (stores : Stores) (w : Written)
      → commit_data_states codec ds stores ≡ ok w
      → w.error ≡ none
      → All Committable ds.current_states
  unfolding in_txns
  commit_data_states_structs ds stores w h fine = elim (begun ds stores w h) [
    | inr (f, last) ↦ cc (sym (written_with-stores stores (some f) w last).1 ∙ fine)
    | inl (state, event, message, last) ↦
        (elim (attempt-ok
          (commit_states codec ds.current_states stores
            (record { state = state; message = message }))
          _ _ w last) [
            | inl (t, written, rest) ↦
                commit_states-Committable ds.current_states stores _ t written
            | inr (f, failed, end) ↦ cc (sym (written_with-stores stores (some f) w end).1 ∙ fine)
          ])
  ]
