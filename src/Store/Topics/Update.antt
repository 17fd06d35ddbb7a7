-- ===== src/Store/Topics/Update.antt =====
-- UpdateTopicState of a topic that is stored.
use go_m_layer.Prelude.{
  ◌≡◌, ◌≢◌, refl, sym, ap, ◌∙◌, Bool, some, [], ◌∷◌, Str, ok, >>=-ok, ok_inj, All,
}
use go_m_layer.External.{External}
use go_m_layer.Entities.Ids.{topic_model}
use go_m_layer.Entities.Records.{Topic, topic_state, get_id}
use go_m_layer.Entities.Keys.{Clock, id_key, data_key, topic_ref_key}
use go_m_layer.Store.KeyValue.{KeyValue, KeyValueLaws, read}
use go_m_layer.Store.Codec.{Codec}
use go_m_layer.Store.States.{Stores, update_state}
use go_m_layer.Store.States.Update.{read-update_state, read-update_state_other}
use go_m_layer.Store.Topics.{get_topic_by_id, topic_update, update_topic, update_topic_state}

module _ ⦃x : External⦄ ⦃c : Clock⦄ ⦃kv : KeyValue⦄ ⦃laws : KeyValueLaws⦄ (codec : Codec) where
  -- What UpdateTopicState does where the old topic is found.
  updated :
      (given id : Str) (t old : Topic) (b : Bool) (stores : Stores) (txn u : kv.Txn) (t' : Topic)
      → get_id t.event_signature given ≡ ok id
      → get_topic_by_id codec id stores ≡ ok old
      → update_topic_state codec given t txn stores b ≡ ok (t', u)
      → update_topic codec id t old txn ≡ ok (t', u)
  unfolding update_topic_state
  updated given id t old b stores txn u t' named stored h = sym (rw (named, stored) refl) ∙ h

  -- What UpdateState does for it.
  state_updated :
      (given id : Str) (t old t' : Topic) (b : Bool) (stores : Stores) (txn u : kv.Txn)
      → get_id t.event_signature given ≡ ok id
      → get_topic_by_id codec id stores ≡ ok old
      → update_topic_state codec given t txn stores b ≡ ok (t', u)
      → update_state id (topic_update codec id t old) txn ≡ ok u
  unfolding update_topic
  state_updated given id t old t' b stores txn u named stored h =
      let (v, done, last) =
        >>=-ok (update_state id (topic_update codec id t old) txn) (λ v. ok (t, v)) (t', u)
          (updated given id t old b stores txn u t' named stored h) in
      done ∙ ap (λ (r : Topic × kv.Txn). ok r.1) (ok_inj last)

  -- Where UpdateTopicState updates a stored topic, the key of its id reads the new event, and the key
  -- of that event the new topic; the key under which CreateTopicState keeps the reference of any topic
  -- reads what it did before. The keys in question must be cleaned apart, from the two references too.
  pub read-update_topic_state :
      (given id : Str) (any t old t' : Topic) (b : Bool) (stores : Stores) (txn u : kv.Txn)
      → get_id t.event_signature given ≡ ok id
      → get_topic_by_id codec id stores ≡ ok old
      → kv.new_key (data_key topic_model t.event) ≢ kv.new_key (id_key topic_model id)
      → All
          (λ ref. kv.new_key (data_key topic_model t.event) ≢ kv.new_key ref)
          (t.ref ∷ old.ref ∷ [])
      → All (λ ref. kv.new_key (id_key topic_model id) ≢ kv.new_key ref) (t.ref ∷ old.ref ∷ [])
      → All
          (λ key. kv.new_key (topic_ref_key any) ≢ kv.new_key key)
          (data_key topic_model t.event ∷ id_key topic_model id ∷ t.ref ∷ old.ref ∷ [])
      → update_topic_state codec given t txn stores b ≡ ok (t', u)
      → (read (id_key topic_model id) u ≡ ok (some t.event.id))
        × (read (data_key topic_model t.event) u ≡ ok (some (codec.pack (topic_state t))))
        × (read (topic_ref_key any) u ≡ read (topic_ref_key any) txn)
  unfolding topic_update
  read-update_topic_state given id any t old t' b stores txn u named stored apart
        (data_ref, (data_old, end)) (id_ref, (id_old, end'))
        (no_data, (no_id, (no_ref, (no_old, end'')))) h =
      let done = state_updated given id t old t' b stores txn u named stored h in
      let p = topic_update codec id t old in
      let (event, content) =
        read-update_state id p t.ref old.ref txn u refl refl apart data_ref data_old id_ref id_old
          done in
      (
        event,
        content,
        read-update_state_other id p t.ref old.ref (topic_ref_key any) txn u refl refl no_data no_id
            no_ref no_old done,
      )
