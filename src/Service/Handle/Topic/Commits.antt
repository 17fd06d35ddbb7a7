-- ===== src/Service/Handle/Topic/Commits.antt =====
-- What the handler of topics commits.
use go_m_layer.Prelude.{◌≡◌, Bool, true, Option, none, some, [], Str, is_empty, if◌then◌else◌, ok}
use go_m_layer.External.{External}
use go_m_layer.Entities.Ids.{topic_model}
use go_m_layer.Entities.Records.{Topic, topic_state, Event, event_id, State, zero_topic}
use go_m_layer.DataStates.{DataStates}
use go_m_layer.DataStates.Keep.{Has}
use go_m_layer.Service.Env.{Env}
use go_m_layer.Service.Handle.Step.{Handled, committed_with}
use go_m_layer.Service.Sync.{sync_topic}
use go_m_layer.Service.Process.Checks.{is_local}
use go_m_layer.Service.Handle.Common.{both_up_to_date, state_event}
use go_m_layer.Service.Handle.Common.Keep.{
  Commits, Keeping, Any, Commits-committed_with, Keeping->>=, Keeping-if, Keeping-next,
  Keeping-call, Keeping-finish, Keeping-first, Keeping-path_of, Keeping-hashed, Keeping-id_of,
  Keeping-store_state, Keeping-marked, Keeping-processed,
}
use go_m_layer.Service.Handle.Topic.{
  content_of, content_topic, filled_topic, local_topic_state, store_topic, handle_topic,
}

module _ (j : Str) where
  Keeping-content_of : (o : Option State) → Keeping j Any (content_of o)
  unfolding content_of Keeping
  Keeping-content_of (some (topic_state t)) = tt
  Keeping-content_of _ = tt

  Keeping-content_topic : (e : Event) → Keeping j Any (content_topic e)
  unfolding content_topic
  Keeping-content_topic e = Keeping-content_of e.payload.content

module _ ⦃x : External⦄ (v : Env) (j : Str) where
  Keeping-filled_topic : (e : Event) (t : Topic) → Keeping j Any (filled_topic v e t)
  unfolding filled_topic
  Keeping-filled_topic e t =
      Keeping->>= j Any Any _ _ (Keeping-path_of j e)
        λ path _. Keeping->>= j Any Any _ _ (Keeping-hashed j _) λ hash _. Keeping-next j Any _ tt

  Keeping-local_topic_state :
      (e : Event) (sent id : Str) (ds : DataStates)
      → Has j ds
      → Keeping j Any (local_topic_state v e sent id ds)
  unfolding local_topic_state
  Keeping-local_topic_state e sent id ds h =
      Keeping-if j Any (is_empty sent) _ _ (Keeping-next j Any zero_topic tt) (
        Keeping-call j (sync_topic v id (if is_local v e then [] else e.validator))
          (λ err. committed_with ds (some err)) (λ err. Commits-committed_with j ds (some err) h))

  Keeping-store_topic :
      (e : Event) (t : Topic) (id : Str) (b : Bool) (ds : DataStates)
      → Has j ds
      → Keeping j (Has j) (store_topic v e t id b ds)
  unfolding store_topic
  Keeping-store_topic e t id b ds h =
      Keeping->>= j Any (Has j) _ _ (Keeping-id_of j t.event_signature t.id)
        λ own _. Keeping-store_state j b topic_model id id _ _ ds h

  -- What the handler of topics commits holds the event under its id.
  pub Commits-handle_topic :
      (e : Event) (h : Handled) → event_id e ≡ ok j → handle_topic v e ≡ ok h → Commits j h
  unfolding handle_topic
  Commits-handle_topic e h named = Keeping-finish j _ h (
      Keeping->>= j (Has j) (Commits j) _ _ (Keeping-first j e named) λ ds has.
        Keeping->>= j Any (Commits j) _ _ (Keeping-content_topic j e) λ sent _.
          Keeping->>= j Any (Commits j) _ _ (Keeping-id_of j sent.event_signature sent.id) λ id _.
            Keeping->>= j Any (Commits j) _ _ (Keeping-filled_topic e sent) λ t _.
              Keeping->>= j Any (Commits j) _ _ (Keeping-local_topic_state e sent.id id ds has)
                λ local _.
                  Keeping->>= j Any (Commits j) _ _
                    (Keeping-call j (state_event v local.id local.event) _
                      (λ err. Commits-committed_with j ds (some err) has))
                    λ local_ev _.
                      Keeping->>= j (λ r. Has j r.0) (Commits j) _ _
                        (Keeping-processed j v e _ true ds _ has
                          (λ new err. Commits-committed_with j new (some err)))
                        λ r kept.
                          Keeping-if j (Commits j) (both_up_to_date r.1) _ _
                            (Keeping->>= j (Has j) (Commits j) _ _
                              (Keeping-marked j e _ _ r.0 kept (λ new has_new.
                                Keeping-store_topic e t id r.1.is_recent new has_new))
                              λ stored has_stored.
                                Keeping-next j (Commits j) _
                                  (Commits-committed_with j stored none has_stored))
                            (Keeping-next j (Commits j) _ (Commits-committed_with j r.0 none kept)))
