-- ===== src/Service/Handle/Subscription/Commits.antt =====
-- What the handler of subscriptions commits.
use go_m_layer.Prelude.{
  ◌≡◌, Bool, true, Option, none, some, List, [], ◌∷◌, Str, is_empty, if◌then◌else◌, Outcome, ok,
  fail, panic,
}
use go_m_layer.External.{External}
use go_m_layer.Entities.Ids.{subscription_model}
use go_m_layer.Entities.Records.{Subscription, State, subscription_state, Event, event_id}
use go_m_layer.Entities.Keys.{data_key}
use go_m_layer.DataStates.{DataStates}
use go_m_layer.DataStates.Keep.{Has}
use go_m_layer.Service.Env.{Env}
use go_m_layer.Service.Sync.{sync_topic}
use go_m_layer.Service.Process.Checks.{is_local}
use go_m_layer.Service.Handle.Step.{Handled, committed_with}
use go_m_layer.Service.Handle.Common.{both_up_to_date}
use go_m_layer.Service.Handle.Common.Keep.{
  Commits, Keeping, Any, Commits-committed_with, Keeping->>=, Keeping-if, Keeping-next,
  Keeping-call, Keeping-read, Keeping-finish, Keeping-first, Keeping-path_of, Keeping-hashed,
  Keeping-id_of, Keeping-store_state, Keeping-marked, Keeping-processed,
  Keeping-state_event_or_none,
}
use go_m_layer.Service.Handle.Subscription.{
  content_of, content_subscription, first_found, first_subscription, local_subscription,
  filled_subscription, store_subscription, apply_subscription, handle_subscription,
}

module _ (j : Str) where
  Keeping-content_of : (o : Option State) → Keeping j Any (content_of o)
  unfolding content_of Keeping
  Keeping-content_of (some (subscription_state s)) = tt
  Keeping-content_of _ = tt

  Keeping-content_subscription : (e : Event) → Keeping j Any (content_subscription e)
  unfolding content_subscription
  Keeping-content_subscription e = Keeping-content_of e.payload.content

  Keeping-first_found : (o : Outcome (List Subscription)) → Keeping j Any (first_found o)
  unfolding first_found Keeping
  Keeping-first_found (ok []) = tt
  Keeping-first_found (ok (a ∷ more)) = tt
  Keeping-first_found (fail e) = tt
  Keeping-first_found panic = tt

  Keeping-local_subscription : (a : Subscription) → Keeping j Any (local_subscription a)
  unfolding local_subscription
  Keeping-local_subscription a =
      Keeping-if j Any (is_empty a.id) _ _ (Keeping-next j Any none tt)
        (Keeping->>= j Any Any _ _ (Keeping-read j a.timestamp) λ t _. Keeping-next j Any _ tt)

module _ ⦃x : External⦄ (v : Env) (j : Str) where
  Keeping-first_subscription : (s : Subscription) → Keeping j Any (first_subscription v s)
  unfolding first_subscription
  Keeping-first_subscription s = Keeping-first_found j _

  Keeping-filled_subscription :
      (e : Event) (s : Subscription) → Keeping j Any (filled_subscription v e s)
  unfolding filled_subscription
  Keeping-filled_subscription e s =
      Keeping->>= j Any Any _ _ (Keeping-path_of j e)
        λ path _. Keeping->>= j Any Any _ _ (Keeping-hashed j _) λ hash _. Keeping-next j Any _ tt

  Keeping-store_subscription :
      (e : Event) (s : Subscription) (b : Bool) (ds : DataStates)
      → Has j ds
      → Keeping j (Has j) (store_subscription v e s b ds)
  unfolding store_subscription
  Keeping-store_subscription e s b ds h =
      Keeping->>= j Any (Has j) _ _ (Keeping-id_of j s.event_signature s.id) λ own _.
        Keeping-store_state j b subscription_model (data_key subscription_model s.event) _ _ _ ds h

  Keeping-apply_subscription :
      (e : Event) (s : Subscription) (b : Bool) (ds : DataStates)
      → Has j ds
      → Keeping j (Commits j) (apply_subscription v e s b ds)
  unfolding apply_subscription
  Keeping-apply_subscription e s b ds h =
      Keeping->>= j Any (Commits j) _ _
        (Keeping-call j (sync_topic v s.topic (if is_local v e then [] else e.validator))
          (λ err. committed_with ds (some err)) (λ err. Commits-committed_with j ds (some err) h))
        λ topic _.
          Keeping->>= j (Has j) (Commits j) _ _
            (Keeping-marked j e _ _ ds h (λ new has. Keeping-store_subscription e s b new has))
            λ stored has. Keeping-next j (Commits j) _ (Commits-committed_with j stored none has)

  -- What the handler of subscriptions commits holds the event under its id.
  pub Commits-handle_subscription :
      (e : Event) (h : Handled) → event_id e ≡ ok j → handle_subscription v e ≡ ok h → Commits j h
  unfolding handle_subscription
  Commits-handle_subscription e h named = Keeping-finish j _ h (
      Keeping->>= j Any (Commits j) _ _ (Keeping-content_subscription j e) λ sent _.
        Keeping->>= j (Has j) (Commits j) _ _ (Keeping-first j e named) λ ds has.
          Keeping->>= j Any (Commits j) _ _ (Keeping-filled_subscription e sent) λ s _.
            Keeping->>= j Any (Commits j) _ _ (Keeping-first_subscription s) λ local _.
              Keeping->>= j Any (Commits j) _ _ (Keeping-local_subscription j local) λ local_data _.
                Keeping->>= j Any (Commits j) _ _
                  (Keeping-state_event_or_none j v local.id local.event)
                  λ local_ev _.
                    Keeping->>= j (λ r. Has j r.0) (Commits j) _ _
                      (Keeping-processed j v e _ true ds _ has
                        (λ new err. Commits-committed_with j new (some err)))
                      λ r kept.
                        Keeping-if j (Commits j) (both_up_to_date r.1) _ _
                          (Keeping-apply_subscription e s r.1.is_recent r.0 kept)
                          (Keeping-next j (Commits j) _ (Commits-committed_with j r.0 none kept)))
