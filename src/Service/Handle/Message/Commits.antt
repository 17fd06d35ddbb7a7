-- ===== src/Service/Handle/Message/Commits.antt =====
-- What the handler of messages commits.
use go_m_layer.Prelude.{◌≡◌, true, Option, none, some, [], Str, if◌then◌else◌, ok}
use go_m_layer.External.{External}
use go_m_layer.Entities.Ids.{message_model}
use go_m_layer.Entities.Records.{Message, State, message_state, Event, event_id}
use go_m_layer.DataStates.{DataStates, by_value, add_current_state}
use go_m_layer.DataStates.Keep.{Has, add_current_state-Keeps}
use go_m_layer.Service.Env.{Env}
use go_m_layer.Service.Sync.{sync_topic}
use go_m_layer.Service.Process.Checks.{is_local}
use go_m_layer.Service.Handle.Step.{Handled, uncommitted}
use go_m_layer.Service.Handle.Common.{both_up_to_date}
use go_m_layer.Service.Handle.Common.Keep.{
  Commits, Keeping, Any, Commits-uncommitted, Commits-committed_with, Keeping->>=, Keeping-if,
  Keeping-next, Keeping-call, Keeping-change, Keeping-finish, Keeping-first, Keeping-path_of,
  Keeping-hashed, Keeping-id_of, Keeping-marked, Keeping-processed,
}
use go_m_layer.Service.Handle.Message.{
  content_of, content_message, filled_message, apply_message, handle_message,
}

module _ (j : Str) where
  Keeping-content_of : (o : Option State) → Keeping j Any (content_of o)
  unfolding content_of Keeping
  Keeping-content_of (some (message_state s)) = tt
  Keeping-content_of _ = tt

  Keeping-content_message : (e : Event) → Keeping j Any (content_message e)
  unfolding content_message
  Keeping-content_message e = Keeping-content_of e.payload.content

module _ ⦃x : External⦄ (v : Env) (j : Str) where
  Keeping-filled_message : (e : Event) (m : Message) → Keeping j Any (filled_message v e m)
  unfolding filled_message
  Keeping-filled_message e m = Keeping->>= j Any Any _ _ (Keeping-path_of j e) λ path _.
      Keeping->>= j Any Any _ _ (Keeping-id_of j e.signature m.id)
        λ id _. Keeping->>= j Any Any _ _ (Keeping-hashed j _) λ hash _. Keeping-next j Any _ tt

  Keeping-apply_message :
      (e : Event) (m : Message) (id : Str) (ds : DataStates)
      → Has j ds
      → Keeping j (Commits j) (apply_message v e m id ds)
  unfolding apply_message
  Keeping-apply_message e m id ds h =
      Keeping->>= j Any (Commits j) _ _
        (Keeping-call j (sync_topic v m.topic (if is_local v e then [] else e.validator))
          uncommitted (Commits-uncommitted j))
        λ topic _.
          Keeping->>= j (Has j) (Commits j) _ _
            (Keeping-marked j e _ _ ds h (λ new has.
              Keeping-change j new
                (add_current_state message_model id (by_value (message_state m)) new) has
                (λ later.
                  add_current_state-Keeps message_model id (by_value (message_state m)) new later)))
            λ stored has. Keeping-next j (Commits j) _ (Commits-committed_with j stored none has)

  -- What the handler of messages commits holds the event under its id.
  pub Commits-handle_message :
      (e : Event) (h : Handled) → event_id e ≡ ok j → handle_message v e ≡ ok h → Commits j h
  unfolding handle_message
  Commits-handle_message e h named = Keeping-finish j _ h (
      Keeping->>= j (Has j) (Commits j) _ _ (Keeping-first j e named) λ ds has.
        Keeping->>= j Any (Commits j) _ _ (Keeping-content_message j e) λ sent _.
          Keeping->>= j Any (Commits j) _ _ (Keeping-filled_message e sent) λ p _.
            Keeping->>= j (λ r. Has j r.0) (Commits j) _ _
              (Keeping-processed j v e _ true ds _ has (λ new err kept. Commits-uncommitted j err))
              λ r kept.
                Keeping-if j (Commits j) (both_up_to_date r.1) _ _
                  (Keeping-apply_message e p.0 p.1 r.0 kept)
                  (Keeping-next j (Commits j) _ (Commits-committed_with j r.0 none kept)))
