-- ===== src/Service/Handle/Auth/Commits.antt =====
-- What the handler of authorizations commits.
use go_m_layer.Prelude.{
  ◌≡◌, Bool, false, Option, none, some, List, [], ◌∷◌, Str, is_empty, Outcome, ok, fail, panic,
}
use go_m_layer.External.{External}
use go_m_layer.Entities.Ids.{auth_model}
use go_m_layer.Entities.Records.{Authorization, State, authorization_state, Event, event_id}
use go_m_layer.Entities.Keys.{data_key}
use go_m_layer.DataStates.{DataStates, add_event}
use go_m_layer.DataStates.Keep.{Has, add_event-Keeps}
use go_m_layer.Service.Env.{Env}
use go_m_layer.Service.Process.Phase.{failed_mark}
use go_m_layer.Service.Handle.Step.{Handled, uncommitted}
use go_m_layer.Service.Handle.Common.{both_up_to_date}
use go_m_layer.Service.Handle.Common.Keep.{
  Commits, Keeping, Any, Commits-uncommitted, Commits-committed_with, Keeping->>=, Keeping-if,
  Keeping-next, Keeping-crash, Keeping-call, Keeping-read, Keeping-change, Keeping-finish,
  Keeping-first, Keeping-path_of, Keeping-hashed, Keeping-store_state, Keeping-marked,
  Keeping-processed, Keeping-state_event_or_none,
}
use go_m_layer.Service.Handle.Auth.{
  content_of, content_authorization, first_found, first_authorization, local_authorization,
  filled_authorization, apply_authorization, handle_auth,
}

module _ (j : Str) where
  Keeping-content_of : (o : Option State) → Keeping j Any (content_of o)
  unfolding content_of Keeping
  Keeping-content_of (some (authorization_state s)) = tt
  Keeping-content_of _ = tt

  Keeping-content_authorization : (e : Event) → Keeping j Any (content_authorization e)
  unfolding content_authorization
  Keeping-content_authorization e = Keeping-content_of e.payload.content

  Keeping-first_found : (o : Outcome (List Authorization)) → Keeping j Any (first_found o)
  unfolding first_found Keeping
  Keeping-first_found (ok []) = tt
  Keeping-first_found (ok (a ∷ more)) = tt
  Keeping-first_found (fail e) = tt
  Keeping-first_found panic = tt

  Keeping-local_authorization : (a : Authorization) → Keeping j Any (local_authorization a)
  unfolding local_authorization
  Keeping-local_authorization a =
      Keeping-if j Any (is_empty a.id) _ _ (Keeping-next j Any none tt)
        (Keeping->>= j Any Any _ _ (Keeping-read j a.timestamp) λ t _. Keeping-next j Any _ tt)

module _ ⦃x : External⦄ (v : Env) (j : Str) where
  Keeping-first_authorization : (s : Authorization) → Keeping j Any (first_authorization v s)
  unfolding first_authorization
  Keeping-first_authorization s = Keeping-first_found j _

  Keeping-filled_authorization :
      (e : Event) (s : Authorization) → Keeping j Any (filled_authorization v e s)
  unfolding filled_authorization
  Keeping-filled_authorization e s =
      Keeping->>= j Any Any _ _ (Keeping-path_of j e)
        λ path _. Keeping->>= j Any Any _ _ (Keeping-hashed j _) λ hash _. Keeping-next j Any _ tt

  Keeping-apply_authorization :
      (e : Event) (a : Authorization) (b : Bool) (ds : DataStates) (o : Outcome (Unit {0}))
      → Has j ds
      → Keeping j (Commits j) (apply_authorization v e a b ds o)
  unfolding apply_authorization Commits
  Keeping-apply_authorization e a b ds (ok done) h =
      Keeping->>= j (Has j) (Commits j) _ _
        (Keeping-marked j e _ _ ds h (λ new has.
          Keeping-store_state j b auth_model (data_key auth_model a.event) _ _ _ new has))
        λ new has. Keeping-next j (Commits j) _ (Commits-committed_with j new none has)
  Keeping-apply_authorization e a b ds (fail err) h =
      Keeping->>= j (Has j) (Commits j) _ _
        (Keeping-change j ds (add_event (failed_mark e.id err) ds) h
          (λ new. add_event-Keeps (failed_mark e.id err) ds new))
        λ new has. Keeping-next j (Commits j) _ (λ d same. cc)
  Keeping-apply_authorization e a b ds panic h = Keeping-crash j (Commits j)

  -- What the handler of authorizations commits holds the event under its id.
  pub Commits-handle_auth :
      (e : Event) (h : Handled) → event_id e ≡ ok j → handle_auth v e ≡ ok h → Commits j h
  unfolding handle_auth
  Commits-handle_auth e h named = Keeping-finish j _ h (
      Keeping->>= j (Has j) (Commits j) _ _ (Keeping-first j e named) λ ds has.
        Keeping->>= j Any (Commits j) _ _ (Keeping-content_authorization j e) λ sent _.
          Keeping->>= j Any (Commits j) _ _ (Keeping-filled_authorization e sent) λ a _.
            Keeping->>= j Any (Commits j) _ _ (Keeping-first_authorization a) λ local _.
              Keeping->>= j Any (Commits j) _ _ (Keeping-local_authorization j local)
                λ local_data _.
                  Keeping->>= j Any (Commits j) _ _
                    (Keeping-state_event_or_none j v local.id local.event)
                    λ local_ev _.
                      Keeping->>= j (λ r. Has j r.0) (Commits j) _ _
                        (Keeping-processed j v e _ false ds _ has
                          (λ new err kept. Commits-uncommitted j err))
                        λ r kept.
                          Keeping-if j (Commits j) (both_up_to_date r.1) _ _
                            (Keeping->>= j Any (Commits j) _ _
                              (Keeping-call j (v.increment_counters e.cycle e.validator e.subnet)
                                uncommitted (Commits-uncommitted j))
                              λ counted _. Keeping-apply_authorization e a r.1.is_recent r.0 _ kept)
                            (Keeping-next j (Commits j) _ (Commits-committed_with j r.0 none kept)))
