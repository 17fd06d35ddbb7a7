-- ===== src/Service/Handle/Subnet/Commits.antt =====
-- What the handler of subnets commits.
use go_m_layer.Prelude.{◌≡◌, false, Option, none, some, Str, Outcome, ok, fail, panic, is_not_found}
use go_m_layer.External.{External}
use go_m_layer.Entities.Ids.{subnet_model}
use go_m_layer.Entities.Records.{Subnet, State, subnet_state, Event, event_id, subnet_signature}
use go_m_layer.DataStates.{DataStates}
use go_m_layer.DataStates.Keep.{Has}
use go_m_layer.Service.Env.{Env}
use go_m_layer.Service.Handle.Step.{Handled, uncommitted}
use go_m_layer.Service.Handle.Common.Keep.{
  Commits, Keeping, Any, Commits-uncommitted, Commits-committed_with, Keeping->>=, Keeping-if,
  Keeping-next, Keeping-leave, Keeping-crash, Keeping-call, Keeping-finish, Keeping-first,
  Keeping-path_of, Keeping-hashed, Keeping-id_of, Keeping-store_state, Keeping-marked,
  Keeping-processed, Keeping-state_event_or_none,
}
use go_m_layer.Service.Handle.Subnet.{
  content_of, content_subnet, local_subnet, filled_subnet, subnet_id, event_of_local, handle_subnet,
}

module _ (j : Str) where
  Keeping-content_of : (o : Option State) → Keeping j Any (content_of o)
  unfolding content_of Keeping
  Keeping-content_of (some (subnet_state s)) = tt
  Keeping-content_of _ = tt

  Keeping-content_subnet : (e : Event) → Keeping j Any (content_subnet e)
  unfolding content_subnet
  Keeping-content_subnet e = Keeping-content_of e.payload.content

  Keeping-local_subnet :
      (ds : DataStates) (o : Outcome Subnet) → Has j ds → Keeping j Any (local_subnet ds o)
  unfolding local_subnet
  Keeping-local_subnet ds (ok s) h = Keeping-next j Any (some s) tt
  Keeping-local_subnet ds (fail err) h =
      Keeping-if j Any (is_not_found (some err)) _ _ (Keeping-next j Any none tt)
        (Keeping-leave j Any _ (Commits-committed_with j ds (some err) h))
  Keeping-local_subnet ds panic h = Keeping-crash j Any

module _ ⦃x : External⦄ (v : Env) (j : Str) where
  Keeping-filled_subnet : (e : Event) (s : Subnet) → Keeping j Any (filled_subnet v e s)
  unfolding filled_subnet
  Keeping-filled_subnet e s =
      Keeping->>= j Any Any _ _ (Keeping-path_of j e)
        λ path _. Keeping->>= j Any Any _ _ (Keeping-hashed j _) λ hash _. Keeping-next j Any _ tt

  Keeping-subnet_id : (s : Subnet) → Keeping j Any (subnet_id v s)
  unfolding subnet_id
  Keeping-subnet_id s =
      Keeping->>= j Any Any _ _
        (Keeping-call j (subnet_signature s.signature_data) uncommitted (Commits-uncommitted j))
        λ signature _. Keeping-id_of j signature s.id

  Keeping-event_of_local : (o : Option Subnet) → Keeping j Any (event_of_local v o)
  unfolding event_of_local
  Keeping-event_of_local none = Keeping-next j Any none tt
  Keeping-event_of_local (some s) = Keeping-state_event_or_none j v s.id s.event

  -- What the handler of subnets commits holds the event under its id.
  pub Commits-handle_subnet :
      (e : Event) (h : Handled) → event_id e ≡ ok j → handle_subnet v e ≡ ok h → Commits j h
  unfolding handle_subnet
  Commits-handle_subnet e h named = Keeping-finish j _ h (
      Keeping->>= j (Has j) (Commits j) _ _ (Keeping-first j e named) λ ds has.
        Keeping->>= j Any (Commits j) _ _ (Keeping-content_subnet j e) λ sent _.
          Keeping->>= j Any (Commits j) _ _ (Keeping-filled_subnet e sent) λ s _.
            Keeping->>= j Any (Commits j) _ _ (Keeping-subnet_id s) λ id _.
              Keeping->>= j Any (Commits j) _ _ (Keeping-local_subnet j ds (v.subnet_by_id id) has)
                λ local _.
                  Keeping->>= j Any (Commits j) _ _ (Keeping-event_of_local local) λ local_ev _.
                    Keeping->>= j (λ r. Has j r.0) (Commits j) _ _
                      (Keeping-processed j v e _ false ds _ has
                        (λ new err. Commits-committed_with j new (some err)))
                      λ r kept.
                        Keeping-if j (Commits j) r.1.previous_up_to_date _ _
                          (Keeping->>= j (Has j) (Commits j) _ _
                            (Keeping-marked j e _ _ r.0 kept (λ new has_new.
                              Keeping-store_state j r.1.is_recent subnet_model id s.id _ _ new
                                has_new))
                            λ stored has_stored.
                              Keeping-next j (Commits j) _
                                (Commits-committed_with j stored none has_stored))
                          (Keeping-next j (Commits j) _ (Commits-committed_with j r.0 none kept)))
