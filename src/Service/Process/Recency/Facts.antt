-- ===== src/Service/Process/Recency/Facts.antt =====
-- The last phase loses no event either, and accepts only with an authorization that is up to date.
use go_m_layer.Prelude.{
  ◌≡◌, refl, arith, Bool, true, ◌&&◌, Option, none, some, Str, str_eq, is_empty, str_has_eq, Error,
  Outcome, ok, fail, panic, is_not_found,
}
use go_m_layer.External.{External}
use go_m_layer.Entities.Ids.{auth_model, EventPath}
use go_m_layer.Entities.Records.{Authorization, Event}
use go_m_layer.DataStates.{DataStates, add_event}
use go_m_layer.DataStates.Keep.{Keeps, Keeps-trans, add_event-Keeps}
use go_m_layer.Service.Env.{Env}
use go_m_layer.Service.Process.Phase.{Verdict, accepts, PayloadData, LocalDataState, failed_mark}
use go_m_layer.Service.Process.Logic.{
  Holds, Holds->>=, Holds-read, Holds-change, Ends, Ends-error, Holds-if, Holds-next, Holds-stop,
  Holds-crash,
}
use go_m_layer.Service.Process.Auth.{AuthResult}
use go_m_layer.Service.Process.Recency.{
  against_state_of, against_local, against_state, refused_event, checks_local_auth, against_event,
  local_auth_event, against_local_auth, returned_verdict, refuse_bad, check_recency,
}

module _ (start : DataStates) (e : Event) (previous : Option Event) (data_ : PayloadData) where
  abbrev AnyResult : Bool × Option Error → Type 0
  AnyResult r = Unit {0}

  against_state_of-Holds :
      (path : EventPath) → Holds AnyResult (Ends start) (against_state_of e previous data_ path)
  unfolding against_state_of
  against_state_of-Holds path =
      Holds-if (Ends start) AnyResult (str_eq path.id e.previous_event.id) _ _
        (λ _. Holds-next (Ends start) AnyResult _ tt)
        λ _.
          Holds-read (Ends start) AnyResult data_.local_data_state_event _
            λ s _. Holds-next (Ends start) AnyResult _ tt

  against_local-Holds :
      (s : Option LocalDataState) → Holds AnyResult (Ends start) (against_local e previous data_ s)
  unfolding against_local
  against_local-Holds none = Holds-next (Ends start) AnyResult _ tt
  against_local-Holds (some s) =
      Holds-if (Ends start) AnyResult (is_empty s.id) _ _
        (λ _. Holds-next (Ends start) AnyResult _ tt)
        λ _. Holds-read (Ends start) AnyResult s.event _ λ path _. against_state_of-Holds path

  against_state-Holds : Holds AnyResult (Ends start) (against_state e previous data_)
  unfolding against_state
  against_state-Holds = against_local-Holds data_.local_data_state

module _ (v : Env) (start : DataStates) (current : Authorization) (previous : Bool) (r : AuthResult)
    (recent : Bool) (bad : Option Error) (h : Keeps start r.states) where
  abbrev AnyError : Option Error → Type 0
  AnyError b = Unit {0}

  against_event-Holds : (l : Event) → Holds AnyError (Ends start) (against_event v current bad l)
  unfolding against_event
  against_event-Holds l =
      Holds-if (Ends start) AnyError (is_empty l.id) _ _
        (λ _. Holds-next (Ends start) AnyError bad tt)
        λ _.
          Holds-read (Ends start) AnyError current.timestamp _
            λ t _. Holds-next (Ends start) AnyError _ tt

  local_auth_event-Holds :
      (o : Outcome Event)
      → Holds AnyError (Ends start) (local_auth_event v current previous r recent bad o)
  unfolding local_auth_event
  local_auth_event-Holds (ok l) = against_event-Holds l
  local_auth_event-Holds (fail err) =
      Holds-if (Ends start) AnyError (is_not_found (some err)) _ _
        (λ _. Holds-next (Ends start) AnyError bad tt)
        λ _. Holds-stop (Ends start) AnyError r.states _ (Ends-error start r.states _ err refl h)
  local_auth_event-Holds panic = Holds-crash (Ends start) AnyError

  against_local_auth-Holds :
      (e : Event) (required : Bool)
      → Holds AnyError (Ends start) (against_local_auth v e required current previous r recent bad)
  unfolding against_local_auth
  against_local_auth-Holds e required =
      Holds-if (Ends start) AnyError (checks_local_auth v e required current r recent) _ _
        (λ _. local_auth_event-Holds (v.event_by_id current.event.id auth_model))
        λ _. Holds-next (Ends start) AnyError bad tt

-- No event is lost, and an accepted result has an authorization that is up to date.
unfoldable pub Settled : DataStates → AuthResult → DataStates × Verdict → Type 0
Settled start r d = Keeps start d.0 × (accepts d.1 ≡ true → r.up_to_date ≡ true)

module _ ⦃x : External⦄ (v : Env) (start : DataStates) (previous : Bool) (r : AuthResult)
    (h : Keeps start r.states) where
  returned_verdict-Settled :
      (recent : Bool) → Settled start r (r.states, returned_verdict previous r recent)
  unfolding Settled accepts
  returned_verdict-Settled recent = (h, λ q. ground arith)

  refuse_bad-Holds :
      (id : Str) (recent : Bool) (bad : Option Error)
      → Holds (Settled start r) (Ends start) (refuse_bad v previous r id recent bad)
  unfolding refuse_bad
  refuse_bad-Holds id recent none =
      Holds-next (Ends start) (Settled start r) _ (returned_verdict-Settled recent)
  refuse_bad-Holds id recent (some bad) =
      Holds->>= (Ends start) (Keeps start) (Settled start r) _ _
        (Holds-change (Ends start) (Keeps start) r.states (add_event (failed_mark id bad) r.states)
          h
          λ new q.
            Keeps-trans start r.states new h (add_event-Keeps (failed_mark id bad) r.states new q))
        λ marked k.
          Holds-stop (Ends start) (Settled start r) marked _
            (Ends-error start marked (refused_event r.event_auth_state recent bad) _ refl k)

  pub check_recency-Holds :
      (e : Event) (data_ : PayloadData) (required : Bool) (current : Authorization)
      (previous_event : Option Event)
      → Holds
          (Settled start r)
          (Ends start)
          (check_recency v e data_ required current previous_event previous r)
  unfolding check_recency
  check_recency-Holds e data_ required current previous_event =
      Holds-if (Ends start) (Settled start r) (previous && r.up_to_date) _ _
        (λ _.
          Holds->>= (Ends start) (λ _. Unit {0}) (Settled start r) _ _
            (against_state-Holds start e previous_event data_)
            λ found _.
              Holds->>= (Ends start) (λ _. Unit {0}) (Settled start r) _ _
                (against_local_auth-Holds v start current previous r found.0 found.1 h e required)
                λ worse _. refuse_bad-Holds e.id found.0 worse)
        λ _. Holds-next (Ends start) (Settled start r) _ (returned_verdict-Settled true)
