-- ===== src/Service/Process/Recency.antt =====
-- service.go, lines 462 to 564: an event that is more recent than the local state must follow the
-- event of that state, and must not rest on an authorization that was replaced.
pub mod Facts
use go_m_layer.Prelude.{
  Bool, true, false, not, ◌&&◌, ◌||◌, Option, none, some, Str, str, ◌++◌, str_eq, is_empty,
  if◌then◌else◌, Error, text, Outcome, ok, fail, panic, error_string, is_not_found,
}
use go_m_layer.External.{External}
use go_m_layer.Entities.Ids.{EventPath, auth_model}
use go_m_layer.Entities.Records.{Authorization, Event, zero_event}
use go_m_layer.Order.{int_of_uint64, is_more_recent_event}
use go_m_layer.DataStates.{DataStates, add_event}
use go_m_layer.Service.Env.{Env}
use go_m_layer.Service.Process.Phase.{
  Phase, next, stop, crash, ◌>>=◌, ◌>>◌, read, change, Verdict, refuse, LocalDataState,
  LocalDataStateEvent, PayloadData, failed_mark,
}
use go_m_layer.Service.Process.Auth.{AuthResult}

-- constants.ErrorBadRequest and constants.ErrorUnauthorized
abbrev pub bad_request_code : Error
bad_request_code = text (str "4000")

abbrev pub unauthorized_code : Error
unauthorized_code = text (str "4001")

-- Whether the event is more recent, and the error of one that skips the state's event.
unfoldable pub against_state_event :
    Event → Option Event → LocalDataStateEvent → Bool × Option Error
against_state_event e previous s =
    let recent =
      is_more_recent_event s.hash (int_of_uint64 s.timestamp) e.hash (int_of_uint64 e.timestamp) in
    elim previous [
      | none ↦ (recent, none)
      | some p ↦
          if recent
            && not (str_eq s.hash e.previous_event.id)
            && not (
                is_more_recent_event s.hash (int_of_uint64 s.timestamp) p.id
                  (int_of_uint64 p.timestamp))
          then (recent, some bad_request_code)
          else (recent, none)
    ]

-- The state's event is read as soon as the state has another event than the previous one.
unfoldable pub against_state_of :
    Event → Option Event → PayloadData → EventPath → Phase (Bool × Option Error)
unfolding against_state_event
against_state_of e previous data_ path =
    if str_eq path.id e.previous_event.id then next (true, none) else (do
      state_event ← read data_.local_data_state_event
      next (
          if is_empty state_event.id
          then (true, none)
          else against_state_event e previous state_event))

against_local :
    Event → Option Event → PayloadData → Option LocalDataState → Phase (Bool × Option Error)
unfolding against_state_of
against_local e previous data_ none = next (true, none)
against_local e previous data_ (some s) =
    if is_empty s.id
    then next (true, none)
    else (read s.event >>= λ path. against_state_of e previous data_ path)

-- The state's event is read as soon as the state has another event than the previous one.
unfoldable pub against_state : Event → Option Event → PayloadData → Phase (Bool × Option Error)
unfolding against_local
against_state e previous data_ = against_local e previous data_ data_.local_data_state

-- fmt.Errorf("db error: %s", badEvent)
abbrev pub refused_event : Authorization → Bool → Error → Verdict
refused_event a recent bad = record {
  previous_up_to_date = false;
  auth_up_to_date = false;
  auth_state = some a;
  is_recent = recent;
  error = some (text (str "db error: " ++ error_string bad));
}

module _ (v : Env) where
  checks_local_auth : Event → Bool → Authorization → AuthResult → Bool → Bool
  checks_local_auth e required current r recent =
      recent
      && required
      && not (is_empty current.id)
      && not (str_eq current.event.id e.auth_event.id)
      && (elim r.auth_event [ none ↦ false | some a ↦ true ])

  -- The local authorization must be less recent than its own event.
  against_event : Authorization → Option Error → Event → Phase (Option Error)
  against_event current bad local_event = if is_empty local_event.id then next bad else (do
    t ← read current.timestamp
    next (
        if is_more_recent_event current.id (int_of_uint64 t) local_event.id
          (int_of_uint64 local_event.timestamp)
        then bad
        else some unauthorized_code))

  local_auth_event :
      Authorization → Bool → AuthResult → Bool → Option Error → Outcome Event → Phase (Option Error)
  unfolding against_event
  local_auth_event current previous r recent bad (ok local_event) =
      against_event current bad local_event
  local_auth_event current previous r recent bad (fail err) =
      if is_not_found (some err)
      then next bad
      else stop r.states (record {
        previous_up_to_date = previous;
        auth_up_to_date = r.up_to_date;
        auth_state = some r.event_auth_state;
        is_recent = recent;
        error = some err;
      })
  local_auth_event current previous r recent bad panic = crash

  unfoldable pub against_local_auth :
      Event → Bool → Authorization → Bool → AuthResult → Bool → Option Error → Phase (Option Error)
  unfolding checks_local_auth local_auth_event
  against_local_auth e required current previous r recent bad =
      if checks_local_auth e required current r recent
      then local_auth_event current previous r recent bad
          (v.event_by_id current.event.id auth_model)
      else next bad

abbrev pub returned_verdict : Bool → AuthResult → Bool → Verdict
returned_verdict previous r recent = record {
  previous_up_to_date = previous;
  auth_up_to_date = r.up_to_date;
  auth_state = some r.event_auth_state;
  is_recent = recent;
  error = none;
}

module _ ⦃x : External⦄ (v : Env) where
  -- A bad event is marked as such under its id.
  refuse_bad : Bool → AuthResult → Str → Bool → Option Error → Phase (DataStates × Verdict)
  refuse_bad previous r id recent none = next (r.states, returned_verdict previous r recent)
  refuse_bad previous r id recent (some bad) = do
    marked ← change r.states (add_event (failed_mark id bad) r.states)
    stop marked (refused_event r.event_auth_state recent bad)

  unfoldable pub check_recency :
      Event
      → PayloadData
      → Bool
      → Authorization
      → Option Event
      → Bool
      → AuthResult
      → Phase (DataStates × Verdict)
  unfolding against_state against_local_auth refuse_bad
  check_recency e data_ required current previous_event previous r =
      if previous && r.up_to_date
      then (do
        (recent, bad) ← against_state e previous_event data_
        worse ← against_local_auth v e required current previous r recent bad
        refuse_bad previous r e.id recent worse)
      else next (r.states, returned_verdict previous r true)
