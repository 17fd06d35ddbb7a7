-- ===== src/Service/Handle/Common.antt =====
-- What the handlers share: the marks on the event, the local state with its event, and the call of
-- ProcessEvent.
pub mod Keep
use go_m_layer.Prelude.{
  ℕ, Bool, true, false, ◌&&◌, Option, none, some, [], Str, is_empty, if◌then◌else◌, Error, Outcome,
  ok, fail, panic, is_not_found,
}
use go_m_layer.External.{External, Bytes}
use go_m_layer.Entities.Ids.{EntityModel, EventPath}
use go_m_layer.Entities.Records.{Event, State, zero_event, event_path, get_id}
use go_m_layer.DataStates.{DataStates, by_value, add_event, add_current_state, add_historic_state}
use go_m_layer.Entities.Wire.{state_hash}
use go_m_layer.Service.Env.{Env}
use go_m_layer.Service.Process.Phase.{
  Verdict, LocalDataState, LocalDataStateEvent, PayloadData, failed_mark,
}
use go_m_layer.Service.Process.Run.{process_event}
use go_m_layer.Service.Handle.Step.{Handled, Step, next, leave, crash, change, call, uncommitted}

abbrev pub valid_mark : Str → Event
valid_mark id = record zero_event { id = id; is_valid = some true; synced = some true }

-- id, _ = GetId(…)
id_or_empty : Outcome Str → Step Str
id_or_empty (ok id) = next id
id_or_empty (fail e) = next []
id_or_empty panic = crash

path_or_crash : Outcome (Option EventPath) → Step EventPath
path_or_crash (ok (some p)) = next p
path_or_crash _ = crash

unfoldable pub local_state : Str → EventPath → ℕ → Option LocalDataState
local_state id event timestamp =
    if is_empty id
    then none
    else some (record { hash = id; id = id; event = some event; timestamp = timestamp })

unfoldable pub local_event : Option Event → Option LocalDataStateEvent
local_event none = none
local_event (some e) = some (record { hash = e.hash; id = e.id; timestamp = e.timestamp })

-- A check that the handler makes unless the event is this node's.
unfoldable pub unless_local : {A : Type 0} → Bool → Outcome A → Outcome (Unit {0})
unless_local true checked = ok tt
unless_local false (ok a) = ok tt
unless_local false (fail e) = fail e
unless_local false panic = panic

abbrev pub both_up_to_date : Verdict → Bool
both_up_to_date verdict = verdict.previous_up_to_date && verdict.auth_up_to_date

-- The state becomes the current one where the event is more recent, else it goes to the history.
unfoldable pub store_state :
    Bool → EntityModel → Str → Str → State → Bytes → DataStates → Step DataStates
store_state recent model current_id historic_id state packed ds =
    if recent
    then change ds (add_current_state model current_id (by_value state) ds)
    else next (add_historic_state model historic_id packed ds)

or_none : Outcome (Option Event) → Step (Option Event)
or_none (ok e) = next e
or_none (fail err) = next none
or_none panic = crash

module _ (v : Env) where
  -- GetEventFromPath of the local state's event, none where there is no local state; with the errors
  -- that a handler may return.
  unfoldable pub state_event : Str → EventPath → Outcome (Option Event)
  state_event id path =
      if is_empty id
      then ok none
      else if is_empty path.id
      then ok none
      else elim (v.event_by_id path.id path.model) [
        | ok e ↦ ok (some e)
        | fail err ↦ if is_not_found (some err) then ok none else fail err
        | panic ↦ panic
      ]

  -- The handlers that only log the error go on without the event.
  unfoldable pub state_event_or_none : Str → EventPath → Step (Option Event)
  unfolding state_event or_none
  state_event_or_none id path = or_none (state_event id path)

module _ ⦃x : External⦄ where
  unfoldable pub path_of : Event → Step EventPath
  unfolding path_or_crash
  path_of e = path_or_crash (event_path e)

  -- The hash of a state, whose error the handler returns.
  unfoldable pub hashed : State → Step Bytes
  hashed s = call (state_hash s) uncommitted

  unfoldable pub id_of : Str → Str → Step Str
  unfolding id_or_empty
  id_of signature id = id_or_empty (get_id signature id)

  unless_error :
      (DataStates → Error → Handled)
      → DataStates
      → Verdict
      → Option Error
      → Step (DataStates × Verdict)
  unless_error h ds verdict none = next (ds, verdict)
  unless_error h ds verdict (some e) = leave (h ds e)

  after_processing :
      (DataStates → Error → Handled) → DataStates × Verdict → Step (DataStates × Verdict)
  unfolding unless_error
  after_processing h (ds, verdict) = unless_error h ds verdict verdict.error

  processing_result :
      (DataStates → Error → Handled) → Outcome (DataStates × Verdict) → Step (DataStates × Verdict)
  unfolding after_processing
  processing_result h (ok r) = after_processing h r
  processing_result h (fail err) = crash
  processing_result h panic = crash

  -- ProcessEvent, whose error the handler returns.
  unfoldable pub processed :
      Env
      → Event
      → PayloadData
      → Bool
      → DataStates
      → (DataStates → Error → Handled)
      → Step (DataStates × Verdict)
  unfolding processing_result
  processed v e data_ required ds h = processing_result h (process_event v e data_ required ds)

  then_or_crash : (DataStates → Step DataStates) → Outcome DataStates → Step DataStates
  then_or_crash k (ok new) = k new
  then_or_crash k (fail err) = crash
  then_or_crash k panic = crash

  -- The mark of the check's result, and what follows where it succeeds.
  unfoldable pub marked :
      Event → Outcome (Unit {0}) → (DataStates → Step DataStates) → DataStates → Step DataStates
  unfolding then_or_crash
  marked e (ok done) k ds = then_or_crash k (add_event (valid_mark e.id) ds)
  marked e (fail err) k ds = change ds (add_event (failed_mark e.id err) ds)
  marked e panic k ds = crash
