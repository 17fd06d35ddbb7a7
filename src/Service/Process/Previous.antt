-- ===== src/Service/Process/Previous.antt =====
-- service.go, lines 269 to 335: the event that the event names as the one before it.
pub mod Facts
use go_m_layer.Prelude.{
  Bool, true, false, not, ◌&&◌, ◌||◌, Option, none, some, List, [], ◌∷◌, ◌++◌, Str, str, str_eq,
  is_empty, str_has_eq, if◌then◌else◌, insert, Error, record_not_found, text, Outcome, ok, fail,
  panic, error_string, is_not_found,
}
use go_m_layer.External.{Bytes}
use go_m_layer.Entities.Ids.{EntityModel, EventPath}
use go_m_layer.Entities.Records.{Event}
use go_m_layer.DataStates.{DataStates, add_historic_state}
use go_m_layer.Service.Env.{Env, P2pResponse}
use go_m_layer.Service.Process.Phase.{Phase, next, stop, crash, ◌>>=◌, ◌>>◌, Verdict, refuse}

abbrev pub is_synced : Event → Bool
is_synced e = elim e.synced [ none ↦ false | some b ↦ b ]

unfoldable pub add_historic_states : EventPath → List Bytes → DataStates → DataStates
add_historic_states path [] ds = ds
add_historic_states path (s ∷ more) ds =
    add_historic_states path more (add_historic_state path.model path.id s ds)

module _ (v : Env) where
  -- getEventFromP2p: another validator than the event's is asked first, then the event's own.
  unfoldable pub event_from_p2p : EventPath → Option Str → Outcome (Event × P2pResponse)
  event_from_p2p path validator = elim (v.p2p_event path validator) [
    | ok r ↦ ok r
    | fail e ↦ (elim validator [
      | none ↦ fail e
      | some asked ↦ if not (str_eq path.validator asked) then v.p2p_event path none else fail e
    ])
    | panic ↦ panic
  ]

  -- A synced event from a peer is put among the events as it is, with its states. An error of the
  -- request is dropped, and the nil event read.
  fetched_previous :
      DataStates → Event → Outcome (Event × P2pResponse) → Phase (DataStates × Option Event × Bool)
  unfolding add_historic_states
  fetched_previous ds e (ok (previous, pl)) =
      if is_synced previous
      then next (
        add_historic_states e.previous_event pl.states
            (record ds { events = insert previous.id previous ds.events }),
        none,
        true,
      )
      else next (ds, none, false)
  fetched_previous ds e (fail err) = crash
  fetched_previous ds e panic = crash

  local_previous : DataStates → Event → Outcome Event → Phase (DataStates × Option Event × Bool)
  unfolding fetched_previous event_from_p2p
  local_previous ds e (ok previous) = next (ds, some previous, true)
  local_previous ds e (fail record_not_found) =
      fetched_previous ds e (event_from_p2p e.previous_event none)
  local_previous ds e (fail err) =
      if is_not_found (some err)
      then fetched_previous ds e (event_from_p2p e.previous_event none)
      else stop ds (refuse false false true (text (str "db err: " ++ error_string err)))
  local_previous ds e panic = crash

  -- The collected states, the previous event where it is stored here, and whether it is up to date.
  unfoldable pub previous_event_of : DataStates → Event → Phase (DataStates × Option Event × Bool)
  unfolding local_previous
  previous_event_of ds e =
      if not (is_empty e.previous_event.id)
      then local_previous ds e (v.event_by_id e.previous_event.id e.previous_event.model)
      else next (ds, none, true)
