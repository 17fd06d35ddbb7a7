-- ===== src/Service/Process/Previous/Facts.antt =====
-- The previous event: no collected event is lost.
use go_m_layer.Prelude.{
  refl, Bool, not, Option, none, some, List, [], ◌∷◌, is_empty, insert, str_has_eq,
  record_not_found, Outcome, ok, fail, panic, is_not_found,
}
use go_m_layer.External.{Bytes}
use go_m_layer.Entities.Ids.{EventPath}
use go_m_layer.Entities.Records.{Event}
use go_m_layer.DataStates.{DataStates, add_historic_state}
use go_m_layer.DataStates.Keep.{
  Keeps, Keeps-refl, Keeps-trans, Keeps-insert, add_historic_state-Keeps,
}
use go_m_layer.Service.Env.{Env, P2pResponse}
use go_m_layer.Service.Process.Logic.{
  Holds, Ends, Ends-refuse, Holds-if, Holds-next, Holds-stop, Holds-crash,
}
use go_m_layer.Service.Process.Previous.{
  add_historic_states, is_synced, event_from_p2p, fetched_previous, local_previous,
  previous_event_of,
}

add_historic_states-Keeps :
    (path : EventPath) (l : List Bytes) (ds : DataStates) → Keeps ds (add_historic_states path l ds)
unfolding add_historic_states
add_historic_states-Keeps path [] ds = Keeps-refl ds
add_historic_states-Keeps path (s ∷ more) ds =
    Keeps-trans ds (add_historic_state path.model path.id s ds) _
      (add_historic_state-Keeps path.model path.id s ds)
      (add_historic_states-Keeps path more (add_historic_state path.model path.id s ds))

abbrev KeepsStates : DataStates → DataStates × Option Event × Bool → Type 0
KeepsStates start r = Keeps start r.0

module _ (v : Env) (start ds : DataStates) (e : Event) (h : Keeps start ds) where
  fetched_previous-Keeps :
      (o : Outcome (Event × P2pResponse))
      → Holds (KeepsStates start) (Ends start) (fetched_previous v ds e o)
  unfolding fetched_previous
  fetched_previous-Keeps (ok (p, pl)) =
      let inserted = record ds { events = insert p.id p ds.events } in
      Holds-if (Ends start) (KeepsStates start) (is_synced p) _ _
        (λ _. Holds-next (Ends start) (KeepsStates start) _ (
          Keeps-trans start inserted _
            (Keeps-trans start ds inserted h (Keeps-insert ds inserted p.id p refl))
            (add_historic_states-Keeps e.previous_event pl.states inserted)))
        λ _. Holds-next (Ends start) (KeepsStates start) _ h
  fetched_previous-Keeps (fail err) = Holds-crash (Ends start) (KeepsStates start)
  fetched_previous-Keeps panic = Holds-crash (Ends start) (KeepsStates start)

  local_previous-Keeps :
      (o : Outcome Event) → Holds (KeepsStates start) (Ends start) (local_previous v ds e o)
  unfolding local_previous
  local_previous-Keeps (ok p) = Holds-next (Ends start) (KeepsStates start) _ h
  local_previous-Keeps (fail record_not_found) =
      fetched_previous-Keeps (event_from_p2p v e.previous_event none)
  local_previous-Keeps (fail err) =
      Holds-if (Ends start) (KeepsStates start) (is_not_found (some err)) _ _
        (λ _. fetched_previous-Keeps (event_from_p2p v e.previous_event none))
        λ _. Holds-stop (Ends start) (KeepsStates start) ds _ (Ends-refuse start ds _ _ _ _ h)
  local_previous-Keeps panic = Holds-crash (Ends start) (KeepsStates start)

  pub previous_event_of-Keeps : Holds (KeepsStates start) (Ends start) (previous_event_of v ds e)
  unfolding previous_event_of
  previous_event_of-Keeps =
      Holds-if (Ends start) (KeepsStates start) (not (is_empty e.previous_event.id)) _ _
        (λ _. local_previous-Keeps (v.event_by_id e.previous_event.id e.previous_event.model))
        λ _. Holds-next (Ends start) (KeepsStates start) _ h
