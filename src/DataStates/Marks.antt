-- ===== src/DataStates/Marks.antt =====
-- The marks that the handlers put on an event that they have collected.
use go_m_layer.Prelude.{
  ◌≡◌, refl, ap, ◌∙◌, Bool, true, false, some, [], ◌∷◌, Str, is_empty, Error, error_string, ok,
  lookup, insert, lookup-insert, str_has_eq, if◌then◌else◌, str_eq_refl,
}
use go_m_layer.External.{External}
use go_m_layer.Entities.Records.{Event}
use go_m_layer.DataStates.{
  DataStates, add_event, event_at, update_event_struct, invalid_on_error, found_event, is_zero_list,
  is_nil, is_zero_int, is_zero_path, is_zero_payload,
}
use go_m_layer.Service.Process.Phase.{failed_mark}

event_at-insert :
    (ds : DataStates) (id : Str) (e : Event)
    → event_at id (record ds { events = insert id e ds.events }) ≡ e
unfolding event_at found_event
event_at-insert ds id e = ap found_event (
    lookup-insert id id e ds.events
    ∙ ap (λ (b : Bool). if b then some e else lookup id ds.events) (str_eq_refl id))

zero_is_empty : (s : Str) → is_zero_list s ≡ is_empty s
unfolding is_zero_list is_empty
zero_is_empty [] = refl
zero_is_empty (c ∷ rest) = refl

said_invalid :
    (id : Str) (err : Error)
    → is_empty (error_string err) ≡ false
    → invalid_on_error (failed_mark id err) ≡ failed_mark id err
unfolding invalid_on_error
said_invalid id err said = rw said refl

module _ ⦃x : External⦄ where
  -- A mark on an event that is collected is merged into it.
  add_event-collected :
      (ds : DataStates) (m : Event)
      → invalid_on_error m ≡ m
      → is_empty (event_at m.id ds).id ≡ false
      → add_event m ds
        ≡ ok (record ds {
          events = insert m.id (update_event_struct m (event_at m.id ds)) ds.events;
        })
  unfolding add_event
  add_event-collected ds m same stored = rw (same, stored) refl

  merged_mark :
      (old : Event) (id : Str) (err : Error)
      → is_zero_list id ≡ false
      → is_zero_list (error_string err) ≡ false
      → update_event_struct (failed_mark id err) old ≡ record old {
        id = id;
        error = error_string err;
        is_valid = some false;
        synced = some true;
      }
  unfolding update_event_struct is_nil is_zero_int is_zero_path is_zero_payload
  merged_mark old id err named said = rw (named, said) refl

  -- Marking the event that is collected under a non-empty id with an error of a non-empty text makes it
  -- invalid and synced, with that text and that id, and leaves its other fields as they were.
  pub add_event-failed_mark :
      (ds : DataStates) (id : Str) (err : Error)
      → is_empty (event_at id ds).id ≡ false
      → is_empty id ≡ false
      → is_empty (error_string err) ≡ false
      → (new : DataStates) × (add_event (failed_mark id err) ds ≡ ok new)
        × (event_at id new ≡ record (event_at id ds) {
          id = id;
          error = error_string err;
          is_valid = some false;
          synced = some true;
        })
  add_event-failed_mark ds id err stored named said = (
    record ds {
      events = insert id (update_event_struct (failed_mark id err) (event_at id ds)) ds.events;
    },
    add_event-collected ds (failed_mark id err) (said_invalid id err said) stored,
    event_at-insert ds id (update_event_struct (failed_mark id err) (event_at id ds))
        ∙ merged_mark (event_at id ds) id err (zero_is_empty id ∙ named)
            (zero_is_empty (error_string err) ∙ said),
  )
