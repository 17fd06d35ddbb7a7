-- ===== src/DataStates/Keep.antt =====
-- No change of the collected states loses an event.
use go_m_layer.Prelude.{
  ok_inj, ap, ◌∙◌, str_eq_refl, ◌≡◌, refl, sym, Bool, true, false, Option, none, some, Str,
  is_empty, if◌then◌else◌, Outcome, ok, fail, panic, lookup, insert, lookup-insert, str_has_eq,
  StateKey, state_key_has_eq, Bool-cases, inl, inr,
}
use go_m_layer.External.{External, Bytes}
use go_m_layer.Entities.Ids.{EntityModel}
use go_m_layer.Entities.Records.{Event, event_id}
use go_m_layer.DataStates.{
  DataStates, Stored, new_data_states, found_event, is_nil, add_event, store_new_event, event_at,
  invalid_on_error, add_current_state, store_updated, place_state, state_key, update_stored,
  add_historic_state,
}

unfoldable pub Keeps : DataStates → DataStates → Type 0
Keeps a b = (j : Str) → is_nil (lookup j a.events) ≡ false → is_nil (lookup j b.events) ≡ false

pub Keeps-refl : (a : DataStates) → Keeps a a
unfolding Keeps
Keeps-refl a j h = h

pub Keeps-trans : (a b c : DataStates) → Keeps a b → Keeps b c → Keeps a c
unfolding Keeps
Keeps-trans a b c h k j p = k j (h j p)

kept :
    (c : Bool) (e : Event) (o : Option Event)
    → is_nil o ≡ false
    → is_nil (if c then some e else o) ≡ false
unfolding is_nil
kept true e o h = refl
kept false e o h = h

pub Keeps-insert :
    (a b : DataStates) (i : Str) (e : Event) → b.events ≡ insert i e a.events → Keeps a b
unfolding Keeps
Keeps-insert a b i e same j h =
    rw same (rw (lookup-insert i j e a.events) (kept (str_has_eq.same i j) e (lookup j a.events) h))

pub Keeps-same : (a b : DataStates) → b.events ≡ a.events → Keeps a b
unfolding Keeps
Keeps-same a b same j h = rw same h

module _ ⦃x : External⦄ where
  stored-Keeps :
      (ds new : DataStates) (e : Event) (o : Outcome Str)
      → store_new_event ds e o ≡ ok new
      → Keeps ds new
  unfolding store_new_event
  stored-Keeps ds new e (ok id) h = Keeps-insert ds new id e (ap (λ s. s.events) (sym (ok_inj h)))
  stored-Keeps ds new e (fail err) h = cc
  stored-Keeps ds new e panic h = cc

  pub add_event-Keeps : (e : Event) (ds new : DataStates) → add_event e ds ≡ ok new → Keeps ds new
  unfolding add_event
  add_event-Keeps e ds new h =
      elim (Bool-cases (is_empty (event_at (invalid_on_error e).id ds).id)) [
        | inl p ↦
            stored-Keeps ds new (invalid_on_error e) (event_id (invalid_on_error e)) (rw p at h)
        | inr p ↦
            Keeps-insert ds new _ _ (ap (λ (s : DataStates). s.events) (sym (ok_inj (rw p at h))))
      ]

updated-Keeps :
    (ds new : DataStates) (k : StateKey) (o : Outcome Stored)
    → store_updated ds k o ≡ ok new
    → Keeps ds new
unfolding store_updated
updated-Keeps ds new k (ok s) h =
    Keeps-same ds new (ap (λ (s : DataStates). s.events) (sym (ok_inj h)))
updated-Keeps ds new k (fail e) h = cc
updated-Keeps ds new k panic h = cc

placed-Keeps :
    (ds new : DataStates) (k : StateKey) (s : Stored) (old : Option Stored)
    → place_state ds k s old ≡ ok new
    → Keeps ds new
unfolding place_state
placed-Keeps ds new k s none h =
    Keeps-same ds new (ap (λ (d : DataStates). d.events) (sym (ok_inj h)))
placed-Keeps ds new k s (some old) h = updated-Keeps ds new k (update_stored s old) h

pub add_current_state-Keeps :
    (m : EntityModel) (id : Str) (s : Stored) (ds new : DataStates)
    → add_current_state m id s ds ≡ ok new
    → Keeps ds new
unfolding add_current_state
add_current_state-Keeps m id s ds new h =
    placed-Keeps ds new (state_key m id) s (lookup (state_key m id) ds.current_states) h

pub add_historic_state-Keeps :
    (m : EntityModel) (id : Str) (b : Bytes) (ds : DataStates)
    → Keeps ds (add_historic_state m id b ds)
unfolding add_historic_state
add_historic_state-Keeps m id b ds = Keeps-same ds _ refl

unfoldable pub Has : Str → DataStates → Type 0
Has j ds = is_nil (lookup j ds.events) ≡ false

pub Has-Keeps : (j : Str) (a b : DataStates) → Keeps a b → Has j a → Has j b
unfolding Has Keeps
Has-Keeps j a b k h = k j h

module _ ⦃x : External⦄ where
  event_id-invalid_on_error : (e : Event) → event_id (invalid_on_error e) ≡ event_id e
  unfolding invalid_on_error event_id
  event_id-invalid_on_error e = elim (Bool-cases (is_empty e.error)) [
    | inl p ↦ rw p refl
    | inr p ↦ rw p refl
  ]

  store_new_event-Has :
      (ds : DataStates) (e : Event) (j : Str) (o : Outcome Str)
      → o ≡ ok j
      → (new : DataStates) × (store_new_event ds e o ≡ ok new) × Has j new
  unfolding store_new_event Has is_nil
  store_new_event-Has ds e j (ok i) h =
      (_, refl, rw (ok_inj h, lookup-insert j j e ds.events, str_eq_refl j) refl)
  store_new_event-Has ds e j (fail err) h = cc
  store_new_event-Has ds e j panic h = cc

  -- The first event of an empty collection is collected under its id.
  pub add_event-first :
      (e : Event) (j : Str)
      → event_id e ≡ ok j
      → (new : DataStates) × (add_event e new_data_states ≡ ok new) × Has j new
  unfolding add_event event_at lookup found_event is_empty
  add_event-first e j h =
      store_new_event-Has new_data_states (invalid_on_error e) j (event_id (invalid_on_error e))
        (event_id-invalid_on_error e ∙ h)
