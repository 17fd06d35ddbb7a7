-- ===== src/Service/Handle/Dispatch/Facts.antt =====
-- Which events a node publishes.
use go_m_layer.Prelude.{
  Str, ◌≡◌, refl, sym, subst, arith, Bool, true, false, not, ◌&&◌, if◌then◌else◌, Option, none,
  some, Error, ok, ok_inj, >>=-ok,
}
use go_m_layer.External.{External}
use go_m_layer.Entities.Records.{Event, State, subnet_state}
use go_m_layer.Service.Env.{Env}
use go_m_layer.Service.Process.Checks.{is_local}
use go_m_layer.Service.Handle.Step.{Handled, Step, next}
use go_m_layer.Service.Handle.Subnet.{subnet_id}
use go_m_layer.Service.Handle.Dispatch.{
  handle_event, broadcasts, with_subnet, broadcasts_handled, no_error, handled_by_kind,
}

no_error-eq : (o : Option Error) → no_error o ≡ true → o ≡ none
unfolding no_error
no_error-eq none h = refl
no_error-eq (some e) h = cc

event_or : Event → Option Event → Event
event_or d none = d
event_or d (some e) = e

-- An event that differs in its subnet alone, as far as the publishing goes.
SameEvent : Event → Event → Type 0
SameEvent a b =
    (a.payload ≡ b.payload)
    × (a.signature ≡ b.signature)
    × (a.validator ≡ b.validator)
    × (a.broadcasted ≡ b.broadcasted)

module _ ⦃x : External⦄ (v : Env) (e : Event) where
  -- What is published of an event, with a handler's result.
  Published : Handled → Option Event → Type 0
  Published h none = Unit {0}
  Published h (some p) =
      (is_local v e ≡ true)
      × (e.broadcasted ≡ false)
      × (h.error ≡ none)
      × (p.broadcasted ≡ true)
      × (p.payload ≡ e.payload)
      × (p.signature ≡ e.signature)
      × (p.validator ≡ e.validator)

  Published-if :
      (h : Handled) (d : Event) (c : Bool)
      → SameEvent d e
      → (no_error h.error && not d.broadcasted && is_local v d) ≡ c
      → Published h (if c then some (record d { broadcasted = true }) else none)
  unfolding Published SameEvent is_local
  Published-if h d true (content, signed, by, mark) q = (
    rw (sym by) (ground arith),
    rw (sym mark) (ground arith),
    no_error-eq h.error (ground arith),
    refl,
    content,
    signed,
    by,
  )
  Published-if h d false same q = tt

  with_subnet-SameEvent : (s : Step Str) → SameEvent (with_subnet v e s) e
  unfolding with_subnet SameEvent
  with_subnet-SameEvent (next id) = (refl, refl, refl, refl)
  with_subnet-SameEvent _ = (refl, refl, refl, refl)

  broadcasts-Published :
      (h : Handled) (d : Event) → SameEvent d e → Published h (broadcasts v d h.error)
  unfolding broadcasts
  broadcasts-Published h d same = Published-if h d _ same refl

  broadcasts_handled-Published :
      (o : Option State) (h : Handled) → Published h (broadcasts_handled v e o h)
  unfolding broadcasts_handled Published SameEvent
  broadcasts_handled-Published none h = tt
  broadcasts_handled-Published (some (subnet_state s)) h =
      broadcasts-Published h (with_subnet v e (subnet_id v s))
        (with_subnet-SameEvent (subnet_id v s))
  broadcasts_handled-Published (some s) h = broadcasts-Published h e (refl, refl, refl, refl)

  handle_event-Published :
      (h : Handled) (o : Option Event) → handle_event v e ≡ ok (h, o) → Published h o
  unfolding handle_event
  handle_event-Published h o k =
      let (h', done, last) = >>=-ok (handled_by_kind v e e.payload.content) _ (h, o) k in
      subst (λ (r : Handled × Option Event). Published r.0 r.1) (ok_inj last)
        (broadcasts_handled-Published e.payload.content h')

module _ ⦃x : External⦄ where
  -- An event that is marked as broadcast is not published.
  Published-marked :
      (v : Env) (e : Event) (h : Handled) (o : Option Event)
      → e.broadcasted ≡ true
      → Published v e h o
      → o ≡ none
  unfolding Published
  Published-marked v e h none marked q = refl
  Published-marked v e h (some p) marked q = cc

  -- An event that a node publishes has the payload, the signature and the validator of the event that
  -- was handled, which the node made itself and whose handler returned no error; and no node that then
  -- handles the published event, this one included, publishes it again.
  pub handle_event-published :
      (v v' : Env) (e p : Event) (h h' : Handled) (o : Option Event)
      → handle_event v e ≡ ok (h, some p)
      → handle_event v' p ≡ ok (h', o)
      → (is_local v e ≡ true)
        × (h.error ≡ none)
        × (p.payload ≡ e.payload)
        × (p.signature ≡ e.signature)
        × (p.validator ≡ e.validator)
        × (o ≡ none)
  unfolding Published
  handle_event-published v v' e p h h' o k k' =
      let (here, fresh, fine, mark, content, signed, by) =
        handle_event-Published v e h (some p) k in
      (
        here,
        fine,
        content,
        signed,
        by,
        Published-marked v' p h' o mark (handle_event-Published v' p h' o k'),
      )
