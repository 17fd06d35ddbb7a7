-- ===== src/Service/Handle/Common/Keep.antt =====
-- Where a handler commits, it commits the event: what its steps do to an event that is collected.
use go_m_layer.Prelude.{
  ◌≡◌, refl, ap, Bool, true, false, Option, none, some, Str, if◌then◌else◌, Error, Outcome, ok,
  fail, panic, ok_inj, subst,
}
use go_m_layer.External.{External, Bytes}
use go_m_layer.Entities.Ids.{EntityModel, EventPath}
use go_m_layer.Entities.Records.{Event, State, event_id, event_path, get_id}
use go_m_layer.DataStates.{DataStates, new_data_states, add_event, by_value}
use go_m_layer.DataStates.Keep.{
  Has, Keeps, Has-Keeps, add_event-first, add_event-Keeps, add_current_state-Keeps,
  add_historic_state-Keeps,
}
use go_m_layer.Entities.Wire.{state_hash}
use go_m_layer.Service.Env.{Env}
use go_m_layer.Service.Process.Phase.{Verdict, PayloadData, failed_mark}
use go_m_layer.Service.Process.Run.{process_event}
use go_m_layer.Service.Process.Facts.{process_event-Keeps}
use go_m_layer.Service.Handle.Step.{
  Handled, Step, next, leave, crash, ◌>>=◌, uncommitted, committed_with, call, read, change, finish,
}
use go_m_layer.Service.Handle.Common.{
  valid_mark, path_or_crash, id_or_empty, path_of, hashed, id_of, state_event, or_none,
  state_event_or_none, processed, after_processing, unless_error, processing_result, then_or_crash,
  marked, store_state,
}

some_inj : {a b : DataStates} → some a ≡ some b → a ≡ b
some_inj {a} e = ap (λ (o : Option DataStates). elim o [ none ↦ a | some d ↦ d ]) e

-- What a handler commits holds an event under this id.
unfoldable pub Commits : Str → Handled → Type 0
Commits j h = (ds : DataStates) → h.committed ≡ some ds → Has j ds

-- A step that goes on ensures this of its result; one that leaves commits the event, if anything.
unfoldable pub Keeping : {A : Type 0} → Str → (A → Type 0) → Step A → Type 0
unfolding Commits
Keeping j P (next a) = P a
Keeping j P (leave h) = Commits j h
Keeping j P crash = Unit {0}

abbrev pub Any : {A : Type 0} → A → Type 0
Any a = Unit {0}

module _ (j : Str) where
  pub Commits-uncommitted : (e : Error) → Commits j (uncommitted e)
  unfolding Commits
  Commits-uncommitted e ds h = cc

  pub Commits-committed_with :
      (ds : DataStates) (e : Option Error) → Has j ds → Commits j (committed_with ds e)
  unfolding Commits
  Commits-committed_with ds e has other h = subst (Has j) (some_inj h) has

  pub Keeping->>= :
      {A B : Type 0} (P : A → Type 0) (Q : B → Type 0) (m : Step A) (f : A → Step B)
      → Keeping j P m
      → ((a : A) → P a → Keeping j Q (f a))
      → Keeping j Q (m >>= f)
  unfolding Keeping
  Keeping->>= P Q (next a) f h k = k a h
  Keeping->>= P Q (leave l) f h k = h
  Keeping->>= P Q crash f h k = tt

  pub Keeping-if :
      {A : Type 0} (P : A → Type 0) (b : Bool) (m n : Step A)
      → Keeping j P m
      → Keeping j P n
      → Keeping j P (if b then m else n)
  Keeping-if P true m n h k = h
  Keeping-if P false m n h k = k

  pub Keeping-next : {A : Type 0} (P : A → Type 0) (a : A) → P a → Keeping j P (next a)
  unfolding Keeping
  Keeping-next P a h = h

  pub Keeping-leave :
      {A : Type 0} (P : A → Type 0) (h : Handled) → Commits j h → Keeping j P (leave h)
  unfolding Keeping
  Keeping-leave P h k = k

  pub Keeping-read : {A : Type 0} (o : Option A) → Keeping j Any (read o)
  unfolding Keeping
  Keeping-read none = tt
  Keeping-read (some a) = tt

  pub Keeping-crash : {A : Type 0} (P : A → Type 0) → Keeping j P crash
  unfolding Keeping
  Keeping-crash P = tt

  pub Keeping-call :
      {A : Type 0} (o : Outcome A) (h : Error → Handled)
      → ((e : Error) → Commits j (h e))
      → Keeping j Any (call o h)
  unfolding Keeping
  Keeping-call (ok a) h k = tt
  Keeping-call (fail e) h k = k e
  Keeping-call panic h k = tt

  pub Keeping-change :
      (ds : DataStates) (o : Outcome DataStates)
      → Has j ds
      → ((new : DataStates) → o ≡ ok new → Keeps ds new)
      → Keeping j (Has j) (change ds o)
  unfolding Keeping
  Keeping-change ds (ok new) h k = Has-Keeps j ds new (k new refl) h
  Keeping-change ds (fail e) h k = h
  Keeping-change ds panic h k = tt

  pub Keeping-finish :
      (m : Step Handled) (h : Handled) → Keeping j (Commits j) m → finish m ≡ ok h → Commits j h
  unfolding Keeping
  Keeping-finish (next a) h k e = subst (Commits j) (ok_inj e) k
  Keeping-finish (leave a) h k e = subst (Commits j) (ok_inj e) k
  Keeping-finish crash h k e = cc

  Keeping-id_or_empty : (o : Outcome Str) → Keeping j Any (id_or_empty o)
  unfolding Keeping id_or_empty
  Keeping-id_or_empty (ok a) = tt
  Keeping-id_or_empty (fail e) = tt
  Keeping-id_or_empty panic = tt

  Keeping-path_or_crash : (o : Outcome (Option EventPath)) → Keeping j Any (path_or_crash o)
  unfolding Keeping path_or_crash
  Keeping-path_or_crash (ok (some p)) = tt
  Keeping-path_or_crash (ok none) = tt
  Keeping-path_or_crash (fail e) = tt
  Keeping-path_or_crash panic = tt

module _ ⦃x : External⦄ (j : Str) where
  pub Keeping-first :
      (e : Event)
      → event_id e ≡ ok j
      → Keeping j (Has j) (change new_data_states (add_event e new_data_states))
  unfolding Keeping
  Keeping-first e h = let (new, added, has) = add_event-first e j h in rw added has

  pub Keeping-path_of : (e : Event) → Keeping j Any (path_of e)
  unfolding path_of
  Keeping-path_of e = Keeping-path_or_crash j (event_path e)

  pub Keeping-hashed : (s : State) → Keeping j Any (hashed s)
  unfolding hashed
  Keeping-hashed s = Keeping-call j (state_hash s) uncommitted (Commits-uncommitted j)

  pub Keeping-id_of : (signature id : Str) → Keeping j Any (id_of signature id)
  unfolding id_of
  Keeping-id_of signature id = Keeping-id_or_empty j (get_id signature id)

  pub Keeping-store_state :
      (b : Bool) (model : EntityModel) (current historic : Str) (s : State) (packed : Bytes)
      (ds : DataStates)
      → Has j ds
      → Keeping j (Has j) (store_state b model current historic s packed ds)
  unfolding store_state
  Keeping-store_state true model current historic s packed ds h =
      Keeping-change j ds _ h (λ new. add_current_state-Keeps model current (by_value s) ds new)
  Keeping-store_state false model current historic s packed ds h =
      Keeping-next j (Has j) _
        (Has-Keeps j ds _ (add_historic_state-Keeps model historic packed ds) h)

  Keeping-then_or_crash :
      (ds : DataStates) (o : Outcome DataStates) (k : DataStates → Step DataStates)
      → Has j ds
      → ((new : DataStates) → o ≡ ok new → Keeps ds new)
      → ((new : DataStates) → Has j new → Keeping j (Has j) (k new))
      → Keeping j (Has j) (then_or_crash k o)
  unfolding then_or_crash
  Keeping-then_or_crash ds (ok new) k h keeps on = on new (Has-Keeps j ds new (keeps new refl) h)
  Keeping-then_or_crash ds (fail e) k h keeps on = Keeping-crash j (Has j)
  Keeping-then_or_crash ds panic k h keeps on = Keeping-crash j (Has j)

  pub Keeping-marked :
      (e : Event) (o : Outcome (Unit {0})) (k : DataStates → Step DataStates) (ds : DataStates)
      → Has j ds
      → ((new : DataStates) → Has j new → Keeping j (Has j) (k new))
      → Keeping j (Has j) (marked e o k ds)
  unfolding marked
  Keeping-marked e (ok done) k ds h on =
      Keeping-then_or_crash ds (add_event (valid_mark e.id) ds) k h
        (λ new. add_event-Keeps (valid_mark e.id) ds new) on
  Keeping-marked e (fail err) k ds h on =
      Keeping-change j ds _ h (λ new. add_event-Keeps (failed_mark e.id err) ds new)
  Keeping-marked e panic k ds h on = Keeping-crash j (Has j)

  Keeping-unless_error :
      (g : DataStates → Error → Handled) (new : DataStates) (verdict : Verdict) (o : Option Error)
      → Has j new
      → ((err : Error) → Commits j (g new err))
      → Keeping j (λ r. Has j r.0) (unless_error g new verdict o)
  unfolding unless_error Keeping
  Keeping-unless_error g new verdict none h k = h
  Keeping-unless_error g new verdict (some e) h k = k e

  Keeping-processing_result :
      (g : DataStates → Error → Handled) (o : Outcome (DataStates × Verdict))
      → ((new : DataStates) (verdict : Verdict) → o ≡ ok (new, verdict) → Has j new)
      → ((new : DataStates) (err : Error) → Has j new → Commits j (g new err))
      → Keeping j (λ r. Has j r.0) (processing_result g o)
  unfolding processing_result after_processing
  Keeping-processing_result g (ok (new, verdict)) h k =
      Keeping-unless_error g new verdict verdict.error (h new verdict refl)
        (λ err. k new err (h new verdict refl))
  Keeping-processing_result g (fail e) h k = Keeping-crash j (λ r. Has j r.0)
  Keeping-processing_result g panic h k = Keeping-crash j (λ r. Has j r.0)

  pub Keeping-processed :
      (v : Env) (e : Event) (data_ : PayloadData) (required : Bool) (ds : DataStates)
      (g : DataStates → Error → Handled)
      → Has j ds
      → ((new : DataStates) (err : Error) → Has j new → Commits j (g new err))
      → Keeping j (λ r. Has j r.0) (processed v e data_ required ds g)
  unfolding processed Has
  Keeping-processed v e data_ required ds g h k =
      Keeping-processing_result g (process_event v e data_ required ds)
        (λ new verdict same.
          unfold Keeps in process_event-Keeps v e data_ required ds new verdict same j h)
        k

module _ (j : Str) where
  Keeping-or_none : (o : Outcome (Option Event)) → Keeping j Any (or_none o)
  unfolding or_none Keeping
  Keeping-or_none (ok e) = tt
  Keeping-or_none (fail e) = tt
  Keeping-or_none panic = tt

module _ (j : Str) (v : Env) where
  pub Keeping-state_event_or_none :
      (id : Str) (path : EventPath) → Keeping j Any (state_event_or_none v id path)
  unfolding state_event_or_none
  Keeping-state_event_or_none id path = Keeping-or_none j (state_event v id path)
