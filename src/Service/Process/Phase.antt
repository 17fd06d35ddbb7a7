-- ===== src/Service/Process/Phase.antt =====
-- The control flow of ProcessEvent: a phase goes on, or returns from the whole function. What the
-- changes have collected so far stays with the caller also where the function returns an error.
use go_m_layer.Prelude.{
  ◌&&◌, Bool, true, false, Option, none, some, Str, Error, error_string, Outcome, ok, fail, panic,
}
use go_m_layer.Entities.Ids.{EventPath}
use go_m_layer.Entities.Records.{Authorization, Event, zero_event}
use go_m_layer.DataStates.{DataStates}

-- LocalDataState, LocalDataStateEvent and PayloadData
pub record LocalDataState : Type 0 where
  pub hash : Str
  pub id : Str
  pub event : Option EventPath
  pub timestamp : Prim.Native.Nat.ℕ

pub record LocalDataStateEvent : Type 0 where
  pub hash : Str
  pub id : Str
  pub timestamp : Prim.Native.Nat.ℕ

pub record PayloadData : Type 0 where
  pub subnet : Str
  pub local_data_state : Option LocalDataState
  pub local_data_state_event : Option LocalDataStateEvent

-- The results of ProcessEvent, in their order.
pub record Verdict : Type 0 where
  pub previous_up_to_date : Bool
  pub auth_up_to_date : Bool
  pub auth_state : Option Authorization
  pub is_recent : Bool
  pub error : Option Error

-- return p, a, nil, isRecent, errors.New(m)
abbrev pub refuse : Bool → Bool → Bool → Error → Verdict
refuse p a recent e = record {
  previous_up_to_date = p;
  auth_up_to_date = a;
  auth_state = none;
  is_recent = recent;
  error = some e;
}

pub data Phase (A : Type 0) : Type 0 where
  next : A → Phase A
  stop : DataStates → Verdict → Phase A
  crash : Phase A

infixl 5 ◌>>=◌ ◌>>◌
abbrev pub ◌>>=◌ : {A B : Type 0} → Phase A → (A → Phase B) → Phase B
next a >>= f = f a
stop ds v >>= f = stop ds v
crash >>= f = crash

abbrev pub ◌>>◌ : {B : Type 0} → Phase (Unit {0}) → Phase B → Phase B
m >> k = m >>= λ _. k

abbrev pub stop_if : Bool → DataStates → Verdict → Phase (Unit {0})
stop_if true ds v = stop ds v
stop_if false ds v = next tt

-- A call whose error ends the function.
abbrev pub call : {A : Type 0} → DataStates → Outcome A → (Error → Verdict) → Phase A
call ds (ok a) v = next a
call ds (fail e) v = stop ds (v e)
call ds panic v = crash

-- A read that can only panic.
abbrev pub read : {A : Type 0} → Option A → Phase A
read none = crash
read (some a) = next a

-- A change of the collected states, whose error the source drops.
abbrev pub change : DataStates → Outcome DataStates → Phase DataStates
change ds (ok new) = next new
change ds (fail e) = next ds
change ds panic = crash

-- The end of the function.
abbrev pub finish : Phase (DataStates × Verdict) → Outcome (DataStates × Verdict)
finish (next r) = ok r
finish (stop ds v) = ok (ds, v)
finish crash = panic

unfoldable pub no_error : Option Error → Bool
no_error none = true
no_error (some e) = false

-- What a handler needs to go on: no error, and both events up to date.
unfoldable pub accepts : Verdict → Bool
unfolding no_error
accepts v = no_error v.error && (v.previous_up_to_date && v.auth_up_to_date)

-- entities.Event{ID: id, Error: err.Error(), IsValid: false, Synced: true}
abbrev pub failed_mark : Str → Error → Event
failed_mark id e = record zero_event {
  id = id;
  error = error_string e;
  is_valid = some false;
  synced = some true;
}
