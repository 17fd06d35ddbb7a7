-- ===== src/Service/Handle/Step.antt =====
-- The control flow of a handler. It ends with the error that it returns, and with the collected states
-- if its deferred function commits them. A panic ends it without a result; the commit that the deferred
-- function still tries before the process ends is left out.
use go_m_layer.Prelude.{Option, none, some, Error, Outcome, ok, fail, panic}
use go_m_layer.DataStates.{DataStates}

pub record Handled : Type 0 where
  pub committed : Option DataStates
  pub error : Option Error

pub data Step (A : Type 0) : Type 0 where
  next : A → Step A
  leave : Handled → Step A
  crash : Step A

infixl 5 ◌>>=◌ ◌>>◌
abbrev pub ◌>>=◌ : {A B : Type 0} → Step A → (A → Step B) → Step B
next a >>= f = f a
leave h >>= f = leave h
crash >>= f = crash

abbrev pub ◌>>◌ : {B : Type 0} → Step (Unit {0}) → Step B → Step B
m >> k = m >>= λ _. k

-- return err, before the deferred function is set or where it does nothing
abbrev pub uncommitted : Error → Handled
uncommitted e = record { committed = none; error = some e }

-- return err, and the deferred function commits
abbrev pub committed_with : DataStates → Option Error → Handled
committed_with ds e = record { committed = some ds; error = e }

abbrev pub call : {A : Type 0} → Outcome A → (Error → Handled) → Step A
call (ok a) h = next a
call (fail e) h = leave (h e)
call panic h = crash

abbrev pub read : {A : Type 0} → Option A → Step A
read none = crash
read (some a) = next a

abbrev pub change : DataStates → Outcome DataStates → Step DataStates
change ds (ok new) = next new
change ds (fail e) = next ds
change ds panic = crash

abbrev pub finish : Step Handled → Outcome Handled
finish (next h) = ok h
finish (leave h) = ok h
finish crash = panic
