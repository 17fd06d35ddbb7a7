-- ===== src/Service/Process/Logic.antt =====
-- A Hoare logic for the phases of ProcessEvent: what holds where a phase goes on, and what holds where
-- it ends the function.
use mathlib.Core.Path.{subst}
use go_m_layer.Prelude.{
  if◌then◌else◌, ok_inj, ◌≡◌, refl, ◌⊎◌, inl, inr, Bool, true, false, Option, none, some, Error,
  Outcome, ok, fail, panic,
}
use go_m_layer.DataStates.{DataStates}
use go_m_layer.DataStates.Keep.{Keeps}
use go_m_layer.Service.Process.Phase.{
  Phase, next, stop, crash, ◌>>=◌, ◌>>◌, stop_if, call, read, change, finish, Verdict, accepts,
  no_error, refuse,
}

unfoldable pub Holds :
    {A : Type 0} → (A → Type 0) → (DataStates → Verdict → Type 0) → Phase A → Type 0
Holds P S (next a) = P a
Holds P S (stop ds v) = S ds v
Holds P S crash = Unit {0}

module _ (S : DataStates → Verdict → Type 0) where
  pub Holds->>= :
      {A B : Type 0} (P : A → Type 0) (Q : B → Type 0) (m : Phase A) (f : A → Phase B)
      → Holds P S m
      → ((a : A) → P a → Holds Q S (f a))
      → Holds Q S (m >>= f)
  unfolding Holds
  Holds->>= P Q (next a) f h k = k a h
  Holds->>= P Q (stop ds v) f h k = h
  Holds->>= P Q crash f h k = tt

  pub Holds-weaken :
      {A : Type 0} (P Q : A → Type 0) (m : Phase A)
      → Holds P S m
      → ((a : A) → P a → Q a)
      → Holds Q S m
  unfolding Holds
  Holds-weaken P Q (next a) h k = k a h
  Holds-weaken P Q (stop ds v) h k = h
  Holds-weaken P Q crash h k = tt

  -- The same, of the calls that phases begin with.
  pub Holds-call :
      {A B : Type 0} (Q : B → Type 0) (ds : DataStates) (o : Outcome A) (v : Error → Verdict)
      (f : A → Phase B)
      → ((e : Error) → S ds (v e))
      → ((a : A) → o ≡ ok a → Holds Q S (f a))
      → Holds Q S (call ds o v >>= f)
  unfolding Holds
  Holds-call Q ds (ok a) v f h k = k a refl
  Holds-call Q ds (fail e) v f h k = h e
  Holds-call Q ds panic v f h k = tt

  pub Holds-call_last :
      {A : Type 0} (P : A → Type 0) (ds : DataStates) (o : Outcome A) (v : Error → Verdict)
      → ((e : Error) → S ds (v e))
      → ((a : A) → o ≡ ok a → P a)
      → Holds P S (call ds o v)
  unfolding Holds
  Holds-call_last P ds (ok a) v h k = k a refl
  Holds-call_last P ds (fail e) v h k = h e
  Holds-call_last P ds panic v h k = tt

  pub Holds-read :
      {A B : Type 0} (Q : B → Type 0) (o : Option A) (f : A → Phase B)
      → ((a : A) → o ≡ some a → Holds Q S (f a))
      → Holds Q S (read o >>= f)
  unfolding Holds
  Holds-read Q none f k = tt
  Holds-read Q (some a) f k = k a refl

  pub Holds-stop_if :
      {B : Type 0} (Q : B → Type 0) (c : Bool) (ds : DataStates) (v : Verdict) (m : Phase B)
      → S ds v
      → (c ≡ false → Holds Q S m)
      → Holds Q S (stop_if c ds v >> m)
  unfolding Holds
  Holds-stop_if Q true ds v m h k = h
  Holds-stop_if Q false ds v m h k = k refl

  pub Holds-stop_if_last :
      (P : Unit {0} → Type 0) (c : Bool) (ds : DataStates) (v : Verdict)
      → S ds v
      → (c ≡ false → P tt)
      → Holds P S (stop_if c ds v)
  unfolding Holds
  Holds-stop_if_last P true ds v h k = h
  Holds-stop_if_last P false ds v h k = k refl

  pub Holds-if :
      {B : Type 0} (Q : B → Type 0) (c : Bool) (m n : Phase B)
      → (c ≡ true → Holds Q S m)
      → (c ≡ false → Holds Q S n)
      → Holds Q S (if c then m else n)
  Holds-if Q true m n h k = h refl
  Holds-if Q false m n h k = k refl

  -- An error leaves the states as they were.
  pub Holds-change :
      (P : DataStates → Type 0) (ds : DataStates) (o : Outcome DataStates)
      → P ds
      → ((new : DataStates) → o ≡ ok new → P new)
      → Holds P S (change ds o)
  unfolding Holds
  Holds-change P ds (ok new) h k = k new refl
  Holds-change P ds (fail e) h k = h
  Holds-change P ds panic h k = tt

  pub Holds-next : {A : Type 0} (P : A → Type 0) (a : A) → P a → Holds P S (next a)
  unfolding Holds
  Holds-next P a h = h

  pub Holds-stop :
      {A : Type 0} (P : A → Type 0) (ds : DataStates) (v : Verdict) → S ds v → Holds P S (stop ds v)
  unfolding Holds
  Holds-stop P ds v h = h

  pub Holds-crash : {A : Type 0} (P : A → Type 0) → Holds P S crash
  unfolding Holds
  Holds-crash P = tt

  pub Holds-finish :
      (P : DataStates × Verdict → Type 0) (m : Phase (DataStates × Verdict))
      (r : DataStates × Verdict)
      → Holds P S m
      → finish m ≡ ok r
      → P r ⊎ S r.0 r.1
  unfolding Holds
  Holds-finish P (next a) r h e = inl (rw (ok_inj e) at h)
  Holds-finish P (stop ds v) r h e =
      let same = ok_inj e in inr (subst (λ (t : DataStates × Verdict). S t.0 t.1) same h)
  Holds-finish P crash r h e = cc

-- An end of the function that accepts nothing and loses none of the given events.
unfoldable pub Ends : DataStates → DataStates → Verdict → Type 0
Ends start ds v = (accepts v ≡ false) × Keeps start ds

-- An error is not accepted.
pub Ends-refuse :
    (start ds : DataStates) (p a recent : Bool) (e : Error)
    → Keeps start ds
    → Ends start ds (refuse p a recent e)
unfolding Ends accepts
Ends-refuse start ds p a recent e h = (refl, h)

-- Nor is an authorization that is not up to date.
pub Ends-outdated :
    (start ds : DataStates) (p recent : Bool)
    → Keeps start ds
    → Ends start ds (record {
      previous_up_to_date = p;
      auth_up_to_date = false;
      auth_state = none;
      is_recent = recent;
      error = none;
    })
unfolding Ends accepts
Ends-outdated start ds true recent h = (refl, h)
Ends-outdated start ds false recent h = (refl, h)

pub Ends-error :
    (start ds : DataStates) (v : Verdict) (e : Error)
    → v.error ≡ some e
    → Keeps start ds
    → Ends start ds v
unfolding Ends accepts no_error
Ends-error start ds v e q h = (rw q refl, h)
