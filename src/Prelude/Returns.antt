-- ===== src/Prelude/Returns.antt =====
-- What holds of a call's result where it returns one.
use mathlib.Core.Path.{◌≡◌, refl, subst}
use mathlib.Core.Bool.{Bool, true, false}
use mathlib.Core.Logic.{◌⊎◌, inl, inr}
use mathlib.Core.Option.{Option, none, some}
use go_m_layer.Prelude.Tests.{if◌then◌else◌}
use go_m_layer.Prelude.Errors.{
  Error, Outcome, ok, fail, panic, ◌>>=◌, ◌>>◌, reject_if, deref, attempt, ok_inj,
}

unfoldable pub Ensures {ℓ κ} : {A : Type ℓ} → (A → Type κ) → Outcome A → Type κ
Ensures P (ok a) = P a
Ensures P (fail e) = Unit {_}
Ensures P panic = Unit {_}

-- A call that returns ensures what its result satisfies.
pub Ensures-result {ℓ κ} :
    {A : Type ℓ} (P : A → Type κ) (m : Outcome A) (a : A) → Ensures P m → m ≡ ok a → P a
unfolding Ensures
Ensures-result P (ok b) a h e = subst P (ok_inj e) h
Ensures-result P (fail err) a h e = cc
Ensures-result P panic a h e = cc

pub Ensures-ok {ℓ κ} : {A : Type ℓ} (P : A → Type κ) (a : A) → P a → Ensures P (ok a)
unfolding Ensures
Ensures-ok P a h = h

pub Ensures-fail {ℓ κ} : {A : Type ℓ} (P : A → Type κ) (e : Error) → Ensures P (fail e)
unfolding Ensures
Ensures-fail P e = tt

pub Ensures-panic {ℓ κ} : {A : Type ℓ} (P : A → Type κ) → Ensures P panic
unfolding Ensures
Ensures-panic P = tt

module _ {ℓ κ} {B : Type ℓ} (Q : B → Type κ) where
  pub Ensures->>= {ι} :
      {A : Type ι} (m : Outcome A) (f : A → Outcome B)
      → ((a : A) → m ≡ ok a → Ensures Q (f a))
      → Ensures Q (m >>= f)
  unfolding Ensures
  Ensures->>= (ok a) f h = h a refl
  Ensures->>= (fail e) f h = tt
  Ensures->>= panic f h = tt

  pub Ensures-reject_if :
      (c : Bool) (e : Error) (m : Outcome B)
      → (c ≡ false → Ensures Q m)
      → Ensures Q (reject_if c e >> m)
  unfolding Ensures
  Ensures-reject_if true e m h = tt
  Ensures-reject_if false e m h = h refl

  pub Ensures-deref {ι} :
      {A : Type ι} (o : Option A) (f : A → Outcome B)
      → ((a : A) → o ≡ some a → Ensures Q (f a))
      → Ensures Q (deref o >>= f)
  unfolding Ensures
  Ensures-deref none f h = tt
  Ensures-deref (some a) f h = h a refl

  pub Ensures-if :
      (c : Bool) (m n : Outcome B)
      → (c ≡ true → Ensures Q m)
      → (c ≡ false → Ensures Q n)
      → Ensures Q (if c then m else n)
  Ensures-if true m n h k = h refl
  Ensures-if false m n h k = k refl

  pub Ensures-attempt {ι} :
      {A : Type ι} (m : Outcome A) (f : A → Outcome B) (g : Error → Outcome B)
      → ((a : A) → m ≡ ok a → Ensures Q (f a))
      → ((e : Error) → m ≡ fail e → Ensures Q (g e))
      → Ensures Q (attempt m f g)
  unfolding Ensures
  Ensures-attempt (ok a) f g h k = h a refl
  Ensures-attempt (fail e) f g h k = k e refl
  Ensures-attempt panic f g h k = tt

pub Ensures-last {ℓ κ} :
    {A : Type ℓ} (P : A → Type κ) (m : Outcome A) → ((a : A) → m ≡ ok a → P a) → Ensures P m
unfolding Ensures
Ensures-last P (ok a) h = h a refl
Ensures-last P (fail e) h = tt
Ensures-last P panic h = tt

-- A sequence that returns has a first part that returns, and so does the rest.
pub >>=-ok {ℓ κ} :
    {A : Type ℓ} {B : Type κ} (m : Outcome A) (f : A → Outcome B) (b : B)
    → (m >>= f) ≡ ok b
    → (a : A) × (m ≡ ok a) × (f a ≡ ok b)
>>=-ok (ok a) f b h = (a, refl, h)
>>=-ok (fail e) f b h = cc
>>=-ok panic f b h = cc

pub attempt-ok {ℓ κ} :
    {A : Type ℓ} {B : Type κ} (m : Outcome A) (f : A → Outcome B) (g : Error → Outcome B) (b : B)
    → attempt m f g ≡ ok b
    → ((a : A) × (m ≡ ok a) × (f a ≡ ok b)) ⊎ ((e : Error) × (m ≡ fail e) × (g e ≡ ok b))
attempt-ok (ok a) f g b h = inl (a, refl, h)
attempt-ok (fail e) f g b h = inr (e, refl, h)
attempt-ok panic f g b h = cc
