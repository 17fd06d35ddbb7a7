-- ===== src/Prelude/Errors.antt =====
-- How a Go call ends: with a value, with an error, or by a panic. Also the errors that the source
-- tells apart, and those of common/apperror/errors.go.
use mathlib.Core.Path.{◌≡◌, ap}
use mathlib.Core.Bool.{Bool, true, false}
use mathlib.Core.Option.{Option, none, some}
use mathlib.Core.List.{◌++◌}
use Prim.Native.Nat.{ℕ}
use go_m_layer.Prelude.Strings.{Str, str, decimal, lower}

-- The first four are the sentinels of the datastore, of Badger, of GORM and of the store queries.
pub data Error : Type 0 where
  not_found key_not_found record_not_found key_exist : Error
  app : ℕ → Str → Error
  text : Str → Error

unfoldable pub unauthorized : Str → Error
unfolding lower
unauthorized m = app 4001 (lower m)

unfoldable pub forbidden : Str → Error
unfolding lower
forbidden m = app 4003 (lower m)

unfoldable pub not_found_error : Str → Error
unfolding lower
not_found_error m = app 4004 (lower m)

-- The source numbers a bad request 4003, as it does a forbidden one.
unfoldable pub bad_request : Str → Error
unfolding lower
bad_request m = app 4003 (lower m)

unfoldable pub internal : Str → Error
unfolding lower
internal m = app 5000 (lower m)

-- err.Error()
unfoldable pub error_string : Error → Str
error_string not_found = str "datastore: key not found"
error_string key_not_found = str "Key not found"
error_string record_not_found = str "record not found"
error_string key_exist = str "key exists"
error_string (app c m) = decimal c ++ (str ": " ++ m)
error_string (text m) = m

-- IsErrorNotFound of internal/ds/query/event.go; a nil error is `none`.
unfoldable pub is_not_found : Option Error → Bool
is_not_found (some not_found) = true
is_not_found (some key_not_found) = true
is_not_found _ = false

pub data Outcome {ℓ} (A : Type ℓ) : Type ℓ where
  ok : A → Outcome A
  fail : Error → Outcome A
  panic : Outcome A

infixl 5 ◌>>=◌
abbrev pub ◌>>=◌ {ℓ ℓ'} : {A : Type ℓ} → {B : Type ℓ'} → Outcome A → (A → Outcome B) → Outcome B
ok a >>= f = f a
fail e >>= f = fail e
panic >>= f = panic

infixl 5 ◌>>◌
abbrev pub ◌>>◌ {ℓ} : {B : Type ℓ} → Outcome (Unit {0}) → Outcome B → Outcome B
m >> k = m >>= λ _. k

-- if c { return err }
abbrev pub reject_if : Bool → Error → Outcome (Unit {0})
reject_if true e = fail e
reject_if false e = ok tt

-- *p, which panics on nil
abbrev pub deref {ℓ} : {A : Type ℓ} → Option A → Outcome A
deref none = panic
deref (some a) = ok a

-- The value and the error of a call go on to different code; a panic goes on to none.
abbrev pub attempt {ℓ κ} :
    {A : Type ℓ} {B : Type κ} → Outcome A → (A → Outcome B) → (Error → Outcome B) → Outcome B
attempt (ok a) f g = f a
attempt (fail e) f g = g e
attempt panic f g = panic

result_of {ℓ} : {A : Type ℓ} → A → Outcome A → A
result_of d (ok a) = a
result_of d _ = d

pub ok_inj {ℓ} : {A : Type ℓ} {a b : A} → ok a ≡ ok b → a ≡ b
unfolding result_of
ok_inj {a} e = ap (result_of a) e
