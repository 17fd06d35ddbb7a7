-- ===== src/Prelude/Assoc.antt =====
-- Go's maps with string keys, and with pairs of strings: association lists. The source ranges over
-- them in no fixed order, so the order of the entries carries no meaning.
use mathlib.Core.Path.{◌≡◌, refl}
use mathlib.Core.Logic.{◌↔◌}
use mathlib.Core.Bool.{Bool, true, ◌&&◌}
use mathlib.Core.Option.{Option, none, some}
use mathlib.Core.List.{List, [], ◌∷◌}
use native.Mathlib.Omega.{arith}
use go_m_layer.Prelude.Tests.{if◌then◌else◌}
use go_m_layer.Prelude.Strings.{Str, str_eq, str_eq_iff}

-- Keys that a map can tell apart.
pub record Eq {ℓ} (K : Type ℓ) : Type ℓ where
  pub same : K → K → Bool
  pub same_iff : (i j : K) → (same i j ≡ true) ↔ (i ≡ j)

instance abbrev pub str_has_eq : Eq Str
str_has_eq = record { same = str_eq; same_iff = str_eq_iff }

-- The key of a state: its model's text and its id.
pub record StateKey : Type 0 where
  pub model : Str
  pub id : Str

unfoldable pub key_eq : StateKey → StateKey → Bool
key_eq a b = str_eq a.model b.model && str_eq a.id b.id

pub key_eq_iff : (a b : StateKey) → (key_eq a b ≡ true) ↔ (a ≡ b)
unfolding key_eq
key_eq_iff a b = (
  λ h. ground (arith, str_eq_iff a.model b.model, str_eq_iff a.id b.id),
  λ e. ground (arith, str_eq_iff a.model b.model, str_eq_iff a.id b.id),
)

instance abbrev pub state_key_has_eq : Eq StateKey
state_key_has_eq = record { same = key_eq; same_iff = key_eq_iff }

module _ {ℓ κ} {K : Type ℓ} {V : Type κ} ⦃key : Eq K⦄ where
  unfoldable pub lookup : K → List (K × V) → Option V
  lookup k [] = none
  lookup k (entry ∷ rest) =
      let later = lookup k rest in if key.same entry.0 k then some entry.1 else later

  -- m[k] = v
  unfoldable pub insert : K → V → List (K × V) → List (K × V)
  insert k v [] = (k, v) ∷ []
  insert k v (entry ∷ rest) =
      let later = insert k v rest in if key.same entry.0 k then (k, v) ∷ rest else entry ∷ later

  pub lookup-insert :
      (written read : K) (v : V) (m : List (K × V))
      → lookup read (insert written v m) ≡ (if key.same written read then some v else lookup read m)
  unfolding lookup insert
  lookup-insert written read v [] = refl
  lookup-insert written read v ((i, old) ∷ rest) = ground (
    arith,
    key.same_iff i written,
    key.same_iff written read,
    key.same_iff i read,
    lookup-insert written read v rest,
  )
