-- ===== src/Order/Laws.antt =====
-- `is_more_recent_event` is a strict total order on pairs of a timestamp and a hash.
use go_m_layer.Prelude.{◌≡◌, refl, arith, true, false, [], ◌∷◌, Str, str_lt}
use go_m_layer.Entities.Ids.{ℤ}
use go_m_layer.Order.{ltb_ℤ, is_more_recent_event}

pub str_lt_irrefl : (a : Str) → str_lt a a ≡ false
unfolding str_lt
str_lt_irrefl [] = refl
str_lt_irrefl (x ∷ xs) = ground (arith, str_lt_irrefl xs)

pub str_lt_trans : (a b c : Str) → str_lt a b ≡ true → str_lt b c ≡ true → str_lt a c ≡ true
unfolding str_lt
str_lt_trans [] [] c h k = cc
str_lt_trans [] (y ∷ ys) [] h k = cc
str_lt_trans [] (y ∷ ys) (z ∷ zs) h k = refl
str_lt_trans (x ∷ xs) [] c h k = cc
str_lt_trans (x ∷ xs) (y ∷ ys) [] h k = cc
str_lt_trans (x ∷ xs) (y ∷ ys) (z ∷ zs) h k = ground (arith, str_lt_trans xs ys zs)

pub str_lt_total : (a b : Str) → str_lt a b ≡ false → str_lt b a ≡ false → a ≡ b
unfolding str_lt
str_lt_total [] [] h k = refl
str_lt_total [] (y ∷ ys) h k = cc
str_lt_total (x ∷ xs) [] h k = cc
str_lt_total (x ∷ xs) (y ∷ ys) h k = ground (arith, str_lt_total xs ys)

pub ltb_ℤ_irrefl : (a : ℤ) → ltb_ℤ a a ≡ false
unfolding ltb_ℤ
ltb_ℤ_irrefl a = ground arith

pub ltb_ℤ_trans : (a b c : ℤ) → ltb_ℤ a b ≡ true → ltb_ℤ b c ≡ true → ltb_ℤ a c ≡ true
unfolding ltb_ℤ
ltb_ℤ_trans a b c h k = ground arith

pub ltb_ℤ_total : (a b : ℤ) → ltb_ℤ a b ≡ false → ltb_ℤ b a ≡ false → a ≡ b
unfolding ltb_ℤ
ltb_ℤ_total a b h k = ground arith

-- No event wins over one with its own timestamp and hash.
pub is_more_recent_event_irrefl : (h : Str) (t : ℤ) → is_more_recent_event h t h t ≡ false
unfolding is_more_recent_event
is_more_recent_event_irrefl h t = ground (arith, str_lt_irrefl h, ltb_ℤ_irrefl t)

-- What wins over a winner wins over what that one beat.
pub is_more_recent_event_trans :
    (h₁ h₂ h₃ : Str) (t₁ t₂ t₃ : ℤ)
    → is_more_recent_event h₁ t₁ h₂ t₂ ≡ true
    → is_more_recent_event h₂ t₂ h₃ t₃ ≡ true
    → is_more_recent_event h₁ t₁ h₃ t₃ ≡ true
unfolding is_more_recent_event
is_more_recent_event_trans h₁ h₂ h₃ t₁ t₂ t₃ p q = ground (
  arith,
  str_lt_trans h₁ h₂ h₃,
  ltb_ℤ_trans t₁ t₂ t₃,
  ltb_ℤ_total t₁ t₂,
  ltb_ℤ_total t₂ t₃,
  ltb_ℤ_irrefl t₁,
  ltb_ℤ_trans t₃ t₁ t₂,
  ltb_ℤ_trans t₂ t₃ t₁,
)

-- Of two events, one wins over the other, or they agree in timestamp and hash.
pub is_more_recent_event_total :
    (h₁ h₂ : Str) (t₁ t₂ : ℤ)
    → is_more_recent_event h₁ t₁ h₂ t₂ ≡ false
    → is_more_recent_event h₂ t₂ h₁ t₁ ≡ false
    → (h₁ ≡ h₂) × (t₁ ≡ t₂)
unfolding is_more_recent_event
is_more_recent_event_total h₁ h₂ t₁ t₂ p q = ground (arith, str_lt_total h₁ h₂, ltb_ℤ_total t₁ t₂)
