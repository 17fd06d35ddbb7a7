-- ===== src/Encoding/BigNumber.antt =====
-- The bytes of a natural number, `big_bytes`, and their reading, `big_number`.
use go_m_layer.Prelude.{
  ℕ, zero, suc, ◌+◌, ◌*◌, ◌/◌, ◌≤◌, ◌≡◌, refl, ◌∙◌, arith, [], ◌∷◌, ◌==◌, Bool-cases, inl, inr,
}
use go_m_layer.External.{Bytes}
use go_m_layer.Encoding.{big_bytes, big_number, low_bytes, prepend_low, set_bytes}

low_value : Bytes → ℕ
low_value [] = 0
low_value (b ∷ bs) = low_value bs * 256 + b

low_value-low_bytes : (fuel n : ℕ) → n ≤ fuel → low_value (low_bytes fuel n) ≡ n
unfolding low_value low_bytes
low_value-low_bytes zero n h = omega arith
low_value-low_bytes (suc fuel) n h = elim (Bool-cases (n == 0)) [
  | inl e ↦ ground arith
  | inr e ↦ ground (arith, low_value-low_bytes fuel (n / 256) (ground arith))
]

set_bytes-prepend_low :
    (bs out : Bytes) → set_bytes 0 (prepend_low bs out) ≡ set_bytes (low_value bs) out
unfolding set_bytes prepend_low low_value
set_bytes-prepend_low [] out = refl
set_bytes-prepend_low (b ∷ bs) out = set_bytes-prepend_low bs (b ∷ out)

-- A natural number of any size is read back from its bytes.
pub big_number-big_bytes : (n : ℕ) → big_number (big_bytes n) ≡ n
unfolding big_number big_bytes set_bytes
big_number-big_bytes n =
    set_bytes-prepend_low (low_bytes n n) [] ∙ low_value-low_bytes n n (omega arith)
