-- ===== src/Encoding/RoundTrip.antt =====
-- `number_to_byte` and `number_from_byte`, and the padding of base64 texts.
use Prim.Native.Nat.{ℕ, ◌+◌, ◌*◌, ◌%◌, ◌/◌, ◌^◌, ◌≤◌, ◌<◌}
use go_m_layer.Prelude.{
  ◌⊎◌, inl, inr, ltb, str_lt, ◌≡◌, refl, arith, [], ◌∷◌, ◌++◌, length, All, ok, ap,
}
use go_m_layer.External.{Bytes}
use go_m_layer.Encoding.{number_to_byte, number_from_byte}

abbrev pub IsByte : ℕ → Type 0
IsByte b = b < 256

-- Eight bytes are written for a 64-bit number, and reading them back gives the number, whatever
-- bytes follow.
pub number_from_byte-number_to_byte :
    (n : ℕ) (rest : Bytes)
    → n < 2 ^ 64
    → (number_from_byte (number_to_byte n ++ rest) ≡ ok n)
      × All IsByte (number_to_byte n)
      × (length (number_to_byte n) ≡ 8)
unfolding number_to_byte number_from_byte
number_from_byte-number_to_byte n rest h = (ap ok (omega arith), omega arith, refl)

lt_eq_gt : (p q : ℕ) → (p < q) ⊎ ((p ≡ q) ⊎ (q < p))
lt_eq_gt p q = ground arith

scaled_lt : (p q M : ℕ) → p < q → p * M + M ≤ q * M
scaled_lt p q M h = grind arith

-- One byte more in front: `u` and `v` are the values of the tails, and `M` bounds them.
str_lt_level :
    (p q u v m n M : ℕ) (xs ys : Bytes)
    → u < M
    → v < M
    → m ≡ p * M + u
    → n ≡ q * M + v
    → str_lt xs ys ≡ ltb u v
    → str_lt (p ∷ xs) (q ∷ ys) ≡ ltb m n
unfolding str_lt
str_lt_level p q u v m n M xs ys hu hv em en h = elim (lt_eq_gt p q) [
  | inl less ↦ grind (arith, scaled_lt p q M less)
  | inr (inl same) ↦ grind (arith, ap (λ (t : ℕ). t * M) same)
  | inr (inr more) ↦ grind (arith, scaled_lt q p M more)
]

-- The encodings of 64-bit numbers, compared as Go compares strings, stand in the order of the
-- numbers.
pub str_lt-number_to_byte :
    (m n : ℕ) → m < 2 ^ 64 → n < 2 ^ 64 → str_lt (number_to_byte m) (number_to_byte n) ≡ ltb m n
unfolding number_to_byte
str_lt-number_to_byte m n hm hn =
    str_lt_level (m / 2 ^ 56 % 256) (n / 2 ^ 56 % 256) (m % 2 ^ 56) (n % 2 ^ 56) m n (2 ^ 56) _ _
      (omega arith) (omega arith) (omega arith) (omega arith)
      (str_lt_level _ _ (m % 2 ^ 48) (n % 2 ^ 48) _ _ (2 ^ 48) _ _ (omega arith) (omega arith)
        (omega arith) (omega arith)
        (str_lt_level _ _ (m % 2 ^ 40) (n % 2 ^ 40) _ _ (2 ^ 40) _ _ (omega arith) (omega arith)
          (omega arith) (omega arith)
          (str_lt_level _ _ (m % 2 ^ 32) (n % 2 ^ 32) _ _ (2 ^ 32) _ _ (omega arith) (omega arith)
            (omega arith) (omega arith)
            (str_lt_level _ _ (m % 2 ^ 24) (n % 2 ^ 24) _ _ (2 ^ 24) _ _ (omega arith) (omega arith)
              (omega arith) (omega arith)
              (str_lt_level _ _ (m % 2 ^ 16) (n % 2 ^ 16) _ _ (2 ^ 16) _ _ (omega arith)
                (omega arith) (omega arith) (omega arith)
                (str_lt_level _ _ (m % 2 ^ 8) (n % 2 ^ 8) _ _ (2 ^ 8) _ _ (omega arith)
                  (omega arith) (omega arith) (omega arith)
                  (str_lt_level _ _ 0 0 _ _ 1 [] [] (omega arith) (omega arith) (omega arith)
                    (omega arith) (unfold str_lt in refl))))))))
