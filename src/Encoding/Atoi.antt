-- ===== src/Encoding/Atoi.antt =====
-- strconv.Atoi, and the successor of an int, which has 64 bits.
use go_m_layer.Prelude.{
  ℕ, zero, suc, ◌+◌, ◌-◌, ◌^◌, Bool, true, false, Option, none, some, [], ◌∷◌, Str, ltb, leb, ◌==◌,
  if◌then◌else◌,
}
use go_m_layer.Encoding.{parse_digits}
use go_m_layer.Entities.Ids.{ℤ, pos, negsuc}

digits : Str → Option ℕ
unfolding parse_digits
digits [] = none
digits (c ∷ rest) = parse_digits 0 (c ∷ rest)

negated : ℕ → ℤ
negated zero = pos 0
negated (suc n) = negsuc n

-- The value in the range of an int64; the sign comes first.
ranged : Bool → Option ℕ → Option ℤ
unfolding negated
ranged minus none = none
ranged true (some n) = if leb n (2 ^ 63) then some (negated n) else none
ranged false (some n) = if ltb n (2 ^ 63) then some (pos n) else none

unfoldable pub atoi : Str → Option ℤ
unfolding ranged digits
atoi [] = none
atoi (c ∷ rest) =
    if c == 45
    then ranged true (digits rest)
    else if c == 43
    then ranged false (digits rest)
    else ranged false (digits (c ∷ rest))

-- n++ of an int
unfoldable pub next_int : ℤ → ℤ
next_int (pos n) = if ltb (n + 1) (2 ^ 63) then pos (n + 1) else negsuc (2 ^ 63 - 1)
next_int (negsuc zero) = pos 0
next_int (negsuc (suc n)) = negsuc n
