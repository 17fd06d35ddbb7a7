-- ===== src/Prelude/Strings.antt =====
-- Go's strings are byte sequences; so are they here. What the source uses of `strings`, `hex` and
-- of `fmt`'s `%d` and `%0nd` is written out.
use Prim.Native.Nat.{ℕ, zero, suc, ◌+◌, ◌-◌, ◌*◌, ◌/◌, ◌%◌}
use Prim.Native.Char.{code}
use Prim.Native.String.{String}
use mathlib.Core.Path.{◌≡◌, refl}
use mathlib.Core.Logic.{◌↔◌}
use mathlib.Core.Bool.{Bool, true, false, ◌&&◌, ◌||◌}
use mathlib.Core.List.{List, [], ◌∷◌, ◌++◌, reverse, map}
use native.Mathlib.Omega.{arith}
use go_m_layer.Prelude.Tests.{ltb, leb, ◌==◌, if◌then◌else◌}
use go_m_layer.Prelude.Lists.{length, replicate}

abbrev pub Str : Type 0
Str = List ℕ

-- The bytes of an ASCII literal.
abbrev pub str : String → Str
str String.[] = []
str (String.◌∷◌ c s) = code c ∷ str s

-- a == b
unfoldable pub str_eq : Str → Str → Bool
str_eq [] [] = true
str_eq [] (y ∷ ys) = false
str_eq (x ∷ xs) [] = false
str_eq (x ∷ xs) (y ∷ ys) = x == y && str_eq xs ys

-- a < b, bytewise and lexicographic
unfoldable pub str_lt : Str → Str → Bool
str_lt [] [] = false
str_lt [] (y ∷ ys) = true
str_lt (x ∷ xs) [] = false
str_lt (x ∷ xs) (y ∷ ys) = ltb x y || (x == y && str_lt xs ys)

-- s == ""
unfoldable pub is_empty : Str → Bool
is_empty [] = true
is_empty (x ∷ xs) = false

str_eq_sound : (a b : Str) → str_eq a b ≡ true → a ≡ b
unfolding str_eq
str_eq_sound [] [] h = refl
str_eq_sound [] (y ∷ ys) h = cc
str_eq_sound (x ∷ xs) [] h = cc
str_eq_sound (x ∷ xs) (y ∷ ys) h = ground (arith, str_eq_sound xs ys)

pub str_eq_refl : (a : Str) → str_eq a a ≡ true
unfolding str_eq
str_eq_refl [] = refl
str_eq_refl (x ∷ xs) = ground (arith, str_eq_refl xs)

pub str_eq_iff : (a b : Str) → (str_eq a b ≡ true) ↔ (a ≡ b)
str_eq_iff a b = (str_eq_sound a b, λ e. rw e (str_eq_refl b))

to_lower : ℕ → ℕ
to_lower c = if leb 65 c && leb c 90 then c + 32 else c

-- strings.ToLower, of an ASCII text
unfoldable pub lower : Str → Str
unfolding to_lower
lower = map to_lower

-- strings.EqualFold, of ASCII texts
unfoldable pub equal_fold : Str → Str → Bool
unfolding lower
equal_fold a b = str_eq (lower a) (lower b)

pub equal_fold_refl : (a : Str) → equal_fold a a ≡ true
unfolding equal_fold
equal_fold_refl a = str_eq_refl (lower a)

-- "%d" of an unsigned number: the digits, the lowest first, on fuel that its value bounds.
low_digits : ℕ → ℕ → List ℕ
low_digits zero n = []
low_digits (suc f) n =
    let rest = low_digits f (n / 10) in if ltb n 10 then (48 + n) ∷ [] else (48 + n % 10) ∷ rest

unfoldable pub decimal : ℕ → Str
unfolding low_digits
decimal n = reverse (low_digits (suc n) n)

-- "%0wd"
unfoldable pub padded : ℕ → ℕ → Str
padded w n = let d = decimal n in replicate (w - length d) 48 ++ d

-- The value of a hexadecimal digit; 16 for any other byte.
hex_value : ℕ → ℕ
hex_value c =
    if leb 48 c && leb c 57
    then c - 48
    else if leb 97 c && leb c 102
    then c - 87
    else if leb 65 c && leb c 70
    then c - 55
    else 16

-- `hex.DecodeString`: the bytes before the first fault, which it returns beside an error too.
unfoldable pub hex_prefix : Str → List ℕ
unfolding hex_value
hex_prefix [] = []
hex_prefix (a ∷ []) = []
hex_prefix (a ∷ b ∷ r) =
    let rest = hex_prefix r in
    if ltb (hex_value a) 16 && ltb (hex_value b) 16
    then (hex_value a * 16 + hex_value b) ∷ rest
    else []

-- Whether `hex.DecodeString` returns no error.
unfoldable pub hex_valid : Str → Bool
unfolding hex_value
hex_valid [] = true
hex_valid (a ∷ []) = false
hex_valid (a ∷ b ∷ r) = (ltb (hex_value a) 16 && ltb (hex_value b) 16) && hex_valid r

hex_digit : ℕ → ℕ
hex_digit v = if ltb v 10 then 48 + v else 87 + v

-- hex.EncodeToString
unfoldable pub hex_string : List ℕ → Str
unfolding hex_digit
hex_string [] = []
hex_string (b ∷ rest) = hex_digit (b / 16) ∷ hex_digit (b % 16) ∷ hex_string rest

-- strings.ReplaceAll(s, c, "") for one byte
unfoldable pub remove_char : ℕ → Str → Str
remove_char c [] = []
remove_char c (x ∷ xs) = let rest = remove_char c xs in if x == c then rest else x ∷ rest

-- strings.ReplaceAll(s, "0x", "")
unfoldable pub remove_0x : Str → Str
remove_0x [] = []
remove_0x (a ∷ []) = a ∷ []
remove_0x (a ∷ b ∷ r) = elim (a == 48 && b == 120) [
  | true ↦ remove_0x r
  | false ↦ a ∷ remove_0x (b ∷ r)
]

split_step : ℕ → ℕ → List Str → List Str
split_step c x [] = []
split_step c x (w ∷ ws) = if x == c then [] ∷ w ∷ ws else (x ∷ w) ∷ ws

-- strings.Split(s, c) for one byte: one more part than there are separators
unfoldable pub split : ℕ → Str → List Str
unfolding split_step
split c [] = [] ∷ []
split c (x ∷ xs) = split_step c x (split c xs)

trim_front : Str → Str
trim_front [] = []
trim_front (x ∷ xs) = let rest = trim_front xs in if x == 32 then rest else x ∷ xs

-- strings.Trim(s, " ")
unfoldable pub trim_spaces : Str → Str
unfolding trim_front
trim_spaces s = reverse (trim_front (reverse (trim_front s)))
