-- ===== src/Prelude/Text.antt =====
-- Texts: equality as a decision, and the functions of Go's `strings` and `fmt` that the code uses.
use Prim.Native.Nat.{ℕ, zero, suc, ◌/◌, ◌%◌}
use Prim.Native.Char.{Char, code}
use Prim.Native.String.{String, ◌++◌}
use text.Mathlib.Text.{◌==◌ as str_eq}
use text.Mathlib.TextEquality.{eq_iff}
use mathlib.Core.Path.{◌≡◌, refl}
use mathlib.Core.Logic.{inl, inr}
use mathlib.Core.Bool.{Bool, true, false, ◌&&◌, ◌||◌}
use mathlib.Core.List.{List, [], ◌∷◌}
use native.Mathlib.Omega.{arith}
use demo_server.Prelude.Tests.{ltb, leb, ◌==◌, if◌then◌else◌, Bool-cases}

pub differ→ne : (s t : String) → str_eq s t ≡ false → ¬ (s ≡ t)
differ→ne s t h = λ e. ground (arith, eq_iff s t)

unfoldable pub string_discrete : Discrete String
unfolding Bool-cases
string_discrete s t = elim (Bool-cases (str_eq s t)) [
  | inl same ↦ yes ((eq_iff s t).0 same)
  | inr differ ↦ no (differ→ne s t differ)
]

abbrev pub is_empty : String → Bool
is_empty String.[] = true
is_empty (String.◌∷◌ c s) = false

-- unicode.IsSpace
is_space : Char → Bool
is_space c =
    let n = code c in
    (leb 9 n && leb n 13)
    || n == 32
    || n == 0x85
    || n == 0xa0
    || n == 0x1680
    || (leb 0x2000 n && leb n 0x200a)
    || n == 0x2028
    || n == 0x2029
    || n == 0x202f
    || n == 0x205f
    || n == 0x3000

trim_left : String → String
trim_left String.[] = String.[]
trim_left (String.◌∷◌ c s) = let rest = trim_left s in if is_space c then rest else String.◌∷◌ c s

-- Drops `c` when it is a space and nothing is left behind it.
abbrev cons_trimmed : Char → String → String
unfolding is_space
cons_trimmed c String.[] = if is_space c then String.[] else String.◌∷◌ c String.[]
cons_trimmed c (String.◌∷◌ d t) = String.◌∷◌ c (String.◌∷◌ d t)

trim_right : String → String
unfolding is_space
trim_right String.[] = String.[]
trim_right (String.◌∷◌ c s) = cons_trimmed c (trim_right s)

-- strings.TrimSpace
unfoldable pub trim_space : String → String
unfolding trim_left trim_right is_space
trim_space s = trim_right (trim_left s)

-- One digit of a number below 16, as %x and %d print it.
abbrev pub digit : ℕ → String
digit zero = "0"
digit (suc zero) = "1"
digit (suc (suc zero)) = "2"
digit (suc (suc (suc zero))) = "3"
digit (suc (suc (suc (suc zero)))) = "4"
digit (suc (suc (suc (suc (suc zero))))) = "5"
digit (suc (suc (suc (suc (suc (suc zero)))))) = "6"
digit (suc (suc (suc (suc (suc (suc (suc n))))))) =
    if n == 0
    then "7"
    else if n == 1
    then "8"
    else if n == 2
    then "9"
    else if n == 3
    then "a"
    else if n == 4
    then "b"
    else if n == 5
    then "c"
    else if n == 6
    then "d"
    else if n == 7
    then "e"
    else "f"

-- %d of a number with at most `fuel` digits.
unfoldable pub decimal_digits : ℕ → ℕ → String
decimal_digits zero n = ""
decimal_digits (suc fuel) n =
    let more = decimal_digits fuel (n / 10) in if ltb n 10 then digit n else more ++ digit (n % 10)

-- %d: 20 digits are enough for every 64-bit number.
unfoldable pub decimal : ℕ → String
unfolding decimal_digits
decimal n = decimal_digits 20 n

-- %x of a byte array.
unfoldable pub hex : List ℕ → String
hex [] = ""
hex (b ∷ bs) = digit (b / 16) ++ digit (b % 16) ++ hex bs

trim_space_test : trim_space "  a b " ≡ "a b"
unfolding trim_space
trim_space_test = refl

decimal_test : decimal 1024 ≡ "1024"
unfolding decimal
decimal_test = refl

hex_test : hex (0 ∷ 255 ∷ 26 ∷ []) ≡ "00ff1a"
unfolding hex
hex_test = refl
