-- ===== src/Prelude/Numbers.antt =====
-- strconv.ParseUint of base 10 and 64 bits, which reads back what strconv.FormatUint writes.
use Prim.Native.Nat.{ℕ, zero, suc, ◌+◌, ◌-◌, ◌*◌, ◌/◌, ◌%◌, ◌^◌, ◌<◌}
use Prim.Native.Char.{Char, code}
use Prim.Native.String.{String, ◌++◌}
use mathlib.Core.Path.{◌≡◌, refl, ap}
use mathlib.Core.Bool.{Bool, true, false, ◌&&◌}
use mathlib.Core.Option.{Option, none, some}
use text.Mathlib.TextLemmas.{append_assoc, cons-append, nil-append, append-nil}
use native.Mathlib.Omega.{arith}
use native.Mathlib.Decide.{dec_lt}
use demo_server.Prelude.Tests.{ltb, leb, ◌==◌, if◌then◌else◌}
use demo_server.Prelude.Text.{digit, decimal_digits, decimal, is_empty}

-- The digits that follow those that gave `n`; every other character is an error.
unfoldable pub digits_from : ℕ → String → Option ℕ
digits_from n String.[] = some n
digits_from n (String.◌∷◌ c s) =
    let rest = digits_from (n * 10 + (code c - 48)) s in
    if leb 48 (code c) && leb (code c) 57 then rest else none

abbrev below_64 : Option ℕ → Option ℕ
below_64 none = none
below_64 (some n) = if ltb n (2 ^ 64) then some n else none

unfoldable pub parse_uint : String → Option ℕ
unfolding digits_from
parse_uint s = if is_empty s then none else below_64 (digits_from 0 s)

cons-append_lem :
    (c : Char) (n d : ℕ) (t : String)
    → code c ≡ 48 + d
    → d < 10
    → digits_from n (String.◌∷◌ c "" ++ t) ≡ digits_from (n * 10 + d) t
unfolding digits_from
cons-append_lem c n d t e h =
    let value : code c - 48 ≡ d = omega (arith, e) in
    let above : leb 48 (code c) ≡ true = ground (arith, e) in
    let below : leb (code c) 57 ≡ true = ground (arith, e, h) in
    rw (cons-append c "" t, nil-append t, above, below, value) refl

digits_from-digit :
    (d n : ℕ) (t : String) → d < 10 → digits_from n (digit d ++ t) ≡ digits_from (n * 10 + d) t
digits_from-digit zero n t h = cons-append_lem "0" n 0 t refl (omega arith)
digits_from-digit (suc zero) n t h = cons-append_lem "1" n 1 t refl (omega arith)
digits_from-digit (suc (suc zero)) n t h = cons-append_lem "2" n 2 t refl (omega arith)
digits_from-digit (suc (suc (suc zero))) n t h = cons-append_lem "3" n 3 t refl (omega arith)
digits_from-digit (suc (suc (suc (suc zero)))) n t h = cons-append_lem "4" n 4 t refl (omega arith)
digits_from-digit (suc (suc (suc (suc (suc zero))))) n t h =
    cons-append_lem "5" n 5 t refl (omega arith)
digits_from-digit (suc (suc (suc (suc (suc (suc zero)))))) n t h =
    cons-append_lem "6" n 6 t refl (omega arith)
digits_from-digit (suc (suc (suc (suc (suc (suc (suc zero))))))) n t h =
    cons-append_lem "7" n 7 t refl (omega arith)
digits_from-digit (suc (suc (suc (suc (suc (suc (suc (suc zero)))))))) n t h =
    cons-append_lem "8" n 8 t refl (omega arith)
digits_from-digit (suc (suc (suc (suc (suc (suc (suc (suc (suc zero))))))))) n t h =
    cons-append_lem "9" n 9 t refl (omega arith)
digits_from-digit (suc (suc (suc (suc (suc (suc (suc (suc (suc (suc d)))))))))) n t h =
    absurd (omega (arith, h))

pub power_step : (fuel n : ℕ) → n < 10 ^ suc fuel → n / 10 < 10 ^ fuel
power_step fuel n h = omega (arith, h)

digits_from-decimal_digits :
    (fuel n : ℕ) (t : String)
    → n < 10 ^ fuel
    → digits_from 0 (decimal_digits fuel n ++ t) ≡ digits_from n t
unfolding decimal_digits
digits_from-decimal_digits zero n t h =
    rw (nil-append t) (ap (λ k. digits_from k t) (omega (arith, h)))
digits_from-decimal_digits (suc fuel) n t h = elim (dec_lt n 10) [
  | yes small ↦ ground (arith, digits_from-digit n 0 t small)
  | no large ↦ ground (
    arith,
    append_assoc (decimal_digits fuel (n / 10)) (digit (n % 10)) t,
    digits_from-decimal_digits fuel (n / 10) (digit (n % 10) ++ t) (power_step fuel n h),
    digits_from-digit (n % 10) (n / 10) t (omega arith),
  )
]

is_empty-append : (s t : String) → is_empty t ≡ false → is_empty (s ++ t) ≡ false
is_empty-append String.[] t h = rw (nil-append t) h
is_empty-append (String.◌∷◌ c s) t h = rw (cons-append c s t) refl

is_empty-if :
    (b : Bool) (s t : String)
    → is_empty s ≡ false
    → is_empty t ≡ false
    → is_empty (if b then s else t) ≡ false
is_empty-if true s t h k = h
is_empty-if false s t h k = k

is_empty-digit : (d : ℕ) → is_empty (digit d) ≡ false
is_empty-digit zero = refl
is_empty-digit (suc zero) = refl
is_empty-digit (suc (suc zero)) = refl
is_empty-digit (suc (suc (suc zero))) = refl
is_empty-digit (suc (suc (suc (suc zero)))) = refl
is_empty-digit (suc (suc (suc (suc (suc zero))))) = refl
is_empty-digit (suc (suc (suc (suc (suc (suc zero)))))) = refl
is_empty-digit (suc (suc (suc (suc (suc (suc (suc n))))))) = is_empty-if (n == 0) _ _ refl (
    is_empty-if (n == 1) _ _ refl (
      is_empty-if (n == 2) _ _ refl (
        is_empty-if (n == 3) _ _ refl (
          is_empty-if (n == 4) _ _ refl (
            is_empty-if (n == 5) _ _ refl
              (is_empty-if (n == 6) _ _ refl (is_empty-if (n == 7) _ _ refl refl)))))))

is_empty-decimal_digits : (fuel n : ℕ) → is_empty (decimal_digits (suc fuel) n) ≡ false
unfolding decimal_digits
is_empty-decimal_digits fuel n = ground (
  arith,
  is_empty-digit n,
  is_empty-append (decimal_digits fuel (n / 10)) (digit (n % 10)) (is_empty-digit (n % 10)),
)

-- ParseUint reads what FormatUint writes.
pub parse_uint-decimal : (n : ℕ) → n < 2 ^ 64 → parse_uint (decimal n) ≡ some n
unfolding parse_uint decimal digits_from
parse_uint-decimal n h =
    let read = digits_from-decimal_digits 20 n "" (omega (arith, h)) in
    let whole : digits_from 0 (decimal_digits 20 n) ≡ some n =
      rw (← append-nil (decimal_digits 20 n)) read in
    let small : ltb n (2 ^ 64) ≡ true = ground (arith, h) in
    rw (is_empty-decimal_digits 19 n, whole, small) refl
