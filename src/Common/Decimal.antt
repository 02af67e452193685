-- ===== src/Common/Decimal.antt =====
-- Printing an unsigned integer in decimal, and reading it back.
use Prim.Native.Nat.{ℕ, zero, suc, ◌+◌, ◌-◌, ◌*◌, ◌/◌, ◌%◌, ◌<◌}
use mathlib.Core.Path.{◌≡◌, refl, ◌∙◌, ap}
use mathlib.Core.Logic.{◌≢◌, inl, inr}
use mathlib.Core.Bool.{Bool, true, false, ◌&&◌}
use mathlib.Core.List.{[], ◌∷◌, ◌++◌}
use mathlib.Core.Option.{some}
use native.Mathlib.Omega.{arith}
use samad_package_manager.Common.Tests.{ltb, if◌then◌else◌, Bool-cases}
use samad_package_manager.Common.Lists.{length, length-append}
use samad_package_manager.Common.Text.{Str, is_digit, digits_value, parse_unsigned}
use samad_package_manager.Common.Split.{has_char}

decimal_fuel : ℕ → ℕ → Str
decimal_fuel zero n = []
decimal_fuel (suc fuel) n =
    let front = decimal_fuel fuel (n / 10) in
    if ltb n 10 then (b'0' + n) ∷ [] else front ++ (b'0' + n % 10) ∷ []

-- The Display instance of the unsigned integer types.
unfoldable pub to_decimal : ℕ → Str
unfolding decimal_fuel
to_decimal n = decimal_fuel (suc n) n

abbrev pub all_digits : Str → Bool
all_digits [] = true
all_digits (c ∷ s) = is_digit c && all_digits s

all_digits-append :
    (a b : Str) → all_digits a ≡ true → all_digits b ≡ true → all_digits (a ++ b) ≡ true
all_digits-append [] b h k = k
all_digits-append (c ∷ a) b h k = ground (arith, all_digits-append a b)

digits_value-append :
    (n m d : ℕ) (s : Str)
    → digits_value n s ≡ some m
    → d < 10
    → digits_value n (s ++ (b'0' + d) ∷ []) ≡ some (m * 10 + d)
unfolding digits_value
digits_value-append n m d [] h k = ground arith
digits_value-append n m d (c ∷ s) h k =
    ground (arith, digits_value-append (n * 10 + (c - b'0')) m d s)

decimal_fuel-digits : (fuel n : ℕ) → all_digits (decimal_fuel fuel n) ≡ true
unfolding decimal_fuel
decimal_fuel-digits zero n = refl
decimal_fuel-digits (suc fuel) n = ground (
  arith,
  decimal_fuel-digits fuel (n / 10),
  all_digits-append (decimal_fuel fuel (n / 10)) ((b'0' + n % 10) ∷ []),
)

decimal_fuel-value : (fuel n : ℕ) → n < fuel → digits_value 0 (decimal_fuel fuel n) ≡ some n
unfolding decimal_fuel digits_value
decimal_fuel-value zero n h = elim h [ ]
decimal_fuel-value (suc fuel) n h = elim (Bool-cases (ltb n 10)) [
  | inl small ↦ rw small (ground arith)
  | inr large ↦ rw large (
      digits_value-append 0 (n / 10) (n % 10) (decimal_fuel fuel (n / 10))
        (decimal_fuel-value fuel (n / 10) (ground arith)) (omega arith)
      ∙ ap some (omega arith))
]

pub to_decimal-digits : (n : ℕ) → all_digits (to_decimal n) ≡ true
unfolding to_decimal
to_decimal-digits n = decimal_fuel-digits (suc n) n

digits-no_char : (p : ℕ) (s : Str) → is_digit p ≡ false → all_digits s ≡ true → has_char p s ≡ false
digits-no_char p [] h k = refl
digits-no_char p (c ∷ s) h k = ground (arith, digits-no_char p s)

-- A printed number has no character but digits.
pub to_decimal-no_char : (p n : ℕ) → is_digit p ≡ false → has_char p (to_decimal n) ≡ false
to_decimal-no_char p n h = digits-no_char p (to_decimal n) h (to_decimal-digits n)

decimal-ne-nil : (fuel n : ℕ) → decimal_fuel (suc fuel) n ≢ []
unfolding decimal_fuel
decimal-ne-nil fuel n e = elim (Bool-cases (ltb n 10)) [
  | inl small ↦ ground arith
  | inr large ↦
      let front : Str = decimal_fuel fuel (n / 10) in
      let last : Str = (b'0' + n % 10) ∷ [] in
      absurd (omega (arith, length-append front last, ap length (rw large at e)))
]

parse_digits :
    (limit n : ℕ) (s : Str)
    → all_digits s ≡ true
    → s ≢ []
    → digits_value 0 s ≡ some n
    → n < limit
    → parse_unsigned limit s ≡ some n
unfolding parse_unsigned
parse_digits limit n [] d e v h = absurd (e refl)
parse_digits limit n (c ∷ []) d e v h = ground (arith)
parse_digits limit n (c ∷ x ∷ s) d e v h = ground (arith)

-- Reading a printed number gives the number, where the type holds it.
pub parse_unsigned-to_decimal :
    (limit n : ℕ) → n < limit → parse_unsigned limit (to_decimal n) ≡ some n
unfolding to_decimal
parse_unsigned-to_decimal limit n h =
    parse_digits limit n _ (to_decimal-digits n) (decimal-ne-nil n n)
      (decimal_fuel-value (suc n) n (omega arith)) h
