-- ===== src/Base/Decimal.antt =====
-- Decimal text as bytes, and `std::stol` on a text of digits.
use Prim.Native.Nat.{ℕ, zero, suc, ◌+◌, ◌-◌, ◌*◌, ◌^◌, ◌≤◌, ◌<◌}
use mathlib.Core.Path.{◌≡◌, refl}
use mathlib.Core.Bool.{Bool, true, false, ◌&&◌}
use mathlib.Core.List.{List, [], ◌∷◌}
use mathlib.Core.Option.{Option, none, some}
use native.Mathlib.Omega.{arith}
use kcp_proxy_cpp.Base.Tests.{if◌then◌else◌, ◌==◌, leb}
use kcp_proxy_cpp.Base.Lists.{length}
use kcp_proxy_cpp.Base.Parsing.{has_char}

abbrev pub is_digit : ℕ → Bool
is_digit c = leb b'0' c && leb c b'9'

abbrev pub all_digits : List ℕ → Bool
all_digits [] = true
all_digits (c ∷ cs) = is_digit c && all_digits cs

-- `find_first_not_of('0')`, as the text from there on.
abbrev pub skip_zeros : List ℕ → List ℕ
skip_zeros [] = []
skip_zeros (c ∷ cs) = if c == b'0' then skip_zeros cs else c ∷ cs

abbrev pub value_from : ℕ → List ℕ → ℕ
value_from acc [] = acc
value_from acc (c ∷ cs) = value_from (acc * 10 + (c - b'0')) cs

-- The largest `long` of the narrowest platform, Windows.
abbrev pub long_max : ℕ
long_max = 2 ^ 31 - 1

-- `std::stol` on digits; `none` is the `std::out_of_range` that it throws.
pub stol : List ℕ → Option ℕ
stol cs = if leb (value_from 0 cs) long_max then some (value_from 0 cs) else none

value-skip_zeros : (cs : List ℕ) → value_from 0 (skip_zeros cs) ≡ value_from 0 cs
value-skip_zeros [] = refl
value-skip_zeros (c ∷ cs) = ground (arith, value-skip_zeros cs)

skip_zeros-digits : (cs : List ℕ) → all_digits cs ≡ true → all_digits (skip_zeros cs) ≡ true
skip_zeros-digits [] d = refl
skip_zeros-digits (c ∷ cs) d = ground (arith, skip_zeros-digits cs)

abbrev pow10 : ℕ → ℕ
pow10 zero = 1
pow10 (suc n) = 10 * pow10 n

pow10-le : (n m : ℕ) → n ≤ m → pow10 n ≤ pow10 m
pow10-le zero zero h = omega arith
pow10-le zero (suc m) h = omega (arith, pow10-le zero m (omega arith))
pow10-le (suc n) zero h = absurd (omega arith)
pow10-le (suc n) (suc m) h = omega (arith, pow10-le n m (omega arith))

value-lt-pow10 :
    (acc : ℕ) (cs : List ℕ)
    → all_digits cs ≡ true
    → value_from acc cs < (acc + 1) * pow10 (length cs)
value-lt-pow10 acc [] d = omega arith
value-lt-pow10 acc (c ∷ cs) d =
    let low : c - b'0' ≤ 9 = ground arith in
    let rest : value_from (acc * 10 + (c - b'0')) cs
        < (acc * 10 + (c - b'0') + 1) * pow10 (length cs) =
      value-lt-pow10 (acc * 10 + (c - b'0')) cs (ground arith) in
    step (c - b'0') (pow10 (length cs)) low rest
  where
    step :
        (k q : ℕ)
        → k ≤ 9
        → value_from (acc * 10 + k) cs < (acc * 10 + k + 1) * q
        → value_from (acc * 10 + k) cs < (acc + 1) * (10 * q)
    step k q low rest = grind arith

-- At most three digits behind the leading zeros stay below 1000; five digits, below 100000.
pub value-lt_three :
    (cs : List ℕ) → all_digits cs ≡ true → length (skip_zeros cs) ≤ 3 → value_from 0 cs < 1000
value-lt_three cs d h = omega (
  arith,
  value-skip_zeros cs,
  value-lt-pow10 0 (skip_zeros cs) (skip_zeros-digits cs d),
  pow10-le (length (skip_zeros cs)) 3 h,
)

pub value-lt_five : (cs : List ℕ) → all_digits cs ≡ true → length cs ≤ 5 → value_from 0 cs < 100000
value-lt_five cs d h = omega (arith, value-lt-pow10 0 cs d, pow10-le (length cs) 5 h)

-- A text whose value is in range converts.
pub stol_in_range : (cs : List ℕ) → value_from 0 cs ≤ long_max → stol cs ≡ some (value_from 0 cs)
unfolding stol
stol_in_range cs h = ground arith

-- Digits hold no colon.
pub no_colon : (cs : List ℕ) → all_digits cs ≡ true → has_char b':' cs ≡ false
no_colon [] h = refl
no_colon (c ∷ cs) h = ground (arith, no_colon cs)
