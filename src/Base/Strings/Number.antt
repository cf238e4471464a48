-- ===== src/Base/Strings/Number.antt =====
-- `strconv.Atoi` and `strconv.Itoa`
use Prim.Native.Nat.{ℕ, zero, suc, ◌/◌, ◌%◌, ◌+◌, ◌-◌, ◌*◌, ◌^◌}
use mathlib.Core.Bool.{Bool, true, false, ◌||◌}
use mathlib.Core.Option.{Option, none, some}
use mathlib.Core.List.{[], ◌∷◌}
use cnftctl.Base.Tests.{leb, ltb, ◌==◌, if◌then◌else◌}
use cnftctl.Base.Int.{ℤ, pos, negsuc}
use cnftctl.Base.Strings.Equality.{Text}

-- The digits behind `n`; `none` at any other code point.
unfoldable pub digits_from : ℕ → Text → Option ℕ
digits_from n [] = some n
digits_from n (c ∷ s) =
    let rest = digits_from (n * 10 + (c - b'0')) s in
    if ltb c b'0' || ltb b'9' c then none else rest

-- One digit at least.
unfoldable pub digits : Text → Option ℕ
unfolding digits_from
digits [] = none
digits (c ∷ s) = digits_from 0 (c ∷ s)

unfoldable pub in_range : Bool → Option ℕ → Option ℤ
in_range minus none = none
in_range true (some n) =
    if ltb (2 ^ 63) n then none else if n == 0 then some (pos 0) else some (negsuc (n - 1))
in_range false (some n) = if leb (2 ^ 63) n then none else some (pos n)

-- An optional sign and decimal digits, within an `int` of 64 bits.
unfoldable pub atoi : Text → Option ℤ
unfolding digits in_range
atoi [] = none
atoi (c ∷ s) =
    if c == b'+'
    then in_range false (digits s)
    else if c == b'-'
    then in_range true (digits s)
    else in_range false (digits (c ∷ s))

-- The decimal digits of `n` before `acc`; `n + 1` steps are enough.
unfoldable pub decimal_from : ℕ → ℕ → Text → Text
decimal_from zero n acc = acc
decimal_from (suc fuel) n acc =
    let rest = decimal_from fuel (n / 10) ((b'0' + n % 10) ∷ acc) in
    if ltb n 10 then (b'0' + n) ∷ acc else rest

unfoldable pub decimal : ℕ → Text
unfolding decimal_from
decimal n = decimal_from (suc n) n []
