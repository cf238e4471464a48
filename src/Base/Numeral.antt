-- ===== src/Base/Numeral.antt =====
-- The decimal numeral of a number, read back by `strconv.Atoi`, and what it holds no occurrence of.
use mathlib.Core.List.{reverse, reverse_aux, reverse-reverse}
use cnftctl.Base.{
  ℕ, zero, suc, ◌+◌, ◌-◌, ◌*◌, ◌/◌, ◌%◌, ◌^◌, ◌≤◌, ◌<◌, [], ◌∷◌, ◌++◌, false, some, ltb, leb, ◌==◌,
  ◌≡◌, refl, ap, ◌∙◌, Text, All, digits_from, digits, in_range, atoi, decimal_from, decimal,
  is_space, trim_left, trim_space, split_from, split, is_empty, arith, Bool-cases, inl, inr,
}
use cnftctl.Base.Int.{pos}

pub record IsDigit (c : ℕ) : Type 0 where
  pub low : b'0' ≤ c
  pub high : c ≤ b'9'

abbrev pub AllDigits : Text → Type 0
AllDigits = All IsDigit

digits_from-digit :
    (m d : ℕ) (s : Text) → d < 10 → digits_from m ((b'0' + d) ∷ s) ≡ digits_from (m * 10 + d) s
unfolding digits_from
digits_from-digit m d s h =
    let low : ltb (b'0' + d) b'0' ≡ false = ground arith in
    let high : ltb b'9' (b'0' + d) ≡ false = ground arith in
    let same : b'0' + d - b'0' ≡ d = omega arith in rw (low, high, same) refl

-- Fuel above the number is enough.
digits_from-decimal_from :
    (fuel n : ℕ) (acc : Text)
    → n < fuel
    → digits_from 0 (decimal_from fuel n acc) ≡ digits_from n acc
unfolding decimal_from
digits_from-decimal_from zero n acc h = absurd (omega arith)
digits_from-decimal_from (suc fuel) n acc h = elim (Bool-cases (ltb n 10)) [
  | inl small ↦
      let fits : n < 10 = ground arith in
      let same : 0 * 10 + n ≡ n = omega arith in
      rw small (digits_from-digit 0 n acc fits ∙ ap (λ k. digits_from k acc) same)
  | inr large ↦
      let big : 10 ≤ n = ground arith in
      let less : n / 10 < fuel = omega arith in
      let digit : n % 10 < 10 = omega arith in
      let whole : n / 10 * 10 + n % 10 ≡ n = omega arith in
      rw large (
        digits_from-decimal_from fuel (n / 10) ((b'0' + n % 10) ∷ acc) less
        ∙ digits_from-digit (n / 10) (n % 10) acc digit
        ∙ ap (λ k. digits_from k acc) whole)
]

IsDigit-add : (d : ℕ) → d < 10 → IsDigit (b'0' + d)
IsDigit-add d h = record { low = omega arith; high = omega arith }

decimal_from-AllDigits :
    (fuel n : ℕ) (acc : Text) → AllDigits acc → AllDigits (decimal_from fuel n acc)
unfolding decimal_from
decimal_from-AllDigits zero n acc h = h
decimal_from-AllDigits (suc fuel) n acc h = elim (Bool-cases (ltb n 10)) [
  | inl small ↦ let fits : n < 10 = ground arith in rw small (IsDigit-add n fits, h)
  | inr large ↦ rw large (
      decimal_from-AllDigits fuel (n / 10) ((b'0' + n % 10) ∷ acc)
        (IsDigit-add (n % 10) (omega arith), h))
]

decimal_from-is_full :
    (fuel n c : ℕ) (acc : Text) → is_empty (decimal_from fuel n (c ∷ acc)) ≡ false
unfolding decimal_from
decimal_from-is_full zero n c acc = refl
decimal_from-is_full (suc fuel) n c acc = elim (Bool-cases (ltb n 10)) [
  | inl small ↦ rw small refl
  | inr large ↦ rw large (decimal_from-is_full fuel (n / 10) (b'0' + n % 10) (c ∷ acc))
]

pub decimal-AllDigits : (n : ℕ) → AllDigits (decimal n)
unfolding decimal
decimal-AllDigits n = decimal_from-AllDigits (suc n) n [] tt

pub decimal-is_full : (n : ℕ) → is_empty (decimal n) ≡ false
unfolding decimal decimal_from
decimal-is_full n = elim (Bool-cases (ltb n 10)) [
  | inl small ↦ rw small refl
  | inr large ↦ rw large (decimal_from-is_full n (n / 10) (b'0' + n % 10) [])
]

atoi-AllDigits :
    (s : Text) → AllDigits s → is_empty s ≡ false → atoi s ≡ in_range false (digits_from 0 s)
unfolding atoi digits
atoi-AllDigits [] h full = absurd cc
atoi-AllDigits (c ∷ s) h full =
    let low : b'0' ≤ c = h.0.low in
    let plus : (c == b'+') ≡ false = ground arith in
    let minus : (c == b'-') ≡ false = ground arith in rw (plus, minus) refl

-- `strconv.Atoi` reads what `strconv.Itoa` writes.
pub atoi-decimal : (n : ℕ) → n < 2 ^ 63 → atoi (decimal n) ≡ some (pos n)
unfolding decimal in_range digits_from
atoi-decimal n h =
    let fits : leb (2 ^ 63) n ≡ false = ground arith in
    atoi-AllDigits (decimal n) (decimal-AllDigits n) (decimal-is_full n)
    ∙ ap (in_range false) (digits_from-decimal_from (suc n) n [] (omega arith))
    ∙ rw fits refl

-- A digit or a dash, or what stands between them.
pub record IsSolid (c : ℕ) : Type 0 where
  pub low : b'-' ≤ c
  pub high : c ≤ b'9'

abbrev pub AllSolid : Text → Type 0
AllSolid = All IsSolid

pub AllDigits-AllSolid : (s : Text) → AllDigits s → AllSolid s
AllDigits-AllSolid [] h = tt
AllDigits-AllSolid (c ∷ s) h =
    let low : b'0' ≤ c = h.0.low in
    (record { low = omega arith; high = h.0.high }, AllDigits-AllSolid s h.1)

AllSolid-reverse_aux : (s t : Text) → AllSolid s → AllSolid t → AllSolid (reverse_aux s t)
AllSolid-reverse_aux [] t hs ht = ht
AllSolid-reverse_aux (c ∷ s) t hs ht = AllSolid-reverse_aux s (c ∷ t) hs.1 (hs.0, ht)

trim_left-AllSolid : (s : Text) → AllSolid s → trim_left s ≡ s
unfolding trim_left is_space
trim_left-AllSolid [] h = refl
trim_left-AllSolid (c ∷ s) h =
    let low : b'-' ≤ c = h.0.low in let high : c ≤ b'9' = h.0.high in ground arith

pub trim_space-AllSolid : (s : Text) → AllSolid s → trim_space s ≡ s
unfolding trim_space
trim_space-AllSolid s h =
    ap (λ z. reverse (trim_left (reverse z))) (trim_left-AllSolid s h)
    ∙ ap reverse (trim_left-AllSolid (reverse s) (AllSolid-reverse_aux s [] h tt))
    ∙ reverse-reverse s

split_from-AllDigits :
    (part s : Text) → AllDigits s → split_from b'-' part s ≡ reverse_aux part s ∷ []
unfolding split_from
split_from-AllDigits part [] h = refl
split_from-AllDigits part (c ∷ s) h =
    let low : b'0' ≤ c = h.0.low in
    let other : (c == b'-') ≡ false = ground arith in
    rw other (split_from-AllDigits (c ∷ part) s h.1)

split_from-dash :
    (part s t : Text)
    → AllDigits s
    → split_from b'-' part (s ++ (b'-' ∷ t)) ≡ reverse_aux part s ∷ split_from b'-' [] t
unfolding split_from
split_from-dash part [] t h = refl
split_from-dash part (c ∷ s) t h =
    let low : b'0' ≤ c = h.0.low in
    let other : (c == b'-') ≡ false = ground arith in rw other (split_from-dash (c ∷ part) s t h.1)

-- A text without a dash is its only part, and two of them with a dash between are the two parts.
pub split-AllDigits : (s : Text) → AllDigits s → split b'-' s ≡ s ∷ []
unfolding split
split-AllDigits s h = split_from-AllDigits [] s h

pub split-dash :
    (s t : Text) → AllDigits s → AllDigits t → split b'-' (s ++ (b'-' ∷ t)) ≡ s ∷ t ∷ []
unfolding split
split-dash s t hs ht = split_from-dash [] s t hs ∙ ap (λ z. s ∷ z) (split_from-AllDigits [] t ht)
