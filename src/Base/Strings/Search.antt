-- ===== src/Base/Strings/Search.antt =====
-- `strings.TrimSpace`, `ToLower`, `Split`, `Contains` and their kin.
use Prim.Native.Nat.{ℕ, ◌+◌}
use mathlib.Core.Bool.{Bool, true, false, ◌&&◌, ◌||◌}
use mathlib.Core.List.{List, [], ◌∷◌, map, reverse}
use cnftctl.Base.Tests.{leb, ltb, ◌==◌, if◌then◌else◌}
use cnftctl.Base.Lists.{any}
use cnftctl.Base.Strings.Equality.{Text}

-- `unicode.IsSpace`
unfoldable pub is_space : ℕ → Bool
is_space c =
    (leb 9 c && leb c 13)
    || c == 32
    || c == 0x85
    || c == 0xa0
    || c == 0x1680
    || (leb 0x2000 c && leb c 0x200a)
    || c == 0x2028
    || c == 0x2029
    || c == 0x202f
    || c == 0x205f
    || c == 0x3000

-- `unicode.IsControl`
unfoldable pub is_control : ℕ → Bool
is_control c = ltb c 32 || (leb 127 c && leb c 159)

unfoldable pub trim_left : Text → Text
trim_left [] = []
trim_left (c ∷ s) = let rest = trim_left s in if is_space c then rest else c ∷ s

-- `strings.TrimSpace`
unfoldable pub trim_space : Text → Text
unfolding trim_left is_space
trim_space s = reverse (trim_left (reverse (trim_left s)))

unfoldable pub lower_rune : (ℕ → ℕ) → ℕ → ℕ
lower_rune lower c = if ltb c 128 then (if leb b'A' c && leb c b'Z' then c + 32 else c) else lower c

-- `strings.ToLower`
unfoldable pub to_lower : (ℕ → ℕ) → Text → Text
unfolding lower_rune
to_lower lower s = map (lower_rune lower) s

unfoldable pub has_prefix : Text → Text → Bool
has_prefix s [] = true
has_prefix [] (b ∷ p) = false
has_prefix (a ∷ s) (b ∷ p) = a == b && has_prefix s p

unfoldable pub has_suffix : Text → Text → Bool
unfolding has_prefix
has_suffix s p = has_prefix (reverse s) (reverse p)

-- `strings.Contains(s, p)`
unfoldable pub contains : Text → Text → Bool
unfolding has_prefix
contains [] p = has_prefix [] p
contains (c ∷ s) p = has_prefix (c ∷ s) p || contains s p

-- `strings.ContainsAny(s, chars)`
unfoldable pub contains_any : Text → Text → Bool
contains_any s chars = any (λ c. any (λ d. c == d) chars) s

-- `strings.Split(s, sep)` at a separator of one code point.
unfoldable pub split_from : ℕ → Text → Text → List Text
split_from sep part [] = reverse part ∷ []
split_from sep part (c ∷ s) =
    let closed = reverse part ∷ split_from sep [] s in
    let longer = split_from sep (c ∷ part) s in if c == sep then closed else longer

unfoldable pub split : ℕ → Text → List Text
unfolding split_from
split sep s = split_from sep [] s

-- `strings.TrimSuffix(s, ".")` and its kin, at a suffix of one code point.
unfoldable pub trim_suffix : ℕ → Text → Text
trim_suffix d [] = []
trim_suffix d (c ∷ []) = if c == d then [] else c ∷ []
trim_suffix d (c ∷ e ∷ s) = c ∷ trim_suffix d (e ∷ s)

-- `strings.Fields`: the parts between white space.
unfoldable pub field_before : Text → List Text → List Text
field_before [] fields = fields
field_before (c ∷ part) fields = reverse (c ∷ part) ∷ fields

unfoldable pub fields_from : Text → Text → List Text
unfolding field_before
fields_from part [] = field_before part []
fields_from part (c ∷ s) =
    let closed = field_before part (fields_from [] s) in
    let longer = fields_from (c ∷ part) s in if is_space c then closed else longer

unfoldable pub fields : Text → List Text
unfolding fields_from is_space
fields s = fields_from [] s
