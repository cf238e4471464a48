-- ===== src/Base/Strings/Pattern.antt =====
-- The regular expressions of the program: fixed texts followed by a run of hexadecimal digits.
use Prim.Native.Nat.{ℕ, zero, suc, ◌+◌, ◌-◌}
use mathlib.Core.Bool.{Bool, ◌&&◌, ◌||◌}
use mathlib.Core.List.{List, [], ◌∷◌, ◌++◌}
use cnftctl.Base.Tests.{leb, ◌==◌, if◌then◌else◌}
use cnftctl.Base.Lists.{length, all}
use cnftctl.Base.Strings.Equality.{Text}
use cnftctl.Base.Strings.Search.{has_prefix}

-- `[a-f0-9]`
unfoldable pub is_hex : ℕ → Bool
is_hex c = (leb b'a' c && leb c b'f') || (leb b'0' c && leb c b'9')

-- `^[a-f0-9]{n}$`
unfoldable pub is_hex_text : ℕ → Text → Bool
unfolding is_hex
is_hex_text n s = length s == n && all is_hex s

abbrev pub take_text : ℕ → Text → Text
take_text zero s = []
take_text (suc n) [] = []
take_text (suc n) (c ∷ s) = c ∷ take_text n s

abbrev pub drop_text : ℕ → Text → Text
drop_text zero s = s
drop_text (suc n) [] = []
drop_text (suc n) (c ∷ s) = drop_text n s

-- Whether `prefix[a-f0-9]{64}` matches at the beginning of the text.
unfoldable pub starts_reference : Text → Text → Bool
unfolding is_hex_text has_prefix
starts_reference prefix s =
    has_prefix s prefix && is_hex_text 64 (take_text 64 (drop_text (length prefix) s))

-- `FindAllString` for `prefix[a-f0-9]{64}`, each match without its prefix. The first argument
-- counts the code points of a match that are still to be passed over.
unfoldable pub find_references : Text → ℕ → Text → List Text
unfolding starts_reference
find_references prefix k [] = []
find_references prefix (suc k) (c ∷ s) = find_references prefix k s
find_references prefix zero (c ∷ s) =
    let found =
      take_text 64 (drop_text (length prefix) (c ∷ s))
      ∷ find_references prefix (length prefix + 63) s in
    let missed = find_references prefix zero s in
    if starts_reference prefix (c ∷ s) then found else missed

-- `ReplaceAll` for `prefix[a-f0-9]{64}`.
unfoldable pub replace_references : Text → Text → ℕ → Text → Text
unfolding starts_reference
replace_references prefix new k [] = []
replace_references prefix new (suc k) (c ∷ s) = replace_references prefix new k s
replace_references prefix new zero (c ∷ s) =
    let found = new ++ replace_references prefix new (length prefix + 63) s in
    let missed = c ∷ replace_references prefix new zero s in
    if starts_reference prefix (c ∷ s) then found else missed

-- `bytes.ReplaceAll(s, old, new)` for a text `old` that is not empty.
unfoldable pub replace_all : Text → Text → ℕ → Text → Text
unfolding has_prefix
replace_all old new k [] = []
replace_all old new (suc k) (c ∷ s) = replace_all old new k s
replace_all old new zero (c ∷ s) =
    let found = new ++ replace_all old new (length old - 1) s in
    let missed = c ∷ replace_all old new zero s in if has_prefix (c ∷ s) old then found else missed
