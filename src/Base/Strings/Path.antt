-- ===== src/Base/Strings/Path.antt =====
-- `path/filepath` on slash-separated paths: `Clean`, `Join`, `Base` and `Dir`.
use mathlib.Core.Bool.{Bool, false, ◌||◌}
use mathlib.Core.List.{List, [], ◌∷◌, ◌++◌, reverse}
use cnftctl.Base.Tests.{◌==◌, if◌then◌else◌}
use cnftctl.Base.Lists.{is_empty}
use cnftctl.Base.Strings.Equality.{Text, codes, eqb}
use cnftctl.Base.Strings.Search.{split}

-- The elements with `sep` between them: `strings.Join`.
unfoldable pub join : Text → List Text → Text
join sep [] = []
join sep (s ∷ []) = s
join sep (s ∷ t ∷ rest) = s ++ (sep ++ join sep (t ∷ rest))

-- One element of a path on the stack of those before it, whose top is at the head.
unfoldable pub up : Bool → List Text → List Text
up rooted [] = if rooted then [] else codes ".." ∷ []
up rooted (top ∷ stack) = if eqb top (codes "..") then codes ".." ∷ top ∷ stack else stack

unfoldable pub clean_from : Bool → List Text → List Text → List Text
unfolding up
clean_from rooted stack [] = reverse stack
clean_from rooted stack (part ∷ parts) =
    clean_from rooted
      (if is_empty part || eqb part (codes ".")
        then stack
        else if eqb part (codes "..")
        then up rooted stack
        else part ∷ stack)
      parts

unfoldable pub is_rooted : Text → Bool
is_rooted [] = false
is_rooted (c ∷ s) = c == b'/'

-- `filepath.Clean`
unfoldable pub clean : Text → Text
unfolding clean_from is_rooted join split eqb
clean s =
    let body = join (codes "/") (clean_from (is_rooted s) [] (split b'/' s)) in
    if is_rooted s then b'/' ∷ body else if is_empty body then codes "." else body

-- `filepath.Join` of two elements; an empty one is left out.
unfoldable pub join_path : Text → Text → Text
unfolding clean
join_path [] [] = []
join_path [] (c ∷ s) = clean (c ∷ s)
join_path (c ∷ s) [] = clean (c ∷ s)
join_path (c ∷ s) (d ∷ t) = clean ((c ∷ s) ++ (b'/' ∷ d ∷ t))

-- The last element and what stands before it, from the elements in reverse.
unfoldable pub drop_slashes : Text → Text
drop_slashes [] = []
drop_slashes (c ∷ s) = let rest = drop_slashes s in if c == b'/' then rest else c ∷ s

unfoldable pub take_element : Text → Text → Text
take_element acc [] = acc
take_element acc (c ∷ s) = let rest = take_element (c ∷ acc) s in if c == b'/' then acc else rest

unfoldable pub drop_element : Text → Text
drop_element [] = []
drop_element (c ∷ s) = let rest = drop_element s in if c == b'/' then c ∷ s else rest

unfoldable pub base_of : Text → Text → Text
base_of [] [] = codes "."
base_of (c ∷ s) [] = codes "/"
base_of s (d ∷ t) = take_element [] (d ∷ t)

-- `filepath.Base`
unfoldable pub base : Text → Text
unfolding base_of drop_slashes take_element
base s = base_of s (drop_slashes (reverse s))

-- `filepath.Dir`
unfoldable pub dir : Text → Text
unfolding drop_element clean
dir s = clean (reverse (drop_element (reverse s)))
