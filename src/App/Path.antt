-- ===== src/App/Path.antt =====
-- `managedPath` of internal/app/service_impl.go: where a file below an alternate root is kept.
use cnftctl.Base.{
  List, [], ◌∷◌, Bool, true, ◌||◌, ◌&&◌, not, Option, none, some, Text, codes, eqb, is_empty, any,
  split, has_prefix, clean, join, join_path, dir, base, is_rooted, Result, ok, err, if◌then◌else◌,
}
use cnftctl.Host.{
  Env, M, Error, ◌>>=◌, ◌>>◌, return, fail, try, message, refuse_if, is_not_exist, perform,
  ask_text, eval_symlinks, mkdir_all,
}
use cnftctl.Durable.{trim_slash}

-- `rooted`
unfoldable pub rooted : Text → Text → Text
rooted root path = if is_empty root then path else join_path root (trim_slash (clean path))

unfoldable pub non_empty : List Text → List Text
non_empty [] = []
non_empty (p ∷ ps) = if is_empty p then non_empty ps else p ∷ non_empty ps

-- The elements of a path, in its clean form; the path "." has none.
unfoldable pub elements : Text → List Text
unfolding non_empty clean
elements path = if eqb (clean path) (codes ".") then [] else non_empty (split b'/' (clean path))

-- Two lists without what they begin with in common.
unfoldable pub strip_common : List Text → List Text → List Text × List Text
strip_common [] ts = ([], ts)
strip_common (b ∷ bs) [] = (b ∷ bs, [])
strip_common (b ∷ bs) (t ∷ ts) =
    let rest = strip_common bs ts in if eqb b t then rest else (b ∷ bs, t ∷ ts)

abbrev pub parents : List Text → List Text → List Text
parents [] ts = ts
parents (b ∷ bs) ts = codes ".." ∷ parents bs ts

abbrev pub or_here : List Text → Text
or_here [] = codes "."
or_here (p ∷ ps) = join (codes "/") (p ∷ ps)

abbrev pub relative : List Text × List Text → Text
relative (bs, ts) = or_here (parents bs ts)

-- `filepath.Rel`, between two absolute paths or two relative ones; `none` where one cannot be
-- reached from the other.
unfoldable pub rel : Text → Text → Option Text
unfolding strip_common elements
rel from to =
    if is_rooted from && not (is_rooted to) || not (is_rooted from) && is_rooted to
    then none
    else some (relative (strip_common (elements from) (elements to)))

-- `relErr != nil || within == ".." || strings.HasPrefix(within, "../")`
unfoldable pub is_outside : Option Text → Bool
is_outside none = true
is_outside (some w) = eqb w (codes "..") || has_prefix w (codes "../")

module _ (e : Env) where
  unfoldable pub check_target : Text → Result Error Text → M (Unit {0})
  check_target root_real (ok real) =
      refuse_if (is_outside (rel root_real real))
        "managed path escapes alternate root through a symlink"
  check_target root_real (err x) =
      if is_not_exist x then return tt else fail (message "resolve managed path")

  -- The checks of the two texts, before anything is resolved.
  unfoldable pub check_texts : Text → Text → M (Unit {0})
  check_texts root path = do
    refuse_if (not (is_rooted root) || not (is_rooted path))
        "alternate root and managed path must be absolute"
    refuse_if (any (λ c. eqb c (codes "..")) (split b'/' path))
        "managed path contains a parent traversal component"
    refuse_if
        (is_empty (trim_slash path)
          || eqb (trim_slash path) (codes ".")
          || has_prefix (trim_slash path) (codes "../")
          || eqb (trim_slash path) (codes ".."))
        "managed path escapes alternate root"

  abbrev pub parent_of : Text → Text → Text
  parent_of root_real path = join_path root_real (dir (trim_slash path))

  abbrev pub target_of : Text → Text → Text
  target_of parent_real path = join_path parent_real (base (trim_slash path))

  unfoldable pub resolve_parent : Text → Text → Bool → M Text
  resolve_parent root_real path create_parent = do
    if create_parent then perform e (mkdir_all (parent_of root_real path) 0o755) else return tt
    parent_real ← ask_text e (eval_symlinks (parent_of root_real path))
    refuse_if (is_outside (rel root_real parent_real))
        "managed path escapes alternate root through a symlink"
    return parent_real

  -- The path below a root that is not empty.
  unfoldable pub managed_below : Text → Text → Bool → M Text
  unfolding check_texts resolve_parent check_target
  managed_below root path create_parent = do
    check_texts root path
    root_real ← ask_text e (eval_symlinks (clean root))
    parent_real ← resolve_parent root_real path create_parent
    r ← try (ask_text e (eval_symlinks (target_of parent_real path)))
    check_target root_real r
    return (target_of parent_real path)

  -- `managedPath`
  unfoldable pub managed_path : Text → Text → Bool → M Text
  unfolding managed_below
  managed_path root path create_parent =
      if is_empty root then return path else managed_below root path create_parent
