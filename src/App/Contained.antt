-- ===== src/App/Contained.antt =====
-- A managed path stays below the alternate root.
use cnftctl.Base.{
  List, [], ◌∷◌, ◌++◌, Bool, true, false, ◌||◌, ◌&&◌, not, some, Text, codes, eqb, eqb_iff,
  is_empty, has_prefix, clean, join, is_rooted, Result, ok, err, ◌≡◌, ◌⊎◌, ◌∙◌, refl, ap, inl, inr,
  Bool-cases,
}
use cnftctl.Host.{
  OsError, Env, Call, Trace, Error, os_error, return, try, is_not_exist, ask_text, logged,
  eval_symlinks,
}
use cnftctl.Host.Hoare.{Post, Run, Run-bind, Run-mono, Post-ok}
use cnftctl.Host.Guard.{Always, Run-any, Run-given, Run-refuse_if}
use cnftctl.App.Path.{
  elements, strip_common, parents, or_here, relative, rel, is_outside, check_target, parent_of,
  target_of, resolve_parent, managed_below, managed_path,
}

-- The elements of the one path begin with those of the other.
abbrev pub IsWithin : Text → Text → Type 0
IsWithin root path = (below : List Text) × (elements path ≡ elements root ++ below)

stripped : (bs ts : List Text) → (strip_common bs ts).0 ≡ [] → ts ≡ bs ++ (strip_common bs ts).1
unfolding strip_common
stripped [] ts h = refl
stripped (b ∷ bs) [] h = absurd (cc)
stripped (b ∷ bs) (t ∷ ts) h = elim (Bool-cases (eqb b t)) [
  | inl same ↦ rw same (rw ((eqb_iff b t).0 same) (ap (λ l. t ∷ l) (stripped bs ts (rw same at h))))
  | inr other ↦ absurd (cc (rw other at h))
]

-- A relative path that begins with ".." is outside.
dots-is_outside : (ps : List Text) → is_outside (some (or_here (codes ".." ∷ ps))) ≡ true
unfolding is_outside join eqb has_prefix
dots-is_outside [] = refl
dots-is_outside (p ∷ ps) = refl

inside : (bs ts : List Text) → is_outside (some (relative (bs, ts))) ≡ false → bs ≡ []
inside [] ts h = refl
inside (b ∷ bs) ts h = absurd (cc (dots-is_outside (parents bs ts)))

not_outside : (from to : Text) → is_outside (rel from to) ≡ false → IsWithin from to
unfolding rel is_outside
not_outside from to h =
    split_on (is_rooted from && not (is_rooted to) || not (is_rooted from) && is_rooted to) refl
  where
    split_on :
        (b : Bool)
        → (is_rooted from && not (is_rooted to) || not (is_rooted from) && is_rooted to) ≡ b
        → IsWithin from to
    split_on true q = absurd (cc (rw q at h))
    split_on false q =
        let s = strip_common (elements from) (elements to) in
        (s.1, stripped (elements from) (elements to) (inside s.0 s.1 (rw q at h)))

module _ (e : Env) where
  -- The machine gave this text as the answer to the call.
  abbrev pub IsAnswer : Call → Text → Type 0
  IsAnswer c text = (u : Trace) × (e.content u c ≡ ok text)

  Post-IsAnswer :
      (c : Call) (t : Trace) (r : Result OsError Text)
      → e.content t c ≡ r
      → Post
          (λ a _. IsAnswer c a)
          (λ _. (u : Trace) × (x : OsError) × (e.content u c ≡ err x))
          (logged c r t)
  Post-IsAnswer c t (ok a) h = (t, h)
  Post-IsAnswer c t (err x) h = (t, x, h)

  Run-ask : (c : Call) → Run Always (ask_text e c) (λ a _. IsAnswer c a) Always
  unfolding ask_text
  Run-ask c =
      Run-mono (λ u h. h) (λ a u h. h) (λ u h. tt)
        (record { holds = λ t _. Post-IsAnswer c t (e.content t c) refl })

  -- What a target that exists resolves to is below the root; any other is not there yet.
  abbrev pub IsSettled : Text → Text → Type 0
  IsSettled root_real target =
      ((real : Text) × IsAnswer (eval_symlinks target) real × IsWithin root_real real)
      ⊎ ((u : Trace) × (e.content u (eval_symlinks target) ≡ err OsError.not_exist))

  pub record IsManaged (root path target : Text) : Type 0 where
    pub root_real : Text
    pub parent_real : Text
    pub resolved_root : IsAnswer (eval_symlinks (clean root)) root_real
    pub resolved_parent : IsAnswer (eval_symlinks (parent_of e root_real path)) parent_real
    pub within : IsWithin root_real parent_real
    pub target_lem : target ≡ target_of e parent_real path
    pub settled : IsSettled root_real target

  resolve_parent-Run :
      (root_real path : Text) (create_parent : Bool)
      → Run Always
          (resolve_parent e root_real path create_parent)
          (λ p _. IsAnswer (eval_symlinks (parent_of e root_real path)) p × IsWithin root_real p)
          Always
  unfolding resolve_parent
  resolve_parent-Run root_real path create_parent = Run-bind (Run-any _) λ _.
      Run-bind (Run-ask (eval_symlinks (parent_of e root_real path))) λ p. Run-given λ a.
        Run-bind
          (Run-refuse_if (is_outside (rel root_real p))
            "managed path escapes alternate root through a symlink")
          λ _. Run-given λ b. record { holds = λ t _. (a, not_outside root_real p b) }

  abbrev Tried : Call → Result Error Text → Type 0
  Tried c (ok real) = IsAnswer c real
  Tried c (err x) = (u : Trace) × (y : OsError) × (e.content u c ≡ err y) × (x ≡ os_error y)

  Post-Tried :
      (c : Call) (t : Trace) (r : Result OsError Text)
      → e.content t c ≡ r
      → Post (λ a _. Tried c a) Always (try (λ u. logged c r u) t)
  Post-Tried c t (ok a) h = (t, h)
  Post-Tried c t (err x) h = (t, x, h, refl)

  Run-Tried : (c : Call) → Run Always (try (ask_text e c)) (λ r _. Tried c r) Always
  unfolding ask_text
  Run-Tried c = record { holds = λ t _. Post-Tried c t (e.content t c) refl }

  absent : (y : OsError) → is_not_exist (os_error y) ≡ true → y ≡ OsError.not_exist
  unfolding is_not_exist
  absent OsError.not_exist h = refl
  absent OsError.exist h = absurd (cc)
  absent OsError.other h = absurd (cc)

  check_target-Run :
      (root_real target : Text) (r : Result Error Text)
      → Tried (eval_symlinks target) r
      → Run Always (check_target e root_real r) (λ _ _. IsSettled root_real target) Always
  unfolding check_target
  check_target-Run root_real target (ok real) a =
      Run-mono (λ u h. h) (λ _ u h. inl (real, a, not_outside root_real real h)) (λ u h. h)
        (Run-refuse_if (is_outside (rel root_real real))
          "managed path escapes alternate root through a symlink")
  check_target-Run root_real target (err x) (u, y, h, same) = elim (Bool-cases (is_not_exist x)) [
    | inl gone ↦
        rw gone (record { holds = λ t _. inr (u, h ∙ ap err (absent y (rw same at gone))) })
    | inr other ↦ rw other (record { holds = λ t _. tt })
  ]

  managed_below-Run :
      (root path : Text) (create_parent : Bool)
      → Run Always
          (managed_below e root path create_parent)
          (λ target _. IsManaged root path target)
          Always
  unfolding managed_below
  managed_below-Run root path create_parent = Run-bind (Run-any _) λ _.
      Run-bind (Run-ask (eval_symlinks (clean root))) λ root_real. Run-given λ a.
        Run-bind (resolve_parent-Run root_real path create_parent) λ parent_real. Run-given λ b.
          Run-bind (Run-Tried (eval_symlinks (target_of e parent_real path))) λ r. Run-given λ c.
            Run-bind {f = λ _. return (target_of e parent_real path)}
              (check_target-Run root_real (target_of e parent_real path) r c)
              λ _. record {
                holds = λ t s. record {
                  root_real = root_real;
                  parent_real = parent_real;
                  resolved_root = a;
                  resolved_parent = b.0;
                  within = b.1;
                  target_lem = refl;
                  settled = s;
                };
              }

  -- With an alternate root, a path that `managedPath` gives is a name in a directory whose resolved
  -- path begins with the elements of the resolved root, and what the path itself resolved to, if it
  -- was there, begins with them too.
  pub managed_path-IsManaged :
      (root path : Text) (create_parent : Bool) (t : Trace) {target : Text}
      → is_empty root ≡ false
      → (managed_path e root path create_parent t).0 ≡ ok target
      → IsManaged root path target
  unfolding managed_path
  managed_path-IsManaged root path create_parent t below h =
      Post-ok (λ target _. IsManaged root path target) Always
        (managed_below e root path create_parent t)
        ((managed_below-Run root path create_parent).holds t tt) (rw below at h)
