-- ===== src/Cli/Reached.antt =====
-- Where `parse` ends in the tree of commands, and with what arguments.
use mathlib.Core.Path.{subst}
use cnftctl.Base.{
  ℕ, ◌≤◌, List, [], ◌∷◌, ◌++◌, Bool, true, false, ◌||◌, ◌&&◌, not, Option, none, some, Text, codes,
  eqb, is_empty, length, ltb, ok, err, >>=-eq-ok, ok-injective, ◌≡◌, refl, sym, ◌⊎◌, inl, inr,
  arith, Bool-cases, if◌then◌else◌,
}
use cnftctl.Cli.{
  CliError, Command, Commands, no_commands, also, use_of, args_of, children_of, handler_of, Parsed,
  find_child, add_flag, add_word, is_flag, parse_flag, step, parse_from, start, with_defaults,
  positional_arity, conflicts, is_reporting, has_children, is_bad_arity, asks_report,
  first_is_false, values, without_detail, check_command, finish_as, finish, parse, may_repeat,
  look_up_spec,
}

abbrev pub IsChild : Command → Commands → Type 0
IsChild d no_commands = ⊥
IsChild d (also c cs) = (d ≡ c) ⊎ IsChild d cs

-- The path leads from the root to the command, each word the name of a child.
pub data Reaches (root : Command) : List Text → Command → Type 0 where
  at_root : Reaches root (codes "cnftctl" ∷ []) root
  down :
      (p q : List Text) (c d : Command)
      → Reaches root p c
      → IsChild d (children_of c)
      → q ≡ p ++ (use_of d ∷ [])
      → Reaches root q d

find_child-IsChild :
    (name : Text) (cs : Commands) {d : Command} → find_child name cs ≡ some d → IsChild d cs
unfolding find_child
find_child-IsChild name no_commands h = absurd (cc)
find_child-IsChild name (also c cs) h = elim (Bool-cases (eqb (use_of c) name)) [
  | inl same ↦ inl (sym (some_injective (rw same at h)))
  | inr other ↦ inr (find_child-IsChild name cs (rw other at h))
]
  where
    some_injective : {x y : Command} → ◌≡◌ {A = Option Command} (some x) (some y) → x ≡ y
    some_injective p = cc

module _ (root : Command) where
  abbrev pub IsReached : Parsed → Type 0
  IsReached s = Reaches root s.path s.command

  add_word-IsReached :
      (s : Parsed) (arg : Text) (o : Option Command)
      → find_child arg (children_of s.command) ≡ o
      → IsReached s
      → IsReached (add_word root s arg o)
  add_word-IsReached s arg none h r = r
  add_word-IsReached s arg (some d) h r =
      Reaches.down s.path (s.path ++ (use_of d ∷ [])) s.command d r
        (find_child-IsChild arg (children_of s.command) h) refl

  add_flag-IsReached :
      (s : Parsed) (name value : Text) {t : Parsed}
      → add_flag s name value ≡ ok t
      → IsReached s
      → IsReached t
  unfolding add_flag
  add_flag-IsReached s name value h r =
      elim (Bool-cases
        (not (may_repeat (look_up_spec name s.known)) && not (is_empty (values name s.flags)))) [
          | inl again ↦ absurd (cc (rw again at h))
          | inr once ↦ subst IsReached (ok-injective (rw once at h)) r
        ]

  step-IsReached :
      (s : Parsed) (arg : Text) (rest : List Text) {p : Parsed × Bool}
      → step root s arg rest ≡ ok p
      → IsReached s
      → IsReached p.0
  unfolding step
  step-IsReached s arg rest h r = elim (Bool-cases (is_flag arg)) [
    | inl flagged ↦
        let (f, q, g) = >>=-eq-ok (parse_flag s.known arg rest) _ (rw flagged at h) in
        let (t, a, last) = >>=-eq-ok (add_flag s f.0 f.1) _ g in
        subst (λ z. IsReached z.0) (ok-injective last) (add_flag-IsReached s f.0 f.1 a r)
    | inr word ↦
        subst (λ z. IsReached z.0) (ok-injective (rw word at h))
          (add_word-IsReached s arg (find_child arg (children_of s.command)) refl r)
  ]

  parse_from-IsReached :
      (s : Parsed) (skip : Bool) (args : List Text) {t : Parsed}
      → parse_from root s skip args ≡ ok t
      → IsReached s
      → IsReached t
  unfolding parse_from
  parse_from-IsReached s skip [] h r = subst IsReached (ok-injective h) r
  parse_from-IsReached s true (arg ∷ rest) h r = parse_from-IsReached s false rest h r
  parse_from-IsReached s false (arg ∷ rest) h r = elim (Bool-cases (eqb arg (codes "--"))) [
    | inl last ↦ subst IsReached (ok-injective (rw last at h)) r
    | inr more ↦
        let (p, q, g) = >>=-eq-ok (step root s arg rest) _ (rw more at h) in
        parse_from-IsReached p.0 p.1 rest g (step-IsReached s arg rest q r)
  ]

-- The positional arguments fit the command: as many as it takes, and none where a child is wanted.
abbrev pub Fits : Command → List Text → Type 0
Fits c words =
    (has_children (children_of c) ≡ false
      → ((positional_arity (args_of c)).0 ≤ length words)
        × (length words ≤ (positional_arity (args_of c)).1))
    × (has_children (children_of c) ≡ true → words ≡ [])

abbrev pub FitsCommand : Parsed → Type 0
FitsCommand s = Fits s.command s.positionals

-- What a finished parse keeps of the one before it.
abbrev IsKept : Parsed → Parsed → Type 0
IsKept s t =
    (t.path ≡ s.path)
    × (t.command ≡ s.command)
    × (t.positionals ≡ s.positionals)
    × (t.version ≡ s.version)
    × (t.help ≡ s.help)

without_detail-IsKept : (s : Parsed) → IsKept s (without_detail s)
without_detail-IsKept s = elim (Bool-cases (first_is_false (values (codes "detail") s.flags))) [
  | inl b ↦ rw b (refl, refl, refl, refl, refl)
  | inr b ↦ rw b (refl, refl, refl, refl, refl)
]

none_left : {A : Type 0} (xs : List A) → is_empty xs ≡ true → xs ≡ []
none_left [] h = refl
none_left (x ∷ xs) h = absurd (cc)

arity_ok :
    (s : Parsed)
    → is_bad_arity s ≡ false
    → ((positional_arity (args_of s.command)).0 ≤ length s.positionals)
      × (length s.positionals ≤ (positional_arity (args_of s.command)).1)
unfolding is_bad_arity
arity_ok s h =
    bounds (length s.positionals) (positional_arity (args_of s.command)).0
      (positional_arity (args_of s.command)).1 h
  where
    bounds : (n a b : ℕ) → (ltb n a || ltb b n) ≡ false → (a ≤ n) × (n ≤ b)
    bounds n a b p = ground arith

fits :
    (s : Parsed)
    → (not (has_children (children_of s.command)) && is_bad_arity s) ≡ false
    → (has_children (children_of s.command) && not (is_empty s.positionals)) ≡ false
    → FitsCommand s
fits s a b = (
  λ leaf. arity_ok s (rw leaf at a),
  λ inner. none_left s.positionals (not_false (is_empty s.positionals) (rw inner at b)),
)
  where
    not_false : (c : Bool) → not c ≡ false → c ≡ true
    not_false true h = refl
    not_false false h = cc

check_command-Fits :
    (s : Parsed) {t : Parsed} → check_command s ≡ ok t → FitsCommand s × (t ≡ without_detail s)
unfolding check_command
check_command-Fits s h =
    elim (Bool-cases (not (has_children (children_of s.command)) && is_bad_arity s)) [
      | inl a ↦ absurd (cc (rw a at h))
      | inr a ↦ elim (Bool-cases (conflicts s.known s.flags [])) [
        | inl b ↦ absurd (cc (rw (a, b) at h))
        | inr b ↦
            elim (Bool-cases
              (has_children (children_of s.command) && not (is_empty s.positionals))) [
                | inl c ↦ absurd (cc (rw (a, b, c) at h))
                | inr c ↦
                    elim (Bool-cases (not (is_reporting (handler_of s.command)) && asks_report s)) [
                      | inl d ↦ absurd (cc (rw (a, b, c, d) at h))
                      | inr d ↦ (fits s a c, sym (ok-injective (rw (a, b, c, d) at h)))
                    ]
              ]
      ]
    ]

abbrev IsFinished : Parsed → Parsed → Type 0
IsFinished s t = IsKept s t × (t.version ≡ false → t.help ≡ false → FitsCommand s)

same-IsKept : (s : Parsed) → IsKept s s
same-IsKept s = (refl, refl, refl, refl, refl)

kept_or :
    (b : Bool) (x : CliError) (s : Parsed) {t : Parsed} → (if b then err x else ok s) ≡ ok t → s ≡ t
kept_or true x s h = absurd (cc)
kept_or false x s h = ok-injective h

finish_as-IsFinished :
    (v g : Bool) (s : Parsed)
    → s.version ≡ v
    → s.help ≡ g
    → {t : Parsed} → finish_as v g s ≡ ok t
    → IsFinished s t
unfolding finish_as
finish_as-IsFinished true g s hv hg h =
    subst (IsFinished s) (kept_or _ _ s h) (same-IsKept s, λ p q. absurd (cc))
finish_as-IsFinished false true s hv hg h =
    subst (IsFinished s) (kept_or _ _ s h) (same-IsKept s, λ p q. absurd (cc))
finish_as-IsFinished false false s hv hg h =
    let (f, same) = check_command-Fits s h in
    subst (IsFinished s) (sym same) (without_detail-IsKept s, λ _ _. f)

moved :
    (c d : Command) (words others : List Text)
    → d ≡ c
    → others ≡ words
    → Fits c words
    → Fits d others
moved c d words others p q f = subst (λ z. Fits z others) (sym p) (subst (λ z. Fits c z) (sym q) f)

path_moved :
    (root c d : Command) (p q : List Text) → d ≡ c → q ≡ p → Reaches root p c → Reaches root q d
path_moved root c d p q h k r =
    subst (λ z. Reaches root q z) (sym h) (subst (λ z. Reaches root z c) (sym k) r)

-- Where `parse` succeeds, the words of the path lead from the root of the tree to the command it
-- found, and without `--version` and `--help` the positional arguments fit: a command without
-- children has as many as it takes, and one with children has none.
pub parse-IsReached :
    (root : Command) (args : List Text) {r : Parsed}
    → parse root args ≡ ok r
    → Reaches root r.path r.command × (r.version ≡ false → r.help ≡ false → FitsCommand r)
unfolding parse finish
parse-IsReached root args {r} h =
    let (s, q, g) = >>=-eq-ok (parse_from root (start root) false args) _ h in
    let t : Parsed = record s { flags = with_defaults s.known s.flags } in
    let (kept, f) = finish_as-IsFinished t.version t.help t refl refl g in
    (
      path_moved root s.command r.command s.path r.path kept.1 kept.0
          (parse_from-IsReached root (start root) false args q Reaches.at_root),
      λ v e. moved s.command r.command s.positionals r.positionals kept.1 kept.2 (f v e),
    )
