-- ===== src/Cli.antt =====
-- internal/cli/runner.go: from the arguments of the process to a request. What is printed is left out,
-- and a Go map is a list of keys and values.
pub mod Model
pub mod Tree
pub mod Reached
pub mod Handled
pub use Model.*
use cnftctl.Base.{
  ℕ, zero, suc, ◌+◌, List, [], ◌∷◌, ◌++◌, Bool, true, false, ◌||◌, ◌&&◌, not, Option, none, some,
  Text, codes, eqb, is_empty, length, any, ltb, has_prefix, fields, trim_space, Result, ok, err,
  if◌then◌else◌, ◌==◌, ◌>>=◌,
}
use cnftctl.App.Request.{Request}

pub data CliError : Type 0 where
  unknown_flag flag_repeated bad_bool value_required version_alone bad_arity exclusive
        unknown_command not_reporting :
      CliError

abbrev pub Flags : Type 0
Flags = List (Text × List Text)

abbrev pub Known : Type 0
Known = List (Text × FlagSpec)

-- `parseResult`, with the flags that are known so far.
pub record Parsed : Type 0 where
  pub command : Command
  pub path : List Text
  pub flags : Flags
  pub positionals : List Text
  pub help : Bool
  pub version : Bool
  pub known : Known

-- `findChild`
unfoldable pub find_child : Text → Commands → Option Command
find_child name no_commands = none
find_child name (also c cs) =
    let found = find_child name cs in if eqb (use_of c) name then some c else found

unfoldable pub put_spec : Text → FlagSpec → Known → Known
put_spec k v [] = (k, v) ∷ []
put_spec k v ((q, w) ∷ known) =
    let rest = put_spec k v known in if eqb q k then (q, v) ∷ known else (q, w) ∷ rest

unfoldable pub add_specs : Known → List FlagSpec → Known
unfolding put_spec
add_specs known [] = known
add_specs known (s ∷ specs) =
    let named = put_spec s.name s known in
    add_specs (if is_empty s.short then named else put_spec s.short s named) specs

-- `collectFlags`; at the root there is no current command.
unfoldable pub collect_flags : Command → List FlagSpec → Known
unfolding add_specs
collect_flags root current = add_specs (add_specs [] (flags_of root)) current

unfoldable pub look_up_spec : Text → Known → Option FlagSpec
look_up_spec k [] = none
look_up_spec k ((q, w) ∷ known) =
    let rest = look_up_spec k known in if eqb q k then some w else rest

unfoldable pub values : Text → Flags → List Text
values k [] = []
values k ((q, vs) ∷ flags) = let rest = values k flags in if eqb q k then vs else rest

-- `flags[name] = append(flags[name], value)`
unfoldable pub append_value : Text → Text → Flags → Flags
append_value k v [] = (k, v ∷ []) ∷ []
append_value k v ((q, vs) ∷ flags) =
    let rest = append_value k v flags in
    if eqb q k then (q, vs ++ v ∷ []) ∷ flags else (q, vs) ∷ rest

unfoldable pub remove_key : Text → Flags → Flags
remove_key k [] = []
remove_key k ((q, vs) ∷ flags) =
    let rest = remove_key k flags in if eqb q k then rest else (q, vs) ∷ rest

-- `strings.Cut(s, "=")`: what stands before and behind.
unfoldable pub cut_equals : Text → Text → Text × Text
cut_equals acc [] = (acc, [])
cut_equals acc (c ∷ s) =
    let rest = cut_equals (acc ++ c ∷ []) s in if c == b'=' then (acc, s) else rest

-- The name and the value in one argument.
unfoldable pub name_value : Text → Text × Text
unfolding cut_equals
name_value (a ∷ b ∷ s) =
    if a == b'-' && b == b'-'
    then cut_equals [] s
    else if a == b'-'
    then (b ∷ s, [])
    else (a ∷ b ∷ s, [])
name_value (a ∷ []) = if a == b'-' then ([], []) else (a ∷ [], [])
name_value [] = ([], [])

abbrev pub bool_value : Text → Text
bool_value v = if is_empty v then codes "true" else v

-- The value of a flag that needs one, from the argument behind it.
unfoldable pub next_value : Text → List Text → Result CliError (Text × Text × Bool)
next_value name [] = err value_required
next_value name (v ∷ rest) =
    if has_prefix v (codes "-") then err value_required else ok (name, v, true)

unfoldable pub flag_value :
    Text → List Text → Option FlagSpec → Result CliError (Text × Text × Bool)
unfolding next_value
flag_value value rest none = err unknown_flag
flag_value value rest (some spec) =
    if spec.is_bool
    then if eqb (bool_value value) (codes "true") || eqb (bool_value value) (codes "false")
      then ok (spec.name, bool_value value, false)
      else err bad_bool
    else if not (is_empty value)
    then ok (spec.name, value, false)
    else next_value spec.name rest

-- `parseFlag`: the name, the value, and whether the next argument was the value.
unfoldable pub parse_flag : Known → Text → List Text → Result CliError (Text × Text × Bool)
unfolding name_value flag_value look_up_spec
parse_flag known arg rest =
    let (name, value) = name_value arg in flag_value value rest (look_up_spec name known)

abbrev pub may_repeat : Option FlagSpec → Bool
may_repeat none = false
may_repeat (some spec) = spec.repeats

unfoldable pub add_flag : Parsed → Text → Text → Result CliError Parsed
unfolding append_value values
add_flag s name value =
    if not (may_repeat (look_up_spec name s.known)) && not (is_empty (values name s.flags))
    then err flag_repeated
    else ok (record s {
      flags = append_value name value s.flags;
      help = if eqb name (codes "help") then eqb value (codes "true") else s.help;
      version =
          if not (eqb name (codes "help")) && eqb name (codes "version")
          then eqb value (codes "true")
          else s.version;
    })

abbrev pub add_word : Command → Parsed → Text → Option Command → Parsed
add_word root s arg none = record s { positionals = s.positionals ++ arg ∷ [] }
add_word root s arg (some child) = record s {
  command = child;
  path = s.path ++ use_of child ∷ [];
  known = collect_flags root (flags_of child);
}

unfoldable pub is_flag : Text → Bool
is_flag arg = has_prefix arg (codes "-") && not (eqb arg (codes "-"))

module _ (root : Command) where
  -- One round of the loop, and whether it took the next argument too.
  unfoldable pub step : Parsed → Text → List Text → Result CliError (Parsed × Bool)
  unfolding is_flag add_flag find_child collect_flags
  step s arg rest =
      if is_flag arg
      then (do
        (name, value, consumed) ← parse_flag s.known arg rest
        next ← add_flag s name value
        ok (next, consumed))
      else ok (add_word root s arg (find_child arg (children_of s.command)), false)

  -- The loop of `parse`; the Boolean says to skip the argument at the head.
  unfoldable pub parse_from : Parsed → Bool → List Text → Result CliError Parsed
  unfolding step
  parse_from s skip [] = ok s
  parse_from s true (arg ∷ rest) = parse_from s false rest
  parse_from s false (arg ∷ rest) =
      let next = (do (t, consumed) ← step s arg rest; parse_from t consumed rest) in
      if eqb arg (codes "--") then ok (record s { positionals = s.positionals ++ rest }) else next

  abbrev pub start : Parsed
  start = record {
    command = root;
    path = codes "cnftctl" ∷ [];
    flags = [];
    positionals = [];
    help = false;
    version = false;
    known = collect_flags root [];
  }

-- The defaults of the flags that have none of the values.
unfoldable pub with_defaults : Known → Flags → Flags
unfolding append_value values
with_defaults [] flags = flags
with_defaults ((q, spec) ∷ known) flags = with_defaults known (
    if not (is_empty spec.default) && is_empty (values spec.name flags)
    then append_value spec.name spec.default flags
    else flags)

unfoldable pub arity_of : List Text → ℕ → ℕ → ℕ × ℕ
arity_of [] least most = (least, most)
arity_of (field ∷ rest) least most =
    arity_of rest (if has_prefix field (codes "[") then least else least + 1) (most + 1)

-- `positionalArity`
unfoldable pub positional_arity : Text → ℕ × ℕ
unfolding arity_of
positional_arity args = if is_empty (trim_space args) then (0, 0) else arity_of (fields args) 0 0

abbrev pub other_in : Option Text → Text → Bool
other_in none name = false
other_in (some other) name = not (eqb other name)

unfoldable pub group_of : Text → List (Text × Text) → Option Text
group_of g [] = none
group_of g ((q, n) ∷ groups) = let rest = group_of g groups in if eqb q g then some n else rest

abbrev pub takes_part : FlagSpec → Flags → Bool
takes_part spec flags =
    not (is_empty spec.name)
    && not (is_empty spec.exclusive)
    && not (is_empty (values spec.name flags))

-- The loop over `groups`: whether two flags of one group are there.
unfoldable pub conflicts : Known → Flags → List (Text × Text) → Bool
unfolding values group_of
conflicts [] flags groups = false
conflicts ((q, spec) ∷ known) flags groups =
    let now = if takes_part spec flags then (spec.exclusive, spec.name) ∷ groups else groups in
    takes_part spec flags && other_in (group_of spec.exclusive groups) spec.name
    || conflicts known flags now

unfoldable pub is_reporting : Text → Bool
is_reporting h =
    eqb h (codes "status")
    || eqb h (codes "doctor")
    || eqb h (codes "validate")
    || eqb h (codes "plan")
    || eqb h (codes "transactions list")
    || eqb h (codes "ddns status")

abbrev pub has_children : Commands → Bool
has_children no_commands = false
has_children (also c cs) = true

unfoldable pub is_bad_arity : Parsed → Bool
unfolding positional_arity
is_bad_arity s =
    let (least, most) = positional_arity (args_of s.command) in
    ltb (length s.positionals) least || ltb most (length s.positionals)

unfoldable pub asks_report : Parsed → Bool
asks_report s =
    not (is_empty (values (codes "output") s.flags))
    || not (is_empty (values (codes "detail") s.flags))

abbrev pub first_is_false : List Text → Bool
first_is_false [] = false
first_is_false (v ∷ vs) = eqb v (codes "false")

abbrev pub without_detail : Parsed → Parsed
without_detail s =
    if first_is_false (values (codes "detail") s.flags)
    then record s { flags = remove_key (codes "detail") s.flags }
    else s

-- The checks of `parse` after its loop, without `--help` and `--version`.
unfoldable pub check_command : Parsed → Result CliError Parsed
unfolding is_bad_arity asks_report is_reporting conflicts remove_key values
check_command s =
    if not (has_children (children_of s.command)) && is_bad_arity s
    then err bad_arity
    else if conflicts s.known s.flags []
    then err exclusive
    else if has_children (children_of s.command) && not (is_empty s.positionals)
    then err unknown_command
    else if not (is_reporting (handler_of s.command)) && asks_report s
    then err not_reporting
    else ok (without_detail s)

-- The checks after the loop, with `--version` and `--help` as they were given.
unfoldable pub finish_as : Bool → Bool → Parsed → Result CliError Parsed
unfolding check_command
finish_as true help s =
    if not (is_empty s.positionals) || not (length s.path == 1) then err version_alone else ok s
finish_as false true s = if conflicts s.known s.flags [] then err exclusive else ok s
finish_as false false s = check_command s

unfoldable pub finish : Parsed → Result CliError Parsed
unfolding finish_as
finish s = finish_as s.version s.help s

-- `parse`
unfoldable pub parse : Command → List Text → Result CliError Parsed
unfolding parse_from with_defaults finish
parse root args = do
  s ← parse_from root (start root) false args
  finish (record s { flags = with_defaults s.known s.flags })

-- What the service's `Run` gives: no error, one on the state of the system, or another.
pub data Outcome : Type 0 where
  success unhealthy failure : Outcome

abbrev pub exit_code : Outcome → ℕ
exit_code success = 0
exit_code unhealthy = 1
exit_code failure = 2

-- The request of a parsed command line; the environment is what the two variables hold.
abbrev pub request_of : List (Text × Text) → Parsed → Request
request_of environment s = record {
  command = handler_of s.command;
  args = s.positionals;
  flags = s.flags;
  environment = environment;
}

-- `run`, once the arguments are parsed; the request is handed to the service.
unfoldable pub run_parsed : List (Text × Text) → (Request → Outcome) → Parsed → ℕ
run_parsed environment service s =
    if s.version || s.help || is_empty (handler_of s.command)
    then 0
    else exit_code (service (request_of environment s))

abbrev pub exit_parsed : List (Text × Text) → (Request → Outcome) → Result CliError Parsed → ℕ
exit_parsed environment service (err x) = 2
exit_parsed environment service (ok s) = run_parsed environment service s

-- `Run`: the exit status.
unfoldable pub run : Command → List (Text × Text) → (Request → Outcome) → List Text → ℕ
unfolding parse run_parsed
run root environment service args = exit_parsed environment service (parse root args)
