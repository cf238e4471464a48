-- ===== src/App/Request.antt =====
-- `CommandRequest` of internal/app/service.go. A Go map is a list of keys and values.
use cnftctl.Base.{
  List, [], ◌∷◌, ◌++◌, Bool, false, ◌||◌, ◌&&◌, not, Text, codes, eqb, is_empty, if◌then◌else◌,
}

pub record Request : Type 0 where
  pub command : Text
  pub args : List Text
  pub flags : List (Text × List Text)
  pub environment : List (Text × Text)

unfoldable pub values_of : Text → List (Text × List Text) → List Text
values_of name [] = []
values_of name ((k, vs) ∷ rest) =
    let found = values_of name rest in if eqb k name then vs else found

unfoldable pub last_value : List Text → Text
last_value [] = []
last_value (v ∷ []) = v
last_value (v ∷ w ∷ vs) = last_value (w ∷ vs)

-- `FlagValues`
unfoldable pub flag_values : Request → Text → List Text
unfolding values_of
flag_values req name = values_of name req.flags

-- `Flag`: the last value, or the empty text.
unfoldable pub flag : Request → Text → Text
unfolding values_of last_value
flag req name = last_value (values_of name req.flags)

-- `BoolFlag`
unfoldable pub bool_flag : Request → Text → Bool
unfolding flag
bool_flag req name = eqb (flag req name) (codes "true")

unfoldable pub variable_in : Text → List (Text × Text) → Text
variable_in name [] = []
variable_in name ((k, v) ∷ rest) =
    let found = variable_in name rest in if eqb k name then v else found

-- `req.Environment[name]`
unfoldable pub variable : Request → Text → Text
unfolding variable_in
variable req name = variable_in name req.environment

abbrev pub root_flag : Text
root_flag = codes "root"

unfoldable pub root_of : Request → Text
unfolding flag
root_of req = flag req root_flag

abbrev pub default_config_path : Text
default_config_path = codes "/etc/cnftctl/config.yaml"

-- `configPath`
unfoldable pub config_path : Request → Text
unfolding flag
config_path req =
    if is_empty (flag req (codes "config")) then default_config_path else flag req (codes "config")

-- `firstNonEmpty`
unfoldable pub first_non_empty : List Text → Text
first_non_empty [] = []
first_non_empty (v ∷ vs) = if is_empty v then first_non_empty vs else v

-- `appendUnique`
unfoldable pub has_value : Text → List Text → Bool
has_value v [] = false
has_value v (x ∷ xs) = eqb x v || has_value v xs

unfoldable pub append_unique : List Text → Text → List Text
unfolding has_value
append_unique values v = if has_value v values then values else values ++ v ∷ []

-- The commands that `validateExecutionMode` forbids with an alternate root.
unfoldable pub is_live : Text → Bool
is_live c =
    eqb c (codes "confirm")
    || eqb c (codes "rollback")
    || eqb c (codes "reconcile")
    || eqb c (codes "ddns refresh")
    || eqb c (codes "ddns timer status")

-- `validateExecutionMode`: whether the request is refused.
unfoldable pub is_refused : Request → Bool
unfolding is_live root_of bool_flag
is_refused req =
    not (is_empty (root_of req))
    && (is_live req.command
        || (eqb req.command (codes "apply") && not (bool_flag req (codes "dry-run"))))

-- The commands that `Run` of internal/app/service_impl.go knows.
abbrev pub commands : List Text
commands =
    codes "status"
    ∷ codes "config show"
    ∷ codes "init"
    ∷ codes "validate"
    ∷ codes "plan"
    ∷ codes "apply"
    ∷ codes "confirm"
    ∷ codes "rollback"
    ∷ codes "reconcile"
    ∷ codes "doctor"
    ∷ codes "transactions list"
    ∷ codes "open"
    ∷ codes "close"
    ∷ codes "ports list"
    ∷ codes "whitelist add"
    ∷ codes "whitelist remove"
    ∷ codes "whitelist list"
    ∷ codes "ddns enable"
    ∷ codes "ddns disable"
    ∷ codes "ddns add"
    ∷ codes "ddns remove"
    ∷ codes "ddns set-ipv6-prefix-len"
    ∷ codes "ddns refresh"
    ∷ codes "ddns status"
    ∷ codes "ddns timer status"
    ∷ codes "ssh-harden open"
    ∷ codes "ssh-harden whitelist-only"
    ∷ codes "ssh-harden whitelist-rate-limit"
    ∷ codes "feature enable"
    ∷ codes "feature disable"
    ∷ codes "docker status"
    ∷ codes "docker backend plan"
    ∷ codes "docker backend write"
    ∷ codes "adopt reference"
    ∷ codes "preset decode"
    ∷ codes "preset validate"
    ∷ codes "preset explain"
    ∷ []

unfoldable pub is_command : Text → Bool
unfolding has_value
is_command name = has_value name commands
