-- ===== src/Docker.antt =====
-- internal/docker/docker.go: the plan that sets Docker's firewall backend in daemon.json.
-- `encoding/json` at objects is the parameter `Json`; a Go map is a list of keys and values.
pub mod Write
pub mod Named
pub mod Calls
pub mod Planned
pub mod Staged
use cnftctl.Base.{
  ℕ, List, [], ◌∷◌, ◌++◌, Bool, true, false, ◌||◌, ◌&&◌, not, Option, none, some, Text, codes, eqb,
  is_empty, Result, ok, err, if◌then◌else◌, ◌>>=◌,
}

pub data DockerError : Type 0 where
  parse_failed backend_not_string backend_empty : DockerError

-- A value of an object: a string, or anything else as its JSON text.
pub data Value : Type 0 where
  string : Text → Value
  other : Text → Value

abbrev pub Object : Type 0
Object = List (Text × Value)

-- `decode` gives `none` for an error and `some none` for the document `null`.
pub record Json : Type 0 where
  pub encode : Object → Text
  pub decode : Text → Option (Option Object)

abbrev pub backend_key : Text
backend_key = codes "firewall-backend"

abbrev pub nftables : Text
nftables = codes "nftables"

-- `DaemonConfig`
pub record DaemonConfig : Type 0 where
  pub path : Text
  pub values : Object

-- `EditPlan`; the one warning there is, that Docker wants a restart, is present or not.
pub record EditPlan : Type 0 where
  pub path : Text
  pub backup_path : Text
  pub before : Text
  pub before_exists : Bool
  pub after : Text
  pub changed : Bool
  pub restart_required : Bool

-- `FirewallBackend`: what the key holds.
pub data Backend : Type 0 where
  absent invalid : Backend
  named : Text → Backend

-- The value of a key.
unfoldable pub look_up : Text → Object → Option Value
look_up k [] = none
look_up k ((q, v) ∷ o) = let rest = look_up k o in if eqb q k then some v else rest

-- `afterData[k] = v`
unfoldable pub put : Text → Value → Object → Object
put k v [] = (k, v) ∷ []
put k v ((q, w) ∷ o) = let rest = put k v o in if eqb q k then (q, v) ∷ o else (q, w) ∷ rest

unfoldable pub backend_of : Option Value → Backend
backend_of none = absent
backend_of (some (string s)) = named s
backend_of (some (other s)) = invalid

unfoldable pub firewall_backend : DaemonConfig → Backend
unfolding backend_of look_up
firewall_backend cfg = backend_of (look_up backend_key cfg.values)

abbrev pub decoded : Text → Option (Option Object) → Result DockerError DaemonConfig
decoded path none = err parse_failed
decoded path (some none) = ok (record { path = path; values = [] })
decoded path (some (some o)) = ok (record { path = path; values = o })

abbrev pub daemon_path : Text → Text
daemon_path path = if is_empty path then codes "/etc/docker/daemon.json" else path

module _ (j : Json) where
  -- `InspectDaemonJSON`
  unfoldable pub inspect : Text → Text → Result DockerError DaemonConfig
  inspect path text =
      if is_empty text
      then ok (record { path = daemon_path path; values = [] })
      else decoded (daemon_path path) (j.decode text)

  abbrev pub unchanged : DaemonConfig → Text → Bool → EditPlan
  unchanged cfg before exists = record {
    path = cfg.path;
    backup_path = [];
    before = before;
    before_exists = exists;
    after = [];
    changed = false;
    restart_required = false;
  }

  abbrev pub edited : DaemonConfig → Text → Bool → Text → EditPlan
  edited cfg before exists stamp = record {
    path = cfg.path;
    backup_path = cfg.path ++ (codes "." ++ (stamp ++ codes ".bak"));
    before = before;
    before_exists = exists;
    after = j.encode (put backend_key (string nftables) cfg.values);
    changed = true;
    restart_required = true;
  }

  unfoldable pub plan_backend :
      DaemonConfig → Text → Bool → Text → Backend → Result DockerError EditPlan
  plan_backend cfg before exists stamp invalid = err backend_not_string
  plan_backend cfg before exists stamp absent = ok (edited cfg before exists stamp)
  plan_backend cfg before exists stamp (named s) =
      if eqb s nftables
      then ok (unchanged cfg before exists)
      else if is_empty s
      then err backend_empty
      else ok (edited cfg before exists stamp)

  -- `PlanNftablesBackend`; the time is given as the text that names the backup.
  unfoldable pub plan_nftables_backend : Text → Text → Bool → Text → Result DockerError EditPlan
  unfolding inspect firewall_backend plan_backend put
  plan_nftables_backend path before exists stamp = do
    cfg ← inspect path before
    plan_backend cfg before exists stamp (firewall_backend cfg)
