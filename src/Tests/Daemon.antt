-- ===== src/Tests/Daemon.antt =====
-- The theorems on Docker's daemon.json, applied to a plan on the example machine.
use cnftctl.Base.{
  List, [], ◌∷◌, true, some, Text, codes, ◌≡◌, ok, refl, Bool, false, Result, err, ◌⊎◌, inl, inr,
  eqb, arith, if◌then◌else◌, ◌++◌,
}
use cnftctl.Base
use cnftctl.Host.Guard.{IsGuarded}
use cnftctl.Docker.{Json, EditPlan, Value, DaemonConfig, inspect, plan_nftables_backend}
use cnftctl.Docker
use cnftctl.Docker.Write.{write_plan, backup_name, create_backup}
use cnftctl.Docker.Named.{IsFree, IsNamed, create_backup-IsNamed}
use cnftctl.Host.{Env, Call, OsError, open_exclusive, exist}
use cnftctl.Docker.Planned.{IsPlan, plan_nftables_backend-IsPlan}
use cnftctl.Docker.Staged.{NeedStaged, write_plan-IsGuarded}
use cnftctl.App.Request.{Request}
use cnftctl.App.Daemon.{docker_backend}
use cnftctl.App.Validated.{NeedAccepted, docker_backend-IsGuarded}
use cnftctl.Tests.Objects
use cnftctl.Tests.Objects.{counted, counted-IsKept, counted_full}
use cnftctl.Tests.Machine.{machine, old_generation}

abbrev debug_key : Text
debug_key = codes "debug"

-- A document that names another backend, with one key behind it.
abbrev before : Docker.Object
before =
    (Docker.backend_key, Value.string (codes "iptables"))
    ∷ (debug_key, Value.other (codes "true"))
    ∷ []

abbrev stamp : Text
stamp = codes "20260101T000000Z"

abbrev path : Text
path = codes "/etc/docker/daemon.json"

abbrev plan : EditPlan
plan =
    Docker.edited counted (record { path = path; values = before }) (counted.encode before) true
      stamp

write_plan-IsGuarded_example :
    IsGuarded (NeedStaged plan) (write_plan (machine old_generation) counted plan []).1
write_plan-IsGuarded_example = write_plan-IsGuarded (machine old_generation) counted plan

abbrev saved : Text
saved = codes "b"

-- The first name is taken, and any other is free.
abbrev taken_first : Bool → Result OsError (Unit {0})
taken_first true = err exist
taken_first false = ok tt

abbrev busy_at : Call → Result OsError (Unit {0})
busy_at (open_exclusive p m) = taken_first (eqb p saved)
busy_at _ = ok tt

abbrev busy : Env
busy = record (machine old_generation) { answer = λ t c. busy_at c }

taken_first_known : (b : Bool) → (taken_first b ≡ ok tt) ⊎ (taken_first b ≡ err exist)
taken_first_known true = inr refl
taken_first_known false = inl refl

second-IsFree : IsFree busy saved 0o600 1
unfolding eqb Base.decimal Base.decimal_from
second-IsFree = record {
  known = λ t k. taken_first_known (eqb (backup_name saved k) saved);
  free = λ t. refl;
}

create_backup-IsNamed_example : IsNamed saved 0 1 (create_backup busy 100 0 saved 0o600 []).0
create_backup-IsNamed_example =
    create_backup-IsNamed busy saved 0o600 100 0 1 [] second-IsFree (omega arith) (omega arith)

is_planned : plan_nftables_backend counted path (counted.encode before) true stamp ≡ ok plan
unfolding plan_nftables_backend inspect Docker.firewall_backend Docker.backend_of Docker.look_up
    Docker.plan_backend Docker.put Base.eqb Objects.encode_entries Objects.decode_entries
    Objects.split_at
is_planned = refl

plan_nftables_backend-IsPlan_example :
    (cfg : DaemonConfig) × (inspect counted path (counted.encode before) ≡ ok cfg)
    × IsPlan counted counted-IsKept counted_full cfg plan
plan_nftables_backend-IsPlan_example =
    plan_nftables_backend-IsPlan counted counted-IsKept counted_full path (counted.encode before)
      true stamp is_planned

abbrev request : Request
request = record {
  command = codes "docker backend write";
  args = [];
  flags = (codes "yes", codes "true" ∷ []) ∷ [];
  environment = [];
}

docker_backend-IsGuarded_example :
    IsGuarded
      (NeedAccepted (machine old_generation) counted request true)
      (docker_backend (machine old_generation) counted (λ t. stamp) request true []).1
docker_backend-IsGuarded_example =
    docker_backend-IsGuarded (machine old_generation) counted request true (λ t. stamp)
