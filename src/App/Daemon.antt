-- ===== src/App/Daemon.antt =====
-- `dockerBackend` of internal/app/service_impl.go: plan or write Docker's daemon.json.
use cnftctl.Base.{
  ℕ, List, [], ◌∷◌, ◌++◌, Bool, true, false, not, Option, none, some, Text, codes, is_empty, Result,
  ok, err, if◌then◌else◌,
}
use cnftctl.Host.{
  Env, M, Error, ◌>>=◌, ◌>>◌, return, fail, try, deferring, message, refuse_if, is_not_exist,
  perform, ask_text, run_command, read_file, create_temp, write, chmod, sync, remove,
}
use cnftctl.Docker.{
  Json, EditPlan, DockerError, Backend, inspect, firewall_backend, plan_nftables_backend,
}
use cnftctl.Docker.Write.{closing, write_plan}
use cnftctl.App.Request.{Request, root_of, flag, bool_flag, first_non_empty}
use cnftctl.App.Path.{rooted, managed_path}

abbrev pub default_daemon_json : Text
default_daemon_json = codes "/etc/docker/daemon.json"

abbrev pub dockerd : Text
dockerd = codes "dockerd"

abbrev pub validate_args : Text → List Text
validate_args path = codes "--validate" ∷ (codes "--config-file=" ++ path) ∷ []

abbrev pub planned {ℓ} : {A : Type ℓ} → Result DockerError A → M A
planned (ok a) = return a
planned (err x) = fail (message "plan daemon.json")

-- What was read, and whether there was a file.
abbrev pub read_or_absent : Result Error Text → M (Text × Bool)
read_or_absent (ok text) = return (text, true)
read_or_absent (err x) = if is_not_exist x then return ([], false) else fail x

abbrev pub requested_path : Request → Text
requested_path req = first_non_empty (flag req (codes "daemon-json") ∷ default_daemon_json ∷ [])

module _ (e : Env) where
  unfoldable pub fill_candidate : Text → Text → M (Unit {0})
  fill_candidate file text = do
    perform e (chmod file 0o600)
    perform e (write file text)
    perform e (sync file)

  -- `validateDockerDaemonConfig`, with a runner.
  unfoldable pub validate_daemon : Text → M (Unit {0})
  unfolding fill_candidate
  validate_daemon text = do
    file ← ask_text e (create_temp [] (codes "cnftctl-daemon.*.json"))
    deferring
        (do
          closing e file (fill_candidate file text)
          r ← run_command e dockerd (validate_args file)
          refuse_if r.failed "docker daemon rejected proposed configuration; no file was written")
        (perform e (remove file))

  -- The validation is made on the live system only.
  unfoldable pub validate_live : Request → Text → M (Unit {0})
  unfolding validate_daemon
  validate_live req text = if is_empty (root_of req) then validate_daemon text else return tt

  unfoldable pub time_text : (ℕ → Text) → M Text
  time_text stamp t = (ok (stamp (e.clock t)), t)

  module _ (j : Json) where
    -- A plan that changes the document, once it may be written.
    unfoldable pub write_accepted : Request → EditPlan → M (Unit {0})
    unfolding validate_live
    write_accepted req plan = do
      refuse_if (not (bool_flag req (codes "yes")))
          "writing Docker daemon configuration requires --yes"
      validate_live req plan.after
      write_plan e j plan

    unfoldable pub finish_plan : Request → Bool → Text → EditPlan → M (Unit {0})
    unfolding write_accepted validate_live
    finish_plan req writing before plan =
        if not plan.changed
        then validate_live req before
        else if not writing
        then validate_live req plan.after
        else write_accepted req plan

    abbrev pub daemon_json : Request → Bool → M Text
    daemon_json req writing =
        if writing
        then managed_path e (root_of req) (requested_path req) true
        else return (rooted (root_of req) (requested_path req))

    -- `dockerBackend`; `stamp` is the format of the time in the name of a backup.
    unfoldable pub docker_backend : (ℕ → Text) → Request → Bool → M (Unit {0})
    unfolding finish_plan time_text
    docker_backend stamp req writing = do
      path ← daemon_json req writing
      r ← try (ask_text e (read_file path))
      before ← read_or_absent r
      now ← time_text stamp
      plan ← planned (plan_nftables_backend j path before.0 before.1 now)
      finish_plan req writing before.0 plan

    -- `inspectDockerBackend`, and `dockerStatus` that prints what it gives.
    abbrev pub named_backend : Backend → M (Option Text)
    named_backend Backend.absent = return none
    named_backend Backend.invalid = fail (message "daemon.json firewall-backend must be a string")
    named_backend (Backend.named s) = return (some s)

    unfoldable pub docker_status : Request → M (Option Text)
    docker_status req = do
      let path = rooted (root_of req) (requested_path req)
      r ← try (ask_text e (read_file path))
      before ← read_or_absent r
      cfg ← planned (inspect j path before.0)
      named_backend (firewall_backend cfg)
