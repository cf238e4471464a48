-- ===== src/App/Offline.antt =====
-- With an alternate root the commands run no other program.
use mathlib.Core.Path.{subst}
use cnftctl.Base.{
  ℕ, List, [], ◌∷◌, ◌++◌, Bool, true, false, ◌||◌, ◌&&◌, not, Option, none, some, Text, codes, eqb,
  is_empty, All, atoi, Result, ok, err, ◌≡◌, refl, sym, ◌∙◌, inl, inr, arith, Bool-cases,
}
use cnftctl.Base.Int.{ℤ}
use cnftctl.Host.{Env, M, Call, Error, message, is_not_exist, read_file, run}
use cnftctl.Host.Trace.{
  here, Only, only, Only-refuse_if, Only-bind, Only-try, Only-fail, Only-return, Only-if,
  Only-ask_text, Only-give,
}
use cnftctl.Host.Files.{AllowsFiles}
use cnftctl.Apply.Model.{Codec}
use cnftctl.Config
use cnftctl.Config.{Netip, validate}
use cnftctl.Config.File.{Yaml, save}
use cnftctl.Docker.{Json, EditPlan, DockerError, plan_nftables_backend}
use cnftctl.Docker.Calls.{Only-write_plan}
use cnftctl.Preset
use cnftctl.Whitelist
use cnftctl.App.Request.{Request, root_of, bool_flag, is_live, is_refused}
use cnftctl.App.Calls.{Only-managed_path, Only-edit, Only-write_config}
use cnftctl.App.Change.{Changed}
use cnftctl.App.Convert.{Texts}
use cnftctl.App.Edit.{
  usage, with_argument, with_arguments, numbered, edit, open_command, close_command, whitelist_add,
  whitelist_remove, ddns_enable, ddns_disable, ddns_add, ddns_remove, ddns_prefix, ssh_mode,
  feature,
}
use cnftctl.App.Daemon.{
  planned, read_or_absent, validate_live, time_text, write_accepted, finish_plan, docker_backend,
}
use cnftctl.App.Run.{
  Program, dropped, find_program, decoded, init_config, init_base, init_write, init, live_programs,
  file_programs, run_request,
}

abbrev pub IsOffline : Call → Type 0
IsOffline (run name args) = ⊥
IsOffline _ = Unit

files : AllowsFiles IsOffline
files = record {
  links = λ p. tt;
  stats = λ p. tt;
  dirs = λ p. tt;
  opens = λ p. tt;
  closes = λ p. tt;
  reads = λ p. tt;
  files = λ p. tt;
  temps = λ d p. tt;
  exclusives = λ p m. tt;
  writes = λ p s. tt;
  modes = λ p m. tt;
  owners = λ p u g. tt;
  syncs = λ p. tt;
  seeks = λ p. tt;
  removes = λ p. tt;
}

module _ {Q : Call → Type 0} where
  Only-usage {ℓ} : {A : Type ℓ} → Only Q (usage {A = A})
  Only-usage = Only-fail {x = message "usage"}

  Only-with_argument {ℓ} :
      {A : Type ℓ} {f : Text → M A} (args : List Text)
      → ((a : Text) → Only Q (f a))
      → Only Q (with_argument f args)
  Only-with_argument [] o = Only-usage
  Only-with_argument (a ∷ []) o = o a
  Only-with_argument (a ∷ b ∷ args) o = Only-usage

  Only-with_arguments {ℓ} :
      {A : Type ℓ} {f : Text → Text → M A} (args : List Text)
      → ((a b : Text) → Only Q (f a b))
      → Only Q (with_arguments f args)
  Only-with_arguments [] o = Only-usage
  Only-with_arguments (a ∷ []) o = Only-usage
  Only-with_arguments (a ∷ b ∷ []) o = o a b
  Only-with_arguments (a ∷ b ∷ c ∷ args) o = Only-usage

  Only-numbered {ℓ} :
      {A : Type ℓ} {f : ℤ → M A} (n : Option ℤ) → ((a : ℤ) → Only Q (f a)) → Only Q (numbered f n)
  Only-numbered none o = Only-fail {x = message "strconv.Atoi"}
  Only-numbered (some n) o = o n

  Only-dropped {ℓ} : {A : Type ℓ} {m : M A} → Only Q m → Only Q (dropped m)
  Only-dropped o = Only-bind o λ _. Only-return

  find_program-Only :
      (name : Text) (table : List (Text × Program)) {m : Program}
      → All (λ entry. Only Q (entry.1)) table
      → find_program name table ≡ some m
      → Only Q m
  unfolding find_program
  find_program-Only name [] a h = absurd (cc)
  find_program-Only name ((k, n) ∷ rest) a h = elim (Bool-cases (eqb name k)) [
    | inl same ↦ subst (Only Q) (some_injective (rw same at h)) a.0
    | inr other ↦ find_program-Only name rest a.1 (rw other at h)
  ]
    where
      some_injective : {x y : Program} → ◌≡◌ {A = Option Program} (some x) (some y) → x ≡ y
      some_injective p = cc

infixr 5 ◌▹◌
◌▹◌ {ℓ κ} : {A : Type ℓ} {B : Type κ} → A → B → A × B
a ▹ b = (a, b)

module _ (e : Env) (cip : Netip) (y : Yaml) where
  edits :
      (req : Request) (change : Config.Config → Changed) → Only IsOffline (edit e cip y req change)
  edits = Only-edit files e cip y (λ p q. tt)

  Only-open : (req : Request) → Only IsOffline (open_command e cip y req)
  unfolding open_command
  Only-open req = Only-with_arguments req.args λ a b. edits req _

  Only-close : (req : Request) → Only IsOffline (close_command e cip y req)
  unfolding close_command
  Only-close req = Only-with_arguments req.args λ a b. edits req _

  Only-ddns_enable : (req : Request) → Only IsOffline (ddns_enable e cip y req)
  unfolding ddns_enable
  Only-ddns_enable req = edits req _

  Only-ddns_disable : (req : Request) → Only IsOffline (ddns_disable e cip y req)
  unfolding ddns_disable
  Only-ddns_disable req = edits req _

  Only-ddns_add : (req : Request) → Only IsOffline (ddns_add e cip y req)
  unfolding ddns_add
  Only-ddns_add req = Only-with_argument req.args λ a. edits req _

  Only-ddns_remove : (req : Request) → Only IsOffline (ddns_remove e cip y req)
  unfolding ddns_remove
  Only-ddns_remove req = Only-with_argument req.args λ a. edits req _

  Only-ddns_prefix : (req : Request) → Only IsOffline (ddns_prefix e cip y req)
  unfolding ddns_prefix
  Only-ddns_prefix req = Only-with_argument req.args λ a. Only-numbered (atoi a) λ n. edits req _

  Only-ssh_mode :
      (req : Request) (mode : Text) (force : Bool)
      → Only IsOffline (ssh_mode e cip y req mode force)
  unfolding ssh_mode
  Only-ssh_mode req mode force = edits req _

  Only-feature : (req : Request) (enable : Bool) → Only IsOffline (feature e cip y req enable)
  unfolding feature
  Only-feature req enable = Only-with_argument req.args λ a. edits req _

  module _ (ip : Whitelist.Netip) (texts : Texts ip) where
    Only-whitelist_add : (req : Request) → Only IsOffline (whitelist_add e cip y ip texts req)
    unfolding whitelist_add
    Only-whitelist_add req = Only-with_argument req.args λ a. edits req _

    Only-whitelist_remove : (req : Request) → Only IsOffline (whitelist_remove e cip y ip texts req)
    unfolding whitelist_remove
    Only-whitelist_remove req = Only-with_argument req.args λ a. edits req _

    Only-decoded : (r : Result Preset.PresetError Config.Config) → Only IsOffline (decoded r)
    Only-decoded (ok cfg) = Only-return
    Only-decoded (err x) = Only-fail {x = message "decode preset"}

    module _ (j : Json) (presets : Preset.Codec) (stamp : ℕ → Text) (k : Codec) where
      Only-init_base :
          (req : Request) → Only IsOffline (init_base e k cip y ip texts j presets stamp req)
      unfolding init_base
      Only-init_base req = search (only, Only-decoded) depth 30

      Only-init_write :
          (req : Request) (cfg : Config.Config)
          → Only IsOffline (init_write e k cip y ip texts j presets stamp req cfg)
      unfolding init_write
      Only-init_write req cfg =
          Only-if (bool_flag req (codes "dry-run"))
            (Only-dropped (Only-give {r = save e cip y cfg}))
            (Only-bind (Only-refuse_if _ _)
              λ _. Only-write_config files e cip y (λ p q. tt) req cfg)

      Only-init : (req : Request) → Only IsOffline (init e k cip y ip texts j presets stamp req)
      unfolding init
      Only-init req =
          Only-bind (Only-init_base req)
            λ cfg. Only-bind (Only-refuse_if _ _) λ _. Only-init_write req (init_config req cfg)

      module _ (req : Request) (other : is_empty (root_of req) ≡ false) where
        Only-validate_live : (text : Text) → Only IsOffline (validate_live e req text)
        unfolding validate_live
        Only-validate_live text = rw other Only-return

        Only-write_accepted : (plan : EditPlan) → Only IsOffline (write_accepted e j req plan)
        unfolding write_accepted
        Only-write_accepted plan = Only-bind (Only-refuse_if _ _) λ _.
            Only-bind (Only-validate_live plan.after)
              λ _. Only-write_plan files e (λ p q. tt) j plan

        Only-finish_plan :
            (writing : Bool) (before : Text) (plan : EditPlan)
            → Only IsOffline (finish_plan e j req writing before plan)
        unfolding finish_plan
        Only-finish_plan writing before plan =
            Only-if (not plan.changed) (Only-validate_live before)
              (Only-if (not writing) (Only-validate_live plan.after) (Only-write_accepted plan))

        Only-read_or_absent : (r : Result Error Text) → Only IsOffline (read_or_absent r)
        Only-read_or_absent (ok text) = Only-return
        Only-read_or_absent (err x) = Only-if (is_not_exist x) Only-return (Only-fail {x = x})

        Only-time_text : Only IsOffline (time_text e stamp)
        unfolding time_text
        Only-time_text = record { added = λ t. here }

        Only-planned : (r : Result DockerError EditPlan) → Only IsOffline (planned r)
        Only-planned (ok plan) = Only-return
        Only-planned (err x) = Only-fail {x = message "plan daemon.json"}

        Only-docker_backend :
            (writing : Bool) → Only IsOffline (docker_backend e j stamp req writing)
        unfolding docker_backend
        Only-docker_backend writing =
            Only-bind (Only-if writing (Only-managed_path files e _ _ true) Only-return) λ path.
              Only-bind (Only-try (Only-ask_text e (read_file path) (tt {0}))) λ r.
                Only-bind (Only-read_or_absent r) λ before. Only-bind Only-time_text λ now.
                  Only-bind (Only-planned (plan_nftables_backend j path before.0 before.1 now))
                    λ plan. Only-finish_plan writing before.0 plan

        file_programs-Only :
            All
              (λ entry. Only IsOffline (entry.1))
              (file_programs e k cip y ip texts j presets stamp req)
        file_programs-Only =
            Only-init req
            ▹ Only-dropped (Only-open req)
            ▹ Only-dropped (Only-close req)
            ▹ Only-dropped (Only-whitelist_add req)
            ▹ Only-dropped (Only-whitelist_remove req)
            ▹ Only-dropped (Only-ddns_enable req)
            ▹ Only-dropped (Only-ddns_disable req)
            ▹ Only-dropped (Only-ddns_add req)
            ▹ Only-dropped (Only-ddns_remove req)
            ▹ Only-dropped (Only-ddns_prefix req)
            ▹ Only-dropped (Only-ssh_mode req _ _)
            ▹ Only-dropped (Only-ssh_mode req _ _)
            ▹ Only-dropped (Only-ssh_mode req _ _)
            ▹ Only-dropped (Only-feature req true)
            ▹ Only-dropped (Only-feature req false)
            ▹ Only-docker_backend false
            ▹ Only-docker_backend true
            ▹ tt

        -- A command that is not refused is none of those that act on the running system.
        allowed : is_refused req ≡ false → is_live req.command ≡ false
        unfolding is_refused
        allowed h = first_false (is_live req.command) _ (rw other at h)
          where
            first_false : (a b : Bool) → (true && (a || b)) ≡ false → a ≡ false
            first_false true b p = cc
            first_false false b p = refl

        not_live :
            is_live req.command ≡ false
            → find_program req.command (
                live_programs e k cip y ip texts j presets stamp req
                ++ file_programs e k cip y ip texts j presets stamp req)
              ≡ find_program req.command (file_programs e k cip y ip texts j presets stamp req)
        unfolding is_live find_program
        not_live h =
            let c = req.command in
            let q =
              parts (eqb c (codes "confirm")) (eqb c (codes "rollback")) (eqb c (codes "reconcile"))
                _ _ h in
            rw (q.0, q.1, q.2) refl
          where
            parts :
                (a b c d f : Bool)
                → (a || b || c || d || f) ≡ false
                → (a ≡ false) × (b ≡ false) × (c ≡ false)
            parts a b c d f p = ground arith

        -- With an alternate root the program behind a command, of those listed, runs no other program,
        -- neither `nft` nor `systemctl` nor `dockerd`, whatever the machine answers.
        pub run_request-Offline :
            {m : Program}
            → run_request e k cip y ip texts j presets stamp req ≡ some m
            → Only IsOffline m
        unfolding run_request
        run_request-Offline {m} h = elim (Bool-cases (is_refused req)) [
          | inl refused ↦
              subst (Only IsOffline) (some_injective (rw refused at h)) (Only-fail {x = _})
          | inr fine ↦
              find_program-Only req.command (file_programs e k cip y ip texts j presets stamp req)
                file_programs-Only (sym (not_live (allowed fine)) ∙ rw fine at h)
        ]
          where
            some_injective : {x y : Program} → ◌≡◌ {A = Option Program} (some x) (some y) → x ≡ y
            some_injective p = cc
