-- ===== src/App/Run.antt =====
-- `Run` of internal/app/service_impl.go: the program behind the command of a request.
use cnftctl.Base.{
  ℕ, List, [], ◌∷◌, ◌++◌, Bool, true, false, not, Option, none, some, Text, codes, eqb, is_empty,
  Result, ok, err, if◌then◌else◌,
}
use cnftctl.Host.{Env, M, ◌>>=◌, ◌>>◌, return, fail, give, message, refuse_if, ask_text, read_file}
use cnftctl.Apply.Model.{Codec, transaction_root}
use cnftctl.Apply.Store.{pending, single_id}
use cnftctl.Apply.Run.{confirm, restore, reconcile}
use cnftctl.Config
use cnftctl.Config.{Netip, validate}
use cnftctl.Config.File.{Yaml, default, save}
use cnftctl.Docker.{Json}
use cnftctl.Features
use cnftctl.Preset
use cnftctl.Whitelist
use cnftctl.App.Request.{Request, root_of, flag, flag_values, bool_flag, is_refused, append_unique}
use cnftctl.App.Path.{rooted}
use cnftctl.App.Convert.{Texts}
use cnftctl.App.Edit.{
  write_config, open_command, close_command, whitelist_add, whitelist_remove, ddns_enable,
  ddns_disable, ddns_add, ddns_remove, ddns_prefix, ssh_mode, feature,
}
use cnftctl.App.Daemon.{docker_backend}

abbrev pub Program : Type 0
Program = M (Unit {0})

-- What a command prints is left out.
abbrev pub dropped {ℓ} : {A : Type ℓ} → M A → Program
dropped m = m >>= λ _. return tt

-- The argument of `confirm` and `rollback`, or the empty text.
unfoldable pub id_of : List Text → Text
id_of (a ∷ []) = a
id_of _ = []

unfoldable pub find_program : Text → List (Text × Program) → Option Program
find_program name [] = none
find_program name ((k, m) ∷ rest) =
    let found = find_program name rest in if eqb name k then some m else found

abbrev pub trust_one : Config.Config → Text → Config.Config
trust_one cfg name = record cfg {
  trusted = record (cfg.trusted) {
    enabled = true;
    interfaces = append_unique cfg.trusted.interfaces name;
  };
}

unfoldable pub trust_all : Config.Config → List Text → Config.Config
unfolding append_unique
trust_all cfg [] = cfg
trust_all cfg (name ∷ names) = trust_all (trust_one cfg name) names

abbrev pub with_ddns : Bool → Config.Config → Config.Config
with_ddns true cfg = record cfg {
  ssh = record (cfg.ssh) { ddns = record (cfg.ssh.ddns) { enabled = true } };
}
with_ddns false cfg = cfg

abbrev pub with_docker : Bool → Config.Config → Config.Config
with_docker true cfg = record cfg { docker = record (cfg.docker) { enabled = true } }
with_docker false cfg = cfg

abbrev pub with_wan : Text → Config.Config → Config.Config
with_wan wan cfg = if is_empty wan then cfg else record cfg { wan_interface = wan }

-- The configuration of `init`: the flags over the preset's, or over the default.
unfoldable pub init_config : Request → Config.Config → Config.Config
unfolding trust_all flag flag_values bool_flag
init_config req cfg = with_ddns (bool_flag req (codes "enable-ddns-whitelist")) (
    trust_all
      (with_docker (bool_flag req (codes "enable-docker"))
        (with_wan (flag req (codes "wan-interface")) cfg))
      (flag_values req (codes "trust-interface")))

abbrev pub decoded : Result Preset.PresetError Config.Config → M Config.Config
decoded (ok cfg) = return cfg
decoded (err x) = fail (message "decode preset")

module _ (e : Env) (k : Codec) (cip : Netip) (y : Yaml) where
  -- `confirm`
  unfoldable pub confirm_command : Request → Program
  unfolding id_of
  confirm_command req = dropped (confirm e k (root_of req) (id_of req.args))

  -- `rollback`
  unfoldable pub rollback_command : Request → Program
  unfolding id_of
  rollback_command req = do
    open_transactions ← pending e k (root_of req)
    id ←
        (if is_empty (id_of req.args)
          then single_id e k open_transactions
          else return (id_of req.args))
    restore e k (root_of req) (rooted (root_of req) (transaction_root ++ (codes "/" ++ id)))

  -- `reconcile`
  unfoldable pub reconcile_command : Request → Program
  reconcile_command req = reconcile e k (root_of req)

  module _ (ip : Whitelist.Netip) (texts : Texts ip) (j : Json) (presets : Preset.Codec)
      (stamp : ℕ → Text) where
    abbrev pub read_preset : Text → M Config.Config
    read_preset path = do
      text ← ask_text e (read_file path)
      decoded (Preset.decode_json e.lower cip presets text)

    unfoldable pub init_base : Request → M Config.Config
    init_base req =
        if not (is_empty (flag req (codes "preset")))
        then decoded (Preset.decode_string e.lower cip presets (flag req (codes "preset")))
        else if not (is_empty (flag req (codes "preset-file")))
        then read_preset (flag req (codes "preset-file"))
        else return default

    -- `init`; on a dry run the text is printed.
    unfoldable pub init_write : Request → Config.Config → Program
    init_write req cfg =
        if bool_flag req (codes "dry-run") then dropped (give (save e cip y cfg)) else (do
          refuse_if (not (bool_flag req (codes "yes")))
              "init writes desired config only after local review"
          write_config e cip y req cfg)

    unfoldable pub init : Request → Program
    unfolding init_base init_config init_write
    init req = do
      cfg ← init_base req
      refuse_if (not (is_empty (validate e.lower cip (init_config req cfg))))
          "configuration is not valid"
      init_write req (init_config req cfg)

    -- The commands that act on the running system.
    abbrev pub live_programs : Request → List (Text × Program)
    live_programs req =
        (codes "confirm", confirm_command req)
        ∷ (codes "rollback", rollback_command req)
        ∷ (codes "reconcile", reconcile_command req)
        ∷ []

    -- The commands that act on files.
    abbrev pub file_programs : Request → List (Text × Program)
    file_programs req =
        (codes "init", init req)
        ∷ (codes "open", dropped (open_command e cip y req))
        ∷ (codes "close", dropped (close_command e cip y req))
        ∷ (codes "whitelist add", dropped (whitelist_add e cip y ip texts req))
        ∷ (codes "whitelist remove", dropped (whitelist_remove e cip y ip texts req))
        ∷ (codes "ddns enable", dropped (ddns_enable e cip y req))
        ∷ (codes "ddns disable", dropped (ddns_disable e cip y req))
        ∷ (codes "ddns add", dropped (ddns_add e cip y req))
        ∷ (codes "ddns remove", dropped (ddns_remove e cip y req))
        ∷ (codes "ddns set-ipv6-prefix-len", dropped (ddns_prefix e cip y req))
        ∷ (codes "ssh-harden open", dropped (ssh_mode e cip y req Features.mode_open false))
        ∷ (
          codes "ssh-harden whitelist-only",
          dropped
              (ssh_mode e cip y req Features.mode_whitelist_only (bool_flag req (codes "force"))),
        )
        ∷ (
          codes "ssh-harden whitelist-rate-limit",
          dropped (ssh_mode e cip y req Features.mode_rate_limit (bool_flag req (codes "force"))),
        )
        ∷ (codes "feature enable", dropped (feature e cip y req true))
        ∷ (codes "feature disable", dropped (feature e cip y req false))
        ∷ (codes "docker backend plan", docker_backend e j stamp req false)
        ∷ (codes "docker backend write", docker_backend e j stamp req true)
        ∷ []

    -- `Run`, for the commands listed above; `none` for any other.
    unfoldable pub run_request : Request → Option Program
    unfolding find_program is_refused
    run_request req =
        if is_refused req
        then some (fail (message "unavailable with --root; alternate roots are strictly offline"))
        else find_program req.command (live_programs req ++ file_programs req)
