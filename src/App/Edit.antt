-- ===== src/App/Edit.antt =====
-- The commands of internal/app/service_impl.go that edit the configuration file. What they print is
-- left out, but for the Boolean that they print as `changed`.
use cnftctl.Base.{
  List, [], ◌∷◌, Bool, true, false, Option, none, some, Text, codes, eqb, atoi, Result, ok, err,
  if◌then◌else◌,
}
use cnftctl.Base.Int.{ℤ}
use cnftctl.Host.{Env, M, Error, ◌>>=◌, ◌>>◌, return, fail, give, try, message, ask_text, read_file}
use cnftctl.Config
use cnftctl.Config.File.{Yaml, canonicalize, save, load_file, save_file}
use cnftctl.Whitelist
use cnftctl.App.Request.{Request, root_of, flag, flag_values, bool_flag, config_path}
use cnftctl.App.Path.{managed_path}
use cnftctl.App.Convert.{Texts}
use cnftctl.App.Change.{
  Changed, open_change, close_change, whitelist_add_change, whitelist_remove_change,
  ddns_enable_change, ddns_disable_change, ddns_add_change, ddns_remove_change, ddns_prefix_change,
  ssh_mode_change, feature_change,
}

-- The error of a component; its text is left out.
abbrev pub edited : Changed → M (Config.Config × Bool)
edited (ok r) = return r
edited (err x) = fail (message "the change was refused")

abbrev pub is_text : Text → Result Error Text → Bool
is_text text (ok s) = eqb s text
is_text text (err x) = false

abbrev pub usage {ℓ} : {A : Type ℓ} → M A
usage = fail (message "usage")

-- A command with one argument, and one with two.
abbrev pub with_argument {ℓ} : {A : Type ℓ} → (Text → M A) → List Text → M A
with_argument f (a ∷ []) = f a
with_argument f _ = usage

abbrev pub with_arguments {ℓ} : {A : Type ℓ} → (Text → Text → M A) → List Text → M A
with_arguments f (a ∷ b ∷ []) = f a b
with_arguments f _ = usage

abbrev pub numbered {ℓ} : {A : Type ℓ} → (ℤ → M A) → Option ℤ → M A
numbered f none = fail (message "strconv.Atoi")
numbered f (some n) = f n

module _ (e : Env) (cip : Config.Netip) (y : Yaml) where
  -- `loadConfig`
  unfoldable pub load_config : Request → M Config.Config
  load_config req = do
    path ← managed_path e (root_of req) (config_path req) false
    load_file e cip y path

  -- `writeConfig`. `Save` brings the lists of the caller's configuration into canonical form.
  unfoldable pub write_config : Request → Config.Config → M (Unit {0})
  write_config req cfg = do
    path ← managed_path e (root_of req) (config_path req) true
    text ← give (save e cip y cfg)
    before ← try (ask_text e (read_file path))
    if is_text text before
        then return tt
        else save_file e cip y path (canonicalize e.lower cip cfg) 0o600

  -- Load, change and write.
  unfoldable pub edit : Request → (Config.Config → Changed) → M Bool
  unfolding load_config write_config
  edit req change = do
    cfg ← load_config req
    r ← edited (change cfg)
    write_config req r.0
    return r.1

  -- `open`
  unfoldable pub open_command : Request → M Bool
  unfolding edit
  open_command req =
      with_arguments
        (λ protocol spec. edit req (open_change e.lower protocol spec (flag req (codes "comment"))))
        req.args

  -- `close`
  unfoldable pub close_command : Request → M Bool
  unfolding edit
  close_command req =
      with_arguments
        (λ protocol spec.
          edit req (close_change e.lower protocol spec (bool_flag req (codes "strict"))))
        req.args

  -- `ddnsEnable`
  unfoldable pub ddns_enable : Request → M Bool
  unfolding edit
  ddns_enable req = edit req ddns_enable_change

  -- `ddnsDisable`
  unfoldable pub ddns_disable : Request → M Bool
  unfolding edit
  ddns_disable req = edit req ddns_disable_change

  -- `ddnsAdd`
  unfoldable pub ddns_add : Request → M Bool
  unfolding edit
  ddns_add req = with_argument (λ host. edit req (ddns_add_change e.lower host)) req.args

  -- `ddnsRemove`
  unfoldable pub ddns_remove : Request → M Bool
  unfolding edit
  ddns_remove req =
      with_argument
        (λ host. edit req (ddns_remove_change e.lower host (bool_flag req (codes "strict"))))
        req.args

  -- `ddnsPrefix`
  unfoldable pub ddns_prefix : Request → M Bool
  unfolding edit
  ddns_prefix req =
      with_argument (λ a. numbered (λ n. edit req (ddns_prefix_change n)) (atoi a)) req.args

  -- `sshMode`
  unfoldable pub ssh_mode : Request → Text → Bool → M Bool
  unfolding edit
  ssh_mode req mode force = edit req (ssh_mode_change mode force)

  -- `feature`
  unfoldable pub feature : Request → Bool → M Bool
  unfolding edit
  feature req enable =
      with_argument
        (λ name. edit req (feature_change name (flag_values req (codes "interface")) enable))
        req.args

  module _ (ip : Whitelist.Netip) (texts : Texts ip) where
    -- `whitelistAdd`
    unfoldable pub whitelist_add : Request → M Bool
    unfolding edit
    whitelist_add req =
        with_argument
          (λ value. edit req (whitelist_add_change ip texts value (flag req (codes "comment"))))
          req.args

    -- `whitelistRemove`
    unfoldable pub whitelist_remove : Request → M Bool
    unfolding edit
    whitelist_remove req =
        with_argument
          (λ value.
            edit req (whitelist_remove_change ip texts value (bool_flag req (codes "strict"))))
          req.args
