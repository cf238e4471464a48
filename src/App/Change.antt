-- ===== src/App/Change.antt =====
-- What each command of internal/app/service_impl.go that edits the configuration makes of it.
-- The Boolean is what is printed as `changed`.
use cnftctl.Base.{
  ℕ, List, [], ◌∷◌, Bool, true, false, ◌&&◌, not, Option, none, some, Text, codes, eqb, is_empty,
  Result, ok, err, if◌then◌else◌, ◌>>=◌,
}
use cnftctl.Base.Int.{ℤ, pos, negsuc}
use cnftctl.Config
use cnftctl.Ports
use cnftctl.Whitelist
use cnftctl.Ddns
use cnftctl.Features
use cnftctl.App.Convert.{
  Texts, ports_config, set_ports_config, features_config, ddns_config, set_ddns_config,
  whitelist_entries, set_whitelist_config,
}

-- The errors of the components, and those of the commands.
pub data ChangeError : Type 0 where
  ports : Ports.PortError → ChangeError
  whitelist : Whitelist.WhitelistError → ChangeError
  ddns : Ddns.DdnsError → ChangeError
  features : Features.FeatureError → ChangeError
  not_listed not_configured bad_number interface_required unknown_feature : ChangeError

abbrev pub Changed : Type 0
Changed = Result ChangeError (Config.Config × Bool)

abbrev pub wrapped {ℓ κ} :
    {E : Type ℓ} {A : Type κ} → (E → ChangeError) → Result E A → Result ChangeError A
wrapped f (ok a) = ok a
wrapped f (err x) = err (f x)

module _ (lower : ℕ → ℕ) where
  -- `open`
  unfoldable pub open_change : Text → Text → Text → Config.Config → Changed
  unfolding set_ports_config ports_config
  open_change protocol spec comment cfg = do
    (pc, reply) ←
        wrapped ports (Ports.open_port lower (some (ports_config cfg)) protocol spec comment)
    ok (set_ports_config cfg pc, reply.changed)

  -- `close`
  unfoldable pub close_change : Text → Text → Bool → Config.Config → Changed
  unfolding set_ports_config ports_config
  close_change protocol spec strict cfg = do
    (pc, reply) ←
        wrapped ports (Ports.close_port lower (some (ports_config cfg)) protocol spec strict)
    ok (set_ports_config cfg pc, reply.changed)

  -- `ddnsAdd`
  unfoldable pub ddns_add_change : Text → Config.Config → Changed
  unfolding ddns_config set_ddns_config
  ddns_add_change host cfg = do
    (dc, changed) ← wrapped ddns (Ddns.add_host lower (some (ddns_config cfg)) host)
    ok (set_ddns_config cfg dc, changed)

  -- `ddnsRemove`
  unfoldable pub ddns_remove_change : Text → Bool → Config.Config → Changed
  unfolding ddns_config set_ddns_config
  ddns_remove_change host strict cfg = do
    (dc, changed) ← wrapped ddns (Ddns.remove_host lower (some (ddns_config cfg)) host)
    if strict && not changed then err not_configured else ok (set_ddns_config cfg dc, changed)

module _ (ip : Whitelist.Netip) (texts : Texts ip) where
  -- `whitelistAdd`
  unfoldable pub whitelist_add_change : Text → Text → Config.Config → Changed
  unfolding whitelist_entries set_whitelist_config
  whitelist_add_change value comment cfg = do
    (entries, reply) ←
        wrapped whitelist (Whitelist.add ip (some (whitelist_entries ip texts cfg)) value comment)
    ok (set_whitelist_config ip texts cfg entries, reply.changed)

  -- `whitelistRemove`
  unfoldable pub whitelist_remove_change : Text → Bool → Config.Config → Changed
  unfolding whitelist_entries set_whitelist_config
  whitelist_remove_change value strict cfg = do
    (entries, reply) ←
        wrapped whitelist (Whitelist.remove ip (some (whitelist_entries ip texts cfg)) value)
    if strict && not reply.changed
        then err not_listed
        else ok (set_whitelist_config ip texts cfg entries, reply.changed)

-- `ddnsEnable`
unfoldable pub ddns_enable_change : Config.Config → Changed
unfolding ddns_config set_ddns_config
ddns_enable_change cfg = do
  (dc, changed) ← wrapped ddns (Ddns.enable (some (ddns_config cfg)))
  ok (set_ddns_config cfg dc, changed)

-- `ddnsDisable`
unfoldable pub ddns_disable_change : Config.Config → Changed
unfolding ddns_config set_ddns_config
ddns_disable_change cfg = do
  (dc, changed) ← wrapped ddns (Ddns.disable (some (ddns_config cfg)))
  ok (set_ddns_config cfg dc, changed)

-- `ddnsPrefix`, once its argument was read as a number; a negative one is no length either.
unfoldable pub ddns_prefix_change : ℤ → Config.Config → Changed
unfolding ddns_config set_ddns_config
ddns_prefix_change (negsuc n) cfg = err (ddns Ddns.bad_prefix_len)
ddns_prefix_change (pos n) cfg = do
  (dc, changed) ← wrapped ddns (Ddns.set_prefix_len (some (ddns_config cfg)) n)
  ok (set_ddns_config cfg dc, changed)

-- The rate limit that comes with the mode, where there is none yet.
abbrev pub rate_limit_of : Text → Option Config.RateLimit → Option Config.RateLimit
rate_limit_of mode (some r) = some r
rate_limit_of mode none =
    if eqb mode Features.mode_rate_limit
    then some (record { connections = pos 6; per = pos 60_000_000_000 })
    else none

-- `sshMode`
unfoldable pub ssh_mode_change : Text → Bool → Config.Config → Changed
unfolding features_config
ssh_mode_change mode force cfg = do
  (fc, reply) ← wrapped features (Features.set_ssh_mode (some (features_config cfg)) mode force)
  ok (
    record cfg {
      ssh = record (cfg.ssh) {
        mode = fc.ssh.mode;
        rate_limit = rate_limit_of mode cfg.ssh.rate_limit;
      };
    },
    reply.changed,
  )

abbrev pub one_interface :
    Bool → Features.Config → Text → Result Features.FeatureError (Features.Config × Features.Reply)
one_interface true fc name = Features.enable_trusted (some fc) name
one_interface false fc name = Features.disable_trusted (some fc) name

-- The loop over `--interface`; the last reply is the one that is printed.
unfoldable pub each_interface :
    Bool → Features.Config → Bool → List Text → Result ChangeError (Features.Config × Bool)
each_interface enable fc changed [] = ok (fc, changed)
each_interface enable fc changed (name ∷ names) = do
  (next, reply) ← wrapped features (one_interface enable fc name)
  each_interface enable next reply.changed names

abbrev pub docker_feature :
    Bool → Features.Config → Result Features.FeatureError (Features.Config × Features.Reply)
docker_feature true fc = Features.enable_docker (some fc)
docker_feature false fc = Features.disable_docker (some fc)

-- `feature`
unfoldable pub feature_change : Text → List Text → Bool → Config.Config → Changed
unfolding features_config each_interface
feature_change name interfaces enable cfg =
    if eqb name (codes "docker")
    then (do
      (fc, reply) ← wrapped features (docker_feature enable (features_config cfg))
      ok (
        record cfg { docker = record (cfg.docker) { enabled = fc.docker_enabled } },
        reply.changed,
      ))
    else if eqb name (codes "trusted-interface")
    then if is_empty interfaces then err interface_required else (do
      (fc, changed) ← each_interface enable (features_config cfg) false interfaces
      ok (
        record cfg {
          trusted = record (cfg.trusted) {
            enabled = fc.trusted.enabled;
            interfaces = fc.trusted.interfaces;
          };
        },
        changed,
      ))
    else err unknown_feature
