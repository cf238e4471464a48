-- ===== src/Systemd.antt =====
-- internal/systemd/systemd.go: the units that cnftctl starts, stops and inspects.
use Prim.Native.String.{String}
use cnftctl.Base.{
  [], ◌∷◌, ◌++◌, Bool, true, false, Text, codes, is_empty, is_hex_text, if◌then◌else◌, not,
}
use cnftctl.Host.{
  Env, M, CommandResult, ◌>>=◌, ◌>>◌, return, fail, refuse_if, command_failed, message, run_command,
}

abbrev pub firewall_service : Text
firewall_service = codes "cnftctl-firewall.service"

abbrev pub ddns_refresh_timer : Text
ddns_refresh_timer = codes "cnftctl-ddns-refresh.timer"

-- `UnitState`
pub record UnitState : Type 0 where
  pub enabled : Bool
  pub active : Bool

abbrev pub systemctl : Text
systemctl = codes "systemctl"

-- `RollbackPrefix + id + ".timer"`
unfoldable pub timer_unit : Text → Text
timer_unit id = codes "cnftctl-rollback@" ++ (id ++ codes ".timer")

-- `RollbackTimer`
unfoldable pub rollback_timer : Text → M Text
rollback_timer id =
    if is_hex_text 32 id
    then return (timer_unit id)
    else fail (message "invalid rollback transaction ID")

-- `if !res.OK() { return fmt.Errorf(text, …) }`
abbrev pub require_ok : CommandResult → String → M (Unit {0})
require_ok r text = if r.failed then fail (command_failed text) else return tt

module _ (e : Env) where
  -- A query by the exit status: silence on stderr means no, anything else is an error.
  abbrev pub answered : CommandResult → String → M Bool
  answered r text =
      if not r.failed
      then return true
      else if is_empty r.stderr
      then return false
      else fail (command_failed text)

  unfoldable pub is_active : Text → M Bool
  is_active unit = do
    refuse_if (is_empty unit) "unit name is required"
    r ← run_command e systemctl (codes "is-active" ∷ codes "--quiet" ∷ unit ∷ [])
    answered r "inspect systemd unit"

  -- `DDNSState` and `FirewallState` are the same code at two units.
  unfoldable pub unit_state : Text → M UnitState
  unit_state unit = do
    active ← is_active unit
    r ← run_command e systemctl (codes "is-enabled" ∷ codes "--quiet" ∷ unit ∷ [])
    enabled ← answered r "inspect enablement"
    return (record { enabled = enabled; active = active })

  unfoldable pub ddns_state : M UnitState
  unfolding unit_state
  ddns_state = unit_state ddns_refresh_timer

  unfoldable pub firewall_state : M UnitState
  unfolding unit_state
  firewall_state = unit_state firewall_service

  unfoldable pub reconcile_ddns_timer : Bool → M (Unit {0})
  reconcile_ddns_timer desired = do
    r ← run_command e systemctl (
        (if desired then codes "enable" else codes "disable")
        ∷ codes "--now"
        ∷ ddns_refresh_timer
        ∷ [])
    require_ok r "reconcile timer"

  -- Start the installed timer, and see that systemd takes it for active.
  unfoldable pub arm_rollback : Text → M (Unit {0})
  arm_rollback id = do
    unit ← rollback_timer id
    r ← run_command e systemctl (codes "start" ∷ unit ∷ [])
    require_ok r "arm rollback timer"
    active ← is_active unit
    refuse_if (not active) "rollback timer is not active"

  unfoldable pub activate_firewall : M (Unit {0})
  activate_firewall = do
    r ← run_command e systemctl (codes "restart" ∷ firewall_service ∷ [])
    require_ok r "activate"

  unfoldable pub set_firewall_enabled : Bool → M (Unit {0})
  set_firewall_enabled enabled = do
    r ←
        run_command e systemctl
          ((if enabled then codes "enable" else codes "disable") ∷ firewall_service ∷ [])
    require_ok r "enable or disable"

  unfoldable pub cancel_rollback : Text → M (Unit {0})
  cancel_rollback id = do
    unit ← rollback_timer id
    r ← run_command e systemctl (codes "stop" ∷ unit ∷ [])
    require_ok r "stop rollback timer"
