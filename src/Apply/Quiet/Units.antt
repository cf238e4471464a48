-- ===== src/Apply/Quiet/Units.antt =====
-- `systemctl` and `nft`.
use cnftctl.Base.{Bool, Text, eqb, Bool-cases, inl, inr}
use cnftctl.Host.{Env}
use cnftctl.Host.Trace.{
  Only, only, Only-fail, Only-return, Only-bind, Only-try, Only-run_command, Only-deferring,
  Only-if, Only-give, Only-refuse_if,
}
use cnftctl.Apply.Quiet.{IsQuiet}
use cnftctl.Systemd
use cnftctl.Nft

module _ (e : Env) where
  pub Only-is_active : (unit : Text) → Only IsQuiet (Systemd.is_active e unit)
  unfolding Systemd.is_active eqb
  Only-is_active unit = search only depth 30

  pub Only-ddns_state : Only IsQuiet (Systemd.ddns_state e)
  unfolding Systemd.ddns_state eqb
  Only-ddns_state = search (only, Only-is_active) depth 30

  pub Only-firewall_state : Only IsQuiet (Systemd.firewall_state e)
  unfolding Systemd.firewall_state eqb
  Only-firewall_state = search (only, Only-is_active) depth 30

  pub Only-reconcile_ddns_timer :
      (desired : Bool) → Only IsQuiet (Systemd.reconcile_ddns_timer e desired)
  unfolding Systemd.reconcile_ddns_timer eqb
  Only-reconcile_ddns_timer desired = elim (Bool-cases desired) [
    | inl h ↦ rw h (search only depth 30)
    | inr h ↦ rw h (search only depth 30)
  ]

  pub Only-set_firewall_enabled :
      (enabled : Bool) → Only IsQuiet (Systemd.set_firewall_enabled e enabled)
  unfolding Systemd.set_firewall_enabled eqb
  Only-set_firewall_enabled enabled = elim (Bool-cases enabled) [
    | inl h ↦ rw h (search only depth 30)
    | inr h ↦ rw h (search only depth 30)
  ]

  pub Only-arm_rollback : (id : Text) → Only IsQuiet (Systemd.arm_rollback e id)
  unfolding Systemd.arm_rollback Systemd.rollback_timer eqb
  Only-arm_rollback id = search (only, Only-is_active) depth 30

  pub Only-cancel_rollback : (id : Text) → Only IsQuiet (Systemd.cancel_rollback e id)
  unfolding Systemd.cancel_rollback Systemd.rollback_timer eqb
  Only-cancel_rollback id = search only depth 30

  pub Only-load_file : (path : Text) → Only IsQuiet (Nft.load_file e path)
  unfolding Nft.load_file eqb
  Only-load_file path = search only depth 30

  pub Only-validate_file : (path : Text) → Only IsQuiet (Nft.validate_file e path)
  unfolding Nft.validate_file eqb
  Only-validate_file path = search only depth 30

  pub Only-list_table : (family table : Text) → Only IsQuiet (Nft.list_table e family table)
  unfolding Nft.list_table eqb
  Only-list_table family table = search only depth 30

  pub Only-load_batch : (pattern text : Text) → Only IsQuiet (Nft.load_batch e pattern text)
  unfolding Nft.load_batch
  Only-load_batch pattern text = search (only, Only-load_file) depth 30

  pub Only-delete_table : (family table : Text) → Only IsQuiet (Nft.delete_table e family table)
  unfolding Nft.delete_table
  Only-delete_table family table = search (only, Only-load_batch) depth 30

pub ruleset units = (
  only, Only-is_active, Only-ddns_state, Only-firewall_state, Only-reconcile_ddns_timer,
  Only-set_firewall_enabled, Only-arm_rollback, Only-cancel_rollback, Only-load_file,
  Only-validate_file, Only-list_table, Only-load_batch, Only-delete_table,
)
