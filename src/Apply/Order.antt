-- ===== src/Apply/Order.antt =====
-- `Apply` in time: nothing is activated before the rollback timer runs and the transaction is on
-- disk.
use cnftctl.Base.{
  List, [], ◌∷◌, Bool, true, not, Option, none, Text, codes, eqb, is_empty, join_path, Result, ok,
  err, refl, if◌then◌else◌, ◌&&◌, ◌==◌,
}
use cnftctl.Host.{
  Trace, Env, Error, M, return, flock, open_create, close, run_command, CommandResult,
}
use cnftctl.Host.Trace.{
  Ext, here, Only, only, Only-try, Only-perform, Only-refuse_if, Only-return, Only-if, Only-give,
}
use cnftctl.Host.Hoare.{Post, Post-same, Run, Run-bind, Run-Only, Run-if}
use cnftctl.Host.Guard.{IsGuarded, IsGuarded-Ext, Run-also, Run-deferring}
use cnftctl.Systemd.{activate_firewall, require_ok, systemctl, firewall_service}
use cnftctl.Durable.{rooted, first, with_lock, holding}
use cnftctl.Durable.Written.{IsWritten-Ext}
use cnftctl.Host.Trace.{Seen-Ext}
use cnftctl.Apply.Model.{
  Phase, File, Manifest, SshOverrideAudit, Transaction, Plan, Options, Codec, run_root,
}
use cnftctl.Apply.Manifest.{finalize_files, build_manifest}
use cnftctl.Apply.Store.{transaction_path, generation_path}
use cnftctl.Apply.Assets.{verify_installed_assets}
use cnftctl.Apply.Rollback.{recover}
use cnftctl.Apply.Run.{
  or_recover, recovered, activate, install, recheck, apply_locked, apply, validate_candidate,
  check_candidate, now, new_id, is_default_timeout, validate_ssh_override, effective_uid, opened,
}
use cnftctl.Apply.Quiet.{IsQuiet}
use cnftctl.Apply.Quiet.Units.{
  Only-reconcile_ddns_timer, Only-set_firewall_enabled, Only-firewall_state,
}
use cnftctl.Apply.Quiet.Files.{
  files, Only-write_generation, Only-verify_installed_assets, Only-mkdir_safe, Only-plan_files,
}
use cnftctl.Apply.Quiet.State.{
  state, Only-set_active, Only-write_ownership, Only-write_transaction, Only-pending,
  Only-active_generation, Only-check_ownership,
}
use cnftctl.Apply.Quiet.Undo.{Only-recover}
use cnftctl.Apply.Quiet.Units.{Only-arm_rollback}
use cnftctl.Apply.Armed.{
  IsTimed, IsRecorded, NeedArmed, NeedArmed-IsQuiet, arm_rollback-IsTimed,
  write_transaction-IsRecorded,
}

module _ (e : Env) (k : Codec) where
  Only-check_candidate :
      (config generation : Text) (m : Manifest) (fs : List File)
      → Only IsQuiet (check_candidate e k config generation m fs)
  unfolding check_candidate
  Only-check_candidate config generation m fs = search files depth 30

  Only-validate_candidate :
      (fs : List File) (config : Text) (ddns : Bool)
      → Only IsQuiet (validate_candidate e k fs config ddns)
  unfolding validate_candidate
  Only-validate_candidate fs config ddns = search (only, Only-check_candidate) depth 30

  Only-recheck :
      (o : Options) (generation : Text) (m : Manifest) → Only IsQuiet (recheck e k o generation m)
  unfolding recheck
  Only-recheck o generation m = search state depth 30

  Only-require_ok : (r : CommandResult) → Only IsQuiet (require_ok r "activate")
  Only-require_ok r = search only depth 10

  Only-assets :
      (o : Options)
      → Only IsQuiet (if is_empty o.root then verify_installed_assets e k else return tt)
  Only-assets o = search (only, Only-verify_installed_assets) depth 10

  Only-new_id : Only IsQuiet (new_id e k)
  unfolding new_id
  Only-new_id = record { added = λ t. here }

  Only-now : Only IsQuiet (now e k)
  unfolding now
  Only-now = record { added = λ t. here }

  Only-uid : Only IsQuiet (effective_uid e k)
  unfolding effective_uid
  Only-uid = record { added = λ t. here }

  module _ (root : Text) where
    abbrev Guarded : Trace → Type 0
    Guarded = IsGuarded (NeedArmed k root)

    Guarded-Ext : (u v : Trace) → Ext IsQuiet u v → Guarded u → Guarded v
    Guarded-Ext = IsGuarded-Ext (NeedArmed k root) IsQuiet (NeedArmed-IsQuiet k root)

    quietly {ℓ} : {A : Type ℓ} {m : M A} → Only IsQuiet m → Run Guarded m (λ _. Guarded) Guarded
    quietly o = Run-Only IsQuiet Guarded Guarded Guarded-Ext (λ u h. h) o

    module _ (tx : Transaction) where
      abbrev Timed : Trace → Type 0
      Timed t = Guarded t × IsTimed tx t

      timed {ℓ} : {A : Type ℓ} {m : M A} → Only IsQuiet m → Run Timed m (λ _. Timed) Guarded
      timed o =
          Run-Only IsQuiet Timed Guarded (λ u v x h. (Guarded-Ext u v x h.0, Seen-Ext _ x h.1))
            (λ u h. h.0) o

      abbrev activating : Transaction
      activating = record tx { phase = Phase.activating }

      abbrev Armed : Trace → Type 0
      Armed t = Timed t × IsRecorded k root activating t

      armed {ℓ} : {A : Type ℓ} {m : M A} → Only IsQuiet m → Run Armed m (λ _. Armed) Guarded
      armed o =
          Run-Only IsQuiet Armed Guarded
            (λ u v x h. ((Guarded-Ext u v x h.0.0, Seen-Ext _ x h.0.1), IsWritten-Ext _ _ x h.1))
            (λ u h. h.0.0) o

    Post-recovered :
        (tx : Transaction) (R : Trace → Type 0) (p : Result Error (Unit {0}) × Trace)
        → Post (λ _. R) Guarded p
        → Post (λ _. R) Guarded (recovered e k root tx p.0 p.1)
    unfolding recovered recover
    Post-recovered tx R (ok a, u) h = h
    Post-recovered tx R (err x, u) h = Guarded-Ext u _ ((Only-recover e k root tx x).added u) h

    -- A step of `Apply` that is recovered from, if it fails.
    recovering :
        (tx : Transaction) {P R : Trace → Type 0} {m : M (Unit {0})}
        → Run P m (λ _. R) Guarded
        → Run P (or_recover e k root tx m) (λ _. R) Guarded
    unfolding or_recover
    recovering tx {R} {m} p = record { holds = λ t h. Post-recovered tx R (m t) (p.holds t h) }

    ran :
        (tx : Transaction)
        → Run
            (Armed tx)
            (run_command e systemctl (codes "restart" ∷ firewall_service ∷ []))
            (λ _. Guarded)
            Guarded
    unfolding run_command
    ran tx = record { holds = λ t h. (h.0.0, λ _. (activating tx, refl, h.0.1, h.1)) }

    restarted : (tx : Transaction) → Run (Armed tx) (activate_firewall e) (λ _. Guarded) Guarded
    unfolding activate_firewall
    restarted tx = Run-bind (ran tx) λ r. quietly (Only-require_ok r)

  abbrev in_phase : Transaction → Phase → Transaction
  in_phase tx p = record tx { phase = p }

  activate-Run :
      (o : Options) (tx : Transaction)
      → Run (Guarded o.root) (activate e k o tx) (λ _. Guarded o.root) (Guarded o.root)
  unfolding activate
  activate-Run o tx =
      let root = o.root in
      let path = transaction_path root tx.id in
      let prepared = in_phase tx Phase.armed in
      let going = in_phase tx Phase.activating in
      let gone = in_phase tx Phase.activated in
      Run-bind (quietly root (Only-write_transaction e k path tx)) λ _.
        Run-bind
          (recovering root tx
            (Run-also (quietly root (Only-arm_rollback e tx.id)) (arm_rollback-IsTimed e tx)))
          λ _.
            Run-bind
              (recovering root prepared (timed root tx (Only-write_transaction e k path prepared)))
              λ _.
                Run-bind
                  (recovering root going (
                    Run-also (timed root tx (Only-write_transaction e k path going))
                      (write_transaction-IsRecorded e k root going)))
                  λ _.
                    Run-bind
                      (recovering root going
                        (armed root tx (Only-set_active e k root tx.generation)))
                      λ _.
                        Run-bind
                          (recovering root going
                            (armed root tx (Only-write_ownership e k root tx.generation)))
                          λ _. Run-bind (recovering root going (restarted root tx)) λ _.
                            Run-bind
                              (recovering root gone
                                (quietly root (Only-write_transaction e k path gone)))
                              λ _.
                                Run-bind
                                  (recovering root gone
                                    (quietly root (Only-reconcile_ddns_timer e o.ddns_desired)))
                                  λ _.
                                    Run-bind
                                      (recovering root gone
                                        (quietly root (Only-set_firewall_enabled e true)))
                                      λ _. quietly root Only-return

  install-Run :
      (o : Options) (audit : Option SshOverrideAudit) (generation : Text) (m : Manifest)
      (fs : List File) (active : Text)
      → Run
          (Guarded o.root)
          (install e k o audit generation m fs active)
          (λ _. Guarded o.root)
          (Guarded o.root)
  unfolding install
  install-Run o audit generation m fs active =
      let root = o.root in
      Run-bind (quietly root (Only-assets o)) λ _.
        Run-bind (quietly root (Only-check_ownership e k root active)) λ _.
          Run-bind (quietly root (Only-validate_candidate fs o.nft_config_path o.ddns_desired)) λ _.
            Run-bind
              (quietly root (Only-write_generation e k (generation_path root generation) m fs))
              λ _. Run-bind (quietly root (Only-firewall_state e)) λ firewall.
                Run-bind (quietly root (Only-new_id)) λ id.
                  Run-bind (quietly root (Only-now))
                    λ started. activate-Run o (opened audit generation active firewall id started)

  apply_locked-Run :
      (o : Options) (audit : Option SshOverrideAudit) (generation : Text) (m : Manifest)
      (fs : List File) (plan : Plan)
      → Run
          (Guarded o.root)
          (apply_locked e k o audit generation m fs plan)
          (λ _. Guarded o.root)
          (Guarded o.root)
  unfolding apply_locked
  apply_locked-Run o audit generation m fs plan =
      let root = o.root in
      Run-bind (quietly root (Only-pending e k root)) λ found.
        Run-bind (quietly root (Only-refuse_if (not (is_empty found)) _)) λ _.
          Run-bind (quietly root (Only-active_generation e k root)) λ active.
            Run-bind
              (quietly root
                (Only-if (eqb active generation) (Only-recheck o generation m) Only-return))
              λ live.
                Run-if live (quietly root Only-return)
                  (Run-bind (install-Run o audit generation m fs _) λ tx. quietly root Only-return)

  holding-Run {ℓ} :
      {A : Type ℓ} (root file : Text) (r : Result Error (Unit {0})) {m : M A}
      → Run (Guarded root) m (λ _. Guarded root) (Guarded root)
      → Run (Guarded root) (holding e file r m) (λ _. Guarded root) (Guarded root)
  unfolding holding
  holding-Run root file (ok _) p =
      Run-deferring IsQuiet (λ _. Guarded-Ext root) (Guarded-Ext root)
        (Only-perform e (close file) refl) p
  holding-Run root file (err x) p = quietly root (search only depth 20)

  with_lock-Run {ℓ} :
      {A : Type ℓ} (root path : Text) {m : M A}
      → Run (Guarded root) m (λ _. Guarded root) (Guarded root)
      → Run (Guarded root) (with_lock e path m) (λ _. Guarded root) (Guarded root)
  unfolding with_lock
  with_lock-Run root path p =
      let file = join_path path (codes "apply.lock") in
      Run-bind (quietly root (Only-mkdir_safe e path 0o700)) λ _.
        Run-bind (quietly root (Only-perform e (open_create file 0o600) refl)) λ _.
          Run-bind (quietly root (Only-try (Only-perform e (flock file) refl)))
            λ r. holding-Run root file r p

  apply-Run :
      (o : Options) → Run (Guarded o.root) (apply e k o) (λ _. Guarded o.root) (Guarded o.root)
  unfolding apply
  apply-Run o =
      let root = o.root in
      Run-bind (quietly root (Only-uid)) λ uid.
        Run-bind
          (quietly root
            (Only-refuse_if (o.require_root && not (uid == 0)) "root privileges are required"))
          λ _.
            Run-bind
              (quietly root (
                Only-refuse_if (not (is_default_timeout o.rollback_timeout))
                  "rollback timeout must be 2m0s"))
              λ _. Run-bind (quietly root (Only-give {r = validate_ssh_override o})) λ audit.
                Run-bind (quietly root (Only-give {r = finalize_files k o.files o.ddns_desired}))
                  λ f. Run-bind (quietly root (Only-give {r = build_manifest k f.1})) λ b.
                    Run-bind (quietly root (Only-plan_files e k root b.1 o.ddns_desired)) λ plan.
                      Run-if o.dry_run (quietly root (Only-return {a = (none, plan)})) (
                        with_lock-Run root (rooted o.root (first o.run_root run_root)) (
                          apply_locked-Run o audit f.0
                            (record (b.0) { ddns_desired = o.ddns_desired }) b.1 plan))

  -- Whatever the machine answers, `Apply` restarts the firewall service only after systemd has
  -- reported a transaction's rollback timer as active, and after that transaction's state file was
  -- replaced by its state in the phase `activating`.
  pub apply-IsGuarded : (o : Options) → IsGuarded (NeedArmed k o.root) (apply e k o []).1
  apply-IsGuarded o = Post-same _ (apply e k o []) ((apply-Run o).holds [] tt)
