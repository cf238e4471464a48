-- ===== src/Apply/Run.antt =====
-- `Apply`, `ValidateCandidate`, `Confirm`, `Restore`, `Reconcile`, `WithFirewallLock`.
use cnftctl.Base.{
  ℕ, ◌+◌, List, [], ◌∷◌, Bool, true, false, ◌||◌, ◌&&◌, not, Option, none, some, Text, codes, eqb,
  is_empty, is_hex_text, base, clean, dir, join_path, trim_space, byte_len, ltb, Result, ok, err,
  if◌then◌else◌, ◌==◌,
}
use cnftctl.Base.Int.{ℤ, pos, eqb_ℤ}
use cnftctl.Host.{
  Env, M, Error, ◌>>=◌, ◌>>◌, return, give, try, deferring, refuse_if, message, perform, ask_text,
  mkdir_temp, remove_all,
}
use cnftctl.Durable.{rooted, first, with_lock}
use cnftctl.Systemd.{
  UnitState, ddns_state, firewall_state, reconcile_ddns_timer, arm_rollback, activate_firewall,
  set_firewall_enabled, cancel_rollback,
}
use cnftctl.Nft.{list_table, validate_file}
use cnftctl.Apply.Model.{
  Phase, File, Manifest, SshOverrideAudit, Transaction, Plan, Options, Codec,
  default_rollback_timeout, run_root, transaction_root,
}
use cnftctl.Apply.Manifest.{build_manifest, finalize_files, semantic_generation, plan_files}
use cnftctl.Apply.Generation.{write_generation, verify_generation}
use cnftctl.Apply.Store.{
  inet, hostfw, transaction_path, generation_path, has_exact_generation_marker, active_generation,
  set_active, write_ownership, write_transaction, read_transaction, pending, transaction_dir,
  verify_stored_ownership, verify_activated, check_ownership,
}
use cnftctl.Apply.Assets.{verify_installed_assets}
use cnftctl.Apply.Rollback.{rollback, recover, join_all}

-- `configName`
abbrev pub config_name : Text → Text
config_name [] = codes "firewall.nft"
config_name (c ∷ path) = base (c ∷ path)

-- `validateSSHOverride`
unfoldable pub validate_ssh_override : Options → Result Error (Option SshOverrideAudit)
validate_ssh_override o =
    let reason = trim_space o.ssh_override_reason in
    let source = trim_space o.ssh_override_source in
    let context = trim_space o.ssh_override_context in
    if not o.ssh_override_acknowledged
    then (if not (is_empty reason) || not (is_empty source) || not (is_empty context)
        then err (message "SSH override metadata requires acknowledgement")
        else ok none)
    else if is_empty reason
    then err (message "SSH override acknowledgement reason is required")
    else if ltb 1024 (byte_len reason) || ltb 256 (byte_len source) || ltb 2048 (byte_len context)
    then err (message "SSH override audit metadata is too long")
    else ok
        (some (record { acknowledged = true; reason = reason; source = source; context = context }))

-- The timeout is 120 s, given or by default.
unfoldable pub is_default_timeout : ℤ → Bool
is_default_timeout t = eqb_ℤ t (pos 0) || eqb_ℤ t (pos default_rollback_timeout)

abbrev pub is_activated : Phase → Bool
is_activated Phase.activated = true
is_activated _ = false

-- `Apply` returns a transaction and a plan; the transaction is empty where none was made.
abbrev pub Applied : Type 0
Applied = Option Transaction × Plan

-- `Transaction{Generation: generation, Phase: PhaseConfirmed, Confirmed: true}`
abbrev pub unchanged : Text → Applied
unchanged generation = (
  some (record {
    id = [];
    phase = Phase.confirmed;
    started_at = 0;
    rollback_deadline = 0;
    generation = generation;
    previous_generation = [];
    fresh_install = false;
    firewall_was_enabled = false;
    confirmed = true;
    rolled_back = false;
    ssh_override = none;
  }),
  record { changes = []; would_load_nftables = false; generation = generation },
)

-- The transaction that `Apply` opens.
abbrev pub opened : Option SshOverrideAudit → Text → Text → UnitState → Text → ℕ → Transaction
opened audit generation active firewall id started = record {
  id = id;
  phase = Phase.prepared;
  started_at = started;
  rollback_deadline = started + default_rollback_timeout;
  generation = generation;
  previous_generation = active;
  fresh_install = is_empty active;
  firewall_was_enabled = firewall.enabled;
  confirmed = false;
  rolled_back = false;
  ssh_override = audit;
}

module _ (e : Env) (k : Codec) where
  unfoldable pub check_candidate : Text → Text → Manifest → List File → M (Unit {0})
  check_candidate config generation manifest files = do
    tmp ← ask_text e (mkdir_temp [] (codes "cnftctl-candidate-"))
    deferring
        (do
          write_generation e k (join_path tmp generation) manifest files
          validate_file e (join_path (join_path tmp generation) (config_name config)))
        (perform e (remove_all tmp))

  -- `ValidateCandidate`
  unfoldable pub validate_candidate : List File → Text → Bool → M Text
  unfolding check_candidate
  validate_candidate files config ddns = do
    (manifest, sorted) ← give (build_manifest k files)
    generation ← give (semantic_generation k sorted ddns)
    check_candidate config generation (record manifest { ddns_desired = ddns }) sorted
    return generation

  -- `if err = …; err != nil { return tx, plan, recoverApply(…, err) }`
  unfoldable pub recovered : Text → Transaction → Result Error (Unit {0}) → M (Unit {0})
  recovered root tx (ok _) = return tt
  recovered root tx (err cause) = recover e k root tx cause

  unfoldable pub or_recover : Text → Transaction → M (Unit {0}) → M (Unit {0})
  unfolding recovered
  or_recover root tx m = do r ← try m; recovered root tx r

  -- From the first write of the transaction to the end of `Apply`.
  unfoldable pub activate : Options → Transaction → M Transaction
  unfolding or_recover
  activate o tx = do
    let root = o.root
    let path = transaction_path root tx.id
    write_transaction e k path tx
    or_recover root tx (arm_rollback e tx.id)
    let armed : Transaction = record tx { phase = Phase.armed }
    or_recover root armed (write_transaction e k path armed)
    let activating : Transaction = record tx { phase = Phase.activating }
    or_recover root activating (write_transaction e k path activating)
    or_recover root activating (set_active e k root tx.generation)
    or_recover root activating (write_ownership e k root tx.generation)
    or_recover root activating (activate_firewall e)
    let activated : Transaction = record tx { phase = Phase.activated }
    or_recover root activated (write_transaction e k path activated)
    or_recover root activated (reconcile_ddns_timer e o.ddns_desired)
    or_recover root activated (set_firewall_enabled e true)
    return activated

  unfoldable pub now : M ℕ
  now t = (ok (e.clock t), t)

  unfoldable pub new_id : M Text
  new_id t = (ok (e.random_id t), t)

  -- A new generation, from the checks on the machine to the transaction.
  unfoldable pub install :
      Options → Option SshOverrideAudit → Text → Manifest → List File → Text → M Transaction
  unfolding activate now new_id
  install o audit generation manifest files active = do
    if is_empty o.root then verify_installed_assets e k else return tt
    check_ownership e k o.root active
    _ ← validate_candidate files o.nft_config_path o.ddns_desired
    write_generation e k (generation_path o.root generation) manifest files
    firewall ← firewall_state e
    id ← new_id
    started ← now
    activate o (opened audit generation active firewall id started)

  abbrev pub is_stale : Option Text → Text → Bool
  is_stale none generation = false
  is_stale (some table) generation = not (has_exact_generation_marker table generation)

  abbrev pub is_present : Option Text → Bool
  is_present none = false
  is_present (some table) = true

  abbrev pub same : Bool → Bool → Bool
  same true b = b
  same false b = not b

  -- The generation is selected already: whether its table is live, after the checks.
  unfoldable pub recheck : Options → Text → Manifest → M Bool
  recheck o generation manifest = do
    verify_generation e k (generation_path o.root generation) manifest
    if is_empty o.root then verify_installed_assets e k else return tt
    verify_stored_ownership e k o.root generation
    table ← list_table e inet hostfw
    refuse_if (is_stale table generation)
        "existing inet hostfw failed exact generation marker verification"
    ddns ← ddns_state e
    if is_present table && not (same ddns.enabled o.ddns_desired && same ddns.active o.ddns_desired)
        then reconcile_ddns_timer e o.ddns_desired
        else return tt
    return (is_present table)

  -- The part of `Apply` that holds the lock.
  unfoldable pub apply_locked :
      Options → Option SshOverrideAudit → Text → Manifest → List File → Plan → M Applied
  unfolding install recheck
  apply_locked o audit generation manifest files plan = do
    open_transactions ← pending e k o.root
    refuse_if (not (is_empty open_transactions)) "another apply transaction is pending"
    active ← active_generation e k o.root
    live ← (if eqb active generation then recheck o generation manifest else return false)
    if live then return (unchanged generation) else (do
      tx ← install o audit generation manifest files (if eqb active generation then [] else active)
      return (some tx, plan))

  unfoldable pub effective_uid : M ℕ
  effective_uid t = (ok (e.euid t), t)

  -- `Apply`
  unfoldable pub apply : Options → M Applied
  unfolding apply_locked effective_uid
  apply o = do
    uid ← effective_uid
    refuse_if (o.require_root && not (uid == 0)) "root privileges are required"
    refuse_if (not (is_default_timeout o.rollback_timeout)) "rollback timeout must be 2m0s"
    audit ← give (validate_ssh_override o)
    (generation, finalized) ← give (finalize_files k o.files o.ddns_desired)
    (manifest, files) ← give (build_manifest k finalized)
    plan ← plan_files e k o.root files o.ddns_desired
    if o.dry_run
        then return (none, plan)
        else with_lock e (rooted o.root (first o.run_root run_root)) (
            apply_locked o audit generation (record manifest { ddns_desired = o.ddns_desired })
              files plan)

  -- `Confirm`, once the transaction was read.
  unfoldable pub confirm_read : Text → Text → Transaction → M Transaction
  confirm_read root path tx = do
    refuse_if tx.rolled_back "transaction already rolled back"
    if tx.confirmed then (do cancel_rollback e tx.id; return tx) else (do
      refuse_if (not (is_activated tx.phase)) "only an activated transaction can be confirmed"
      verify_activated e k root tx
      let done : Transaction = record tx { confirmed = true; phase = Phase.confirmed }
      write_transaction e k path done
      cancel_rollback e tx.id
      return done)

  unfoldable pub confirm : Text → Text → M Transaction
  unfolding confirm_read
  confirm root id = with_lock e (rooted root run_root) (do
    path ← transaction_dir e k root id
    tx ← read_transaction e k path
    confirm_read root path tx)

  -- `Restore`
  unfoldable pub restore : Text → Text → M (Unit {0})
  restore root tx_dir = with_lock e (rooted root run_root) (do
    let path = clean tx_dir
    refuse_if
        (not (eqb (dir path) (rooted root transaction_root)) || not (is_hex_text 32 (base path)))
        "transaction directory is not a durable cnftctl transaction"
    rollback e k root path)

  -- `WithFirewallLock`
  unfoldable pub with_firewall_lock : Text → M (Unit {0}) → M (Unit {0})
  with_firewall_lock root m = with_lock e (rooted root run_root) m

  -- The loop of `Reconcile`: what each rollback gave.
  unfoldable pub roll_back_all : Text → List Transaction → M (List (Result Error (Unit {0})))
  roll_back_all root [] = return []
  roll_back_all root (tx ∷ txs) = do
    r ← try (rollback e k root (transaction_path root tx.id))
    rest ← roll_back_all root txs
    return (r ∷ rest)

  -- `Reconcile`
  unfoldable pub reconcile : Text → M (Unit {0})
  unfolding roll_back_all
  reconcile root = with_lock e (rooted root run_root) (do
    open_transactions ← pending e k root
    results ← roll_back_all root open_transactions
    give (join_all results))
