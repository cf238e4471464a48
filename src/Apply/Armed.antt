-- ===== src/Apply/Armed.antt =====
-- What `Apply` has done before it restarts the firewall service.
use cnftctl.Base.{
  [], ◌∷◌, ◌++◌, Bool, true, false, not, Text, codes, is_hex_text, is_empty, join_path, dir, ◌≡◌,
  refl, inl, inr, Bool-cases, if◌then◌else◌,
}
use cnftctl.Host.{
  Call, Trace, Env, CommandResult, ◌>>=◌, ◌>>◌, try, run, refuse_if, run_command, return, ask_info,
  stat,
}
use cnftctl.Host.Trace.{Seen}
use cnftctl.Host.Hoare.{Post, Run, Run-bind}
use cnftctl.Host.Guard.{Always, Run-any}
use cnftctl.Systemd.{
  systemctl, timer_unit, rollback_timer, is_active, answered, arm_rollback, require_ok,
}
use cnftctl.Durable.{mkdir_safe, sync_dir}
use cnftctl.Durable.Written.{IsWritten, durable_write-IsWritten}
use cnftctl.Durable.{write_json}
use cnftctl.Apply.Model.{Phase, Transaction, Codec}
use cnftctl.Apply.Store.{transaction_path, write_transaction, is_absent}
use cnftctl.Apply.Quiet.{IsQuiet, is_activation}

-- `systemctl is-active --quiet UNIT`
abbrev pub active_query : Text → Call
active_query unit = run systemctl (codes "is-active" ∷ codes "--quiet" ∷ unit ∷ [])

abbrev pub state_file : Text → Transaction → Text
state_file root tx = join_path (transaction_path root tx.id) (codes "state.json")

-- systemd took the transaction's rollback timer for active.
abbrev pub IsTimed : Transaction → Trace → Type 0
IsTimed tx t = Seen (active_query (timer_unit tx.id)) t

-- The state file of the transaction was replaced by this state of it.
abbrev pub IsRecorded : Codec → Text → Transaction → Trace → Type 0
IsRecorded k root tx t = IsWritten (state_file root tx) (k.encode_transaction tx ++ (10 ∷ [])) t

-- A transaction has its timer running, and is on disk in the phase `activating`.
abbrev pub IsArmed : Codec → Text → Trace → Type 0
IsArmed k root t =
    (tx : Transaction) × (tx.phase ≡ Phase.activating) × IsTimed tx t × IsRecorded k root tx t

-- The firewall service is restarted only then.
abbrev pub NeedArmed : Codec → Text → Call → Trace → Type 0
NeedArmed k root c t = is_activation c ≡ true → IsArmed k root t

pub NeedArmed-IsQuiet :
    (k : Codec) (root : Text) (c : Call) (t : Trace) → IsQuiet c → NeedArmed k root c t
NeedArmed-IsQuiet k root c t q h = absurd (cc)

module _ (e : Env) where
  answered-Seen :
      (unit : Text) (r : CommandResult) (t : Trace)
      → Post
          (λ b u. b ≡ true → Seen (active_query unit) u)
          Always
          (answered e r "inspect systemd unit"
            (record { call = active_query unit; done = not r.failed } ∷ t))
  answered-Seen unit r t = elim (Bool-cases r.failed) [
    | inl bad ↦ elim (Bool-cases (is_empty r.stderr)) [
      | inl silent ↦ rw (bad, silent) (λ h. cc)
      | inr loud ↦ rw (bad, loud) tt
    ]
    | inr fine ↦ rw fine (λ h. inl (refl, refl))
  ]

  pub is_active-Seen :
      (unit : Text)
      → Run Always (is_active e unit) (λ b u. b ≡ true → Seen (active_query unit) u) Always
  unfolding is_active run_command
  is_active-Seen unit =
      Run-bind (Run-any (refuse_if (is_empty unit) "unit name is required"))
        λ _. record { holds = λ t _. answered-Seen unit (e.command t systemctl _) t }

  refuse_not :
      (b : Bool) (c : Call)
      → Run
          (λ t. b ≡ true → Seen c t)
          (refuse_if (not b) "rollback timer is not active")
          (λ _. Seen c)
          Always
  refuse_not true c = record { holds = λ t h. h refl }
  refuse_not false c = record { holds = λ t h. tt }

  pub arm_rollback-IsTimed :
      (tx : Transaction) → Run Always (arm_rollback e tx.id) (λ _. IsTimed tx) Always
  unfolding arm_rollback rollback_timer
  arm_rollback-IsTimed tx = record {
    holds = λ t _. elim (Bool-cases (is_hex_text 32 tx.id)) [
      | inl good ↦ rw good (started.holds t tt)
      | inr bad ↦ rw bad tt
    ];
  }
    where
      started :
          Run Always
            (do
              r ← run_command e systemctl (codes "start" ∷ timer_unit tx.id ∷ [])
              require_ok r "arm rollback timer"
              active ← is_active e (timer_unit tx.id)
              refuse_if (not active) "rollback timer is not active")
            (λ _. IsTimed tx)
            Always
      started =
          Run-bind (Run-any (run_command e systemctl (codes "start" ∷ timer_unit tx.id ∷ []))) λ r.
            Run-bind (Run-any (require_ok r "arm rollback timer"))
              λ _. Run-bind (is_active-Seen (timer_unit tx.id)) λ b. refuse_not b _

  pub write_transaction-IsRecorded :
      (k : Codec) (root : Text) (tx : Transaction)
      → Run Always
          (write_transaction e k (transaction_path root tx.id) tx)
          (λ _. IsRecorded k root tx)
          Always
  unfolding write_transaction write_json
  write_transaction-IsRecorded k root tx =
      let path = transaction_path root tx.id in
      Run-bind (Run-any (mkdir_safe e (dir path) 0o700)) λ _.
        Run-bind (Run-any (try (ask_info e (stat path)))) λ st.
          Run-bind (Run-any (mkdir_safe e path 0o700)) λ _.
            Run-bind (Run-any (if is_absent e k st then sync_dir e (dir path) else return tt))
              λ _. durable_write-IsWritten e (state_file root tx) _ 0o600
