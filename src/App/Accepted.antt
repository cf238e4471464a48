-- ===== src/App/Accepted.antt =====
-- `validateDockerDaemonConfig` in time: which document `dockerd` accepted.
use cnftctl.Base.{List, [], Bool, true, false, Text, codes, is_empty, ◌≡◌, refl, if◌then◌else◌, inl}
use cnftctl.Host.{
  Trace, Env, ◌>>=◌, ◌>>◌, return, refuse_if, perform, ask_text, run_command, create_temp, chmod,
  remove, run,
}
use cnftctl.Host.Trace.{
  Ext, Only, only, Only-perform, Only-refuse_if, Only-return, Only-if, Only-run_command, Seen,
  Seen-Ext,
}
use cnftctl.Host.Hoare.{Run, Run-bind, Run-mono, Run-Only}
use cnftctl.Host.Guard.{Any, Always, Run-any, Run-also, Run-refuse_if, Run-deferring}
use cnftctl.Host.Files.{NotRename, NotRename-AllowsFiles}
use cnftctl.Docker.Calls.{Only-closing}
use cnftctl.Docker.Write.{closing}
use cnftctl.Docker.Staged.{IsStored, IsStored-Ext, Flushed, write-sync, stored}
use cnftctl.App.Request.{Request, root_of}
use cnftctl.App.Daemon.{dockerd, validate_args, fill_candidate, validate_daemon, validate_live}

-- The text was stored in a file that `dockerd --validate` accepted.
abbrev pub IsAccepted : Text → Trace → Type 0
IsAccepted text t = (file : Text) × IsStored file text t × Seen (run dockerd (validate_args file)) t

pub IsAccepted-Ext :
    (text : Text) (u v : Trace) → Ext Any u v → IsAccepted text u → IsAccepted text v
IsAccepted-Ext text u v x (file, s, r) = (file, IsStored-Ext file text x s, Seen-Ext _ x r)

-- On the live system the text was accepted.
abbrev pub IsAcceptedLive : Request → Text → Trace → Type 0
IsAcceptedLive req text t = is_empty (root_of req) ≡ true → IsAccepted text t

module _ (e : Env) where
  fill_candidate-Run :
      (file text : Text) → Run Always (fill_candidate e file text) (λ _. Flushed e file text) Always
  unfolding fill_candidate
  fill_candidate-Run file text =
      Run-bind (Run-any (perform e (chmod file 0o600))) λ _. write-sync e file text

  -- A command that did not fail was seen to succeed.
  Run-command :
      (name : Text) (args : List Text)
      → Run Always
          (run_command e name args)
          (λ r t. r.failed ≡ false → Seen (run name args) t)
          Always
  unfolding run_command
  Run-command name args = record { holds = λ t h f. inl (refl, rw f refl) }

  asked :
      (file text : Text)
      → Run Always
          (do
            closing e file (fill_candidate e file text)
            r ← run_command e dockerd (validate_args file)
            refuse_if r.failed "docker daemon rejected proposed configuration; no file was written")
          (λ _. IsAccepted text)
          Always
  asked file text = Run-bind (stored e file text _ (fill_candidate-Run file text)) λ _.
      Run-bind
        (Run-also
          (Run-Only Any (IsStored file text) Always (λ u v x s. IsStored-Ext file text x s)
            (λ u s. tt) (Only-run_command e dockerd (validate_args file) tt))
          (Run-command dockerd (validate_args file)))
        λ r.
          Run-mono (λ u h. h) (λ _ u h. (file, h.0.0, h.0.1 h.1)) (λ u h. h)
            (Run-also
              (Run-Only Any
                (λ t.
                  IsStored file text t
                  × (r.failed ≡ false → Seen (run dockerd (validate_args file)) t))
                Always (λ u v x s. (IsStored-Ext file text x s.0, λ f. Seen-Ext _ x (s.1 f)))
                (λ u s. tt) (Only-refuse_if r.failed _))
              (Run-refuse_if r.failed _))

  validate_daemon-Run :
      (text : Text) → Run Always (validate_daemon e text) (λ _. IsAccepted text) Always
  unfolding validate_daemon
  validate_daemon-Run text =
      Run-bind (Run-any (ask_text e (create_temp [] (codes "cnftctl-daemon.*.json")))) λ file.
        Run-deferring Any (λ _. IsAccepted-Ext text) (λ u v x h. tt)
          (Only-perform e (remove file) tt) (asked file text)

  choose :
      (b : Bool) (text : Text)
      → Run Always
          (if b then validate_daemon e text else return tt)
          (λ _ t. b ≡ true → IsAccepted text t)
          Always
  choose true text = Run-mono (λ u h. h) (λ _ u h _. h) (λ u h. h) (validate_daemon-Run text)
  choose false text = record { holds = λ t h p. cc }

  pub validate_live-Run :
      (req : Request) (text : Text)
      → Run Always (validate_live e req text) (λ _. IsAcceptedLive req text) Always
  unfolding validate_live
  validate_live-Run req text = choose (is_empty (root_of req)) text

  Only-validate_daemon : (text : Text) → Only NotRename (validate_daemon e text)
  unfolding validate_daemon fill_candidate
  Only-validate_daemon text = search (only, Only-closing NotRename-AllowsFiles e) depth 30

  pub Only-validate_live : (req : Request) (text : Text) → Only NotRename (validate_live e req text)
  unfolding validate_live
  Only-validate_live req text =
      Only-if (is_empty (root_of req)) (Only-validate_daemon text) Only-return
