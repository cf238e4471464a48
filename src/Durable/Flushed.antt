-- ===== src/Durable/Flushed.antt =====
-- `durableWrite`: a file takes its name only with its whole text flushed.
use cnftctl.Base.{dir, codes, ℕ, [], Text, Result, ok, err}
use cnftctl.Host.{
  Call, Trace, Env, Error, M, ◌>>◌, give, first_error, write, sync, close, chmod, rename,
  create_temp, perform, lstat, remove, deferring,
}
use cnftctl.Host.Files.{NotRename}
use cnftctl.Host.Trace.{
  Ext, Only, only, Only-perform, Only-try, Only-ask_info, Only-ask_text, Only-refuse_if, Seen,
  Seen-Ext,
}
use cnftctl.Host.Hoare.{Post, Run, Run-bind, Run-Only, Post-same}
use cnftctl.Host.Guard.{
  IsGuarded, IsGuarded-Ext, Any, Always, Run-also, Caught, Run-try, Run-try_Only, Run-deferring,
  Run-perform, Run-IsGuarded,
}
use cnftctl.Durable.{mkdir_safe, sync_dir, fill_temp, durable_write, is_link}

-- Before a file is renamed its text was written, flushed to the disk and closed.
abbrev pub IsFlushed : Text → Text → Trace → Type 0
IsFlushed text tmp t = Seen (write tmp text) t × Seen (sync tmp) t × Seen (close tmp) t

abbrev pub NeedFlushed : Text → Call → Trace → Type 0
NeedFlushed text (rename a b) t = IsFlushed text a t
NeedFlushed text _ t = Unit

module _ (e : Env) where
  Only-mkdir_safe : (path : Text) (mode : ℕ) → Only NotRename (mkdir_safe e path mode)
  unfolding mkdir_safe
  Only-mkdir_safe path mode = search only depth 30

  pub Only-sync_dir : (path : Text) → Only NotRename (sync_dir e path)
  unfolding sync_dir
  Only-sync_dir path = search only depth 30

  pub Only-fill_temp : (tmp text : Text) (mode : ℕ) → Only NotRename (fill_temp e tmp text mode)
  unfolding fill_temp
  Only-fill_temp tmp text mode = search only depth 30

  -- The step keeps what was seen.
  Run-Seen {ℓ} :
      {A : Type ℓ} (c : Call) {m : M A} → Only Any m → Run (Seen c) m (λ _. Seen c) Always
  Run-Seen c o = Run-Only Any (Seen c) Always (λ u v x h. Seen-Ext c x h) (λ u _. tt) o

  -- The two steps of `fill_temp` from what each left.
  give-first_error :
      (tmp text : Text) (a b : Result Error (Unit {0})) (t : Trace)
      → Caught (λ _ u. Seen (write tmp text) u × Seen (sync tmp) u) Always a t
      → Caught (λ _. Seen (close tmp)) Always b t
      → Post (λ _. IsFlushed text tmp) Always (give (first_error a b) t)
  give-first_error tmp text (ok a) (ok b) t h k = (h.0, h.1, k)
  give-first_error tmp text (ok a) (err y) t h k = tt
  give-first_error tmp text (err x) b t h k = tt

  written_stable :
      (tmp text : Text) (r : Result Error (Unit {0})) (u v : Trace)
      → Ext Any u v
      → Caught (λ _ t. Seen (write tmp text) t × Seen (sync tmp) t) Always r u
      → Caught (λ _ t. Seen (write tmp text) t × Seen (sync tmp) t) Always r v
  written_stable tmp text (ok a) u v x h = (Seen-Ext _ x h.0, Seen-Ext _ x h.1)
  written_stable tmp text (err y) u v x h = tt

  write-sync :
      (tmp text : Text) (mode : ℕ)
      → Run Always
          (do perform e (write tmp text); perform e (chmod tmp mode); perform e (sync tmp))
          (λ _ t. Seen (write tmp text) t × Seen (sync tmp) t)
          Always
  write-sync tmp text mode = Run-bind (Run-perform e (write tmp text)) λ _.
      Run-bind (Run-Seen (write tmp text) (Only-perform e _ tt))
        λ _. Run-also (Run-Seen (write tmp text) (Only-perform e _ tt)) (Run-perform e (sync tmp))

  pub fill_temp-IsFlushed :
      (tmp text : Text) (mode : ℕ)
      → Run Always (fill_temp e tmp text mode) (λ _. IsFlushed text tmp) Always
  unfolding fill_temp
  fill_temp-IsFlushed tmp text mode = Run-bind (Run-try (write-sync tmp text mode)) λ w.
      Run-bind
        (Run-also (Run-try_Only Any _ Always (written_stable tmp text w) (Only-perform e _ tt))
          (Run-try (Run-perform e (close tmp))))
        λ c. record { holds = λ t h. give-first_error tmp text w c t h.0 h.1 }

  NotRename-ready : (text : Text) (c : Call) (t : Trace) → NotRename c → NeedFlushed text c t
  NotRename-ready text (rename a b) t q = absurd q
  NotRename-ready text _ t q = tt

  pub quiet {ℓ} :
      {A : Type ℓ} (text : Text) {m : M A}
      → Only NotRename m
      → Run
          (IsGuarded (NeedFlushed text))
          m
          (λ _. IsGuarded (NeedFlushed text))
          (IsGuarded (NeedFlushed text))
  quiet text o =
      Run-Only NotRename _ _
        (λ u v x. IsGuarded-Ext (NeedFlushed text) NotRename (NotRename-ready text) u v x)
        (λ u h. h) o

  -- A temporary file is filled and renamed, and the directory flushed.
  pub replace-Run :
      (tmp path text : Text) (mode : ℕ)
      → Run
          (IsGuarded (NeedFlushed text))
          (deferring
            (do fill_temp e tmp text mode; perform e (rename tmp path); sync_dir e (dir path))
            (perform e (remove tmp)))
          (λ _ t. IsGuarded (NeedFlushed text) t)
          (IsGuarded (NeedFlushed text))
  replace-Run tmp path text mode =
      Run-deferring NotRename
        (λ _. IsGuarded-Ext (NeedFlushed text) NotRename (NotRename-ready text))
        (IsGuarded-Ext (NeedFlushed text) NotRename (NotRename-ready text))
        (Only-perform e (remove tmp) (tt {0}))
        (Run-bind
          (Run-also (quiet text (Only-fill_temp tmp text mode)) (fill_temp-IsFlushed tmp text mode))
          λ _.
            Run-bind (Run-IsGuarded (NeedFlushed text) e (rename tmp path))
              λ _. quiet text (Only-sync_dir (dir path)))

  durable_write-Run :
      (path text : Text) (mode : ℕ)
      → Run
          (IsGuarded (NeedFlushed text))
          (durable_write e path text mode)
          (λ _ t. IsGuarded (NeedFlushed text) t)
          (IsGuarded (NeedFlushed text))
  unfolding durable_write
  durable_write-Run path text mode = Run-bind (quiet text (Only-mkdir_safe (dir path) 0o700)) λ _.
      Run-bind (quiet text (Only-try (Only-ask_info e (lstat path) (tt {0})))) λ st.
        Run-bind (quiet text (Only-refuse_if (is_link e st) "refusing to replace symlink")) λ _.
          Run-bind
            (quiet text (Only-ask_text e (create_temp (dir path) (codes ".cnftctl-*")) (tt {0})))
            λ tmp. replace-Run tmp path text mode

  -- Whatever the machine answers, `durableWrite` renames a temporary file into place only after
  -- the whole text was written to it and the file was flushed and closed, each with success.
  pub durable_write-IsGuarded :
      (path text : Text) (mode : ℕ)
      → IsGuarded (NeedFlushed text) (durable_write e path text mode []).1
  durable_write-IsGuarded path text mode =
      Post-same _ (durable_write e path text mode [])
        ((durable_write-Run path text mode).holds [] tt)
