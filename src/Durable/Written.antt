-- ===== src/Durable/Written.antt =====
-- What a success of `durableWrite` and of the writers over it tells.
use cnftctl.Base.{ℕ, Text, codes, dir}
use cnftctl.Host.{
  Call, Trace, Env, M, try, write, rename, remove, perform, ask_info, lstat, refuse_if, ask_text,
  create_temp, deferring, ◌>>◌,
}
use cnftctl.Host.Trace.{Ext, Only, only, Only-perform, Seen, Seen-Ext}
use cnftctl.Host.Hoare.{Run, Run-bind, Run-Only, Run-mono}
use cnftctl.Host.Guard.{Any, Always, Run-any, Run-also, Run-deferring, Run-perform}
use cnftctl.Durable.{fill_temp, mkdir_safe, sync_dir, durable_write, is_link}
use cnftctl.Durable.Flushed.{fill_temp-IsFlushed, IsFlushed}

-- A temporary file with the text was renamed to the path.
abbrev pub IsWritten : Text → Text → Trace → Type 0
IsWritten path text t = (tmp : Text) × Seen (write tmp text) t × Seen (rename tmp path) t

pub IsWritten-Ext :
    {Q : Call → Type 0} (path text : Text) {u v : Trace}
    → Ext Q u v
    → IsWritten path text u
    → IsWritten path text v
IsWritten-Ext path text x (tmp, w, r) = (tmp, Seen-Ext _ x w, Seen-Ext _ x r)

module _ (e : Env) where
  Only-sync_dir : (path : Text) → Only Any (sync_dir e path)
  unfolding sync_dir
  Only-sync_dir path = search (only, tt {0}) depth 30

  kept :
      (path text : Text) {m : M (Unit {0})}
      → Only Any m
      → Run (IsWritten path text) m (λ _. IsWritten path text) Always
  kept path text o = Run-Only Any _ Always (λ u v x. IsWritten-Ext path text x) (λ u h. tt) o

  renamed :
      (tmp path text : Text)
      → Run (IsFlushed text tmp) (perform e (rename tmp path)) (λ _. IsWritten path text) Always
  renamed tmp path text =
      Run-mono (λ u h. h.0) (λ _ u h. (tmp, h.0, h.1)) (λ u h. h)
        (Run-also
          (Run-Only Any (λ t. Seen (write tmp text) t) Always (λ u v x. Seen-Ext _ x) (λ u h. tt)
            (Only-perform e (rename tmp path) (tt {0})))
          (Run-perform e (rename tmp path)))

  -- A temporary file is filled and renamed, and the directory flushed.
  pub replaced-IsWritten :
      (tmp path text : Text) (mode : ℕ)
      → Run Always
          (deferring
            (do fill_temp e tmp text mode; perform e (rename tmp path); sync_dir e (dir path))
            (perform e (remove tmp)))
          (λ _. IsWritten path text)
          Always
  replaced-IsWritten tmp path text mode =
      Run-deferring Any (λ _ u v x. IsWritten-Ext path text x) (λ u v x h. tt)
        (Only-perform e (remove tmp) (tt {0}))
        (Run-bind (fill_temp-IsFlushed e tmp text mode)
          λ _. Run-bind (renamed tmp path text) λ _. kept path text (Only-sync_dir (dir path)))

  pub durable_write-IsWritten :
      (path text : Text) (mode : ℕ)
      → Run Always (durable_write e path text mode) (λ _. IsWritten path text) Always
  unfolding durable_write
  durable_write-IsWritten path text mode = Run-bind (Run-any (mkdir_safe e (dir path) 0o700)) λ _.
      Run-bind (Run-any (try (ask_info e (lstat path)))) λ st.
        Run-bind (Run-any (refuse_if (is_link e st) "refusing to replace symlink")) λ _.
          Run-bind (Run-any (ask_text e (create_temp (dir path) (codes ".cnftctl-*"))))
            λ tmp. replaced-IsWritten tmp path text mode
