-- ===== src/App/Saved.antt =====
-- The commands that edit the configuration leave a valid one.
use cnftctl.Base.{[], true}
use cnftctl.Host.{Env, M, read_file}
use cnftctl.Host.Trace.{Only, Only-return, Only-try, Only-give, Only-ask_text}
use cnftctl.Host.Hoare.{Run, Run-bind, Run-if, Post-same}
use cnftctl.Host.Guard.{IsGuarded, Run-quiet}
use cnftctl.Host.Files.{NotRename, NotRename-AllowsFiles}
use cnftctl.Config
use cnftctl.Config.File.{Yaml, canonicalize, save}
use cnftctl.Config.Saved.{NeedValid, NeedValid-ready, save_file-Run}
use cnftctl.App.Request.{Request, root_of, config_path}
use cnftctl.App.Change.{Changed}
use cnftctl.App.Edit.{is_text, write_config, edit}
use cnftctl.App.Calls.{Only-managed_path, Only-load_config, Only-edited}

module _ (e : Env) (cip : Config.Netip) (y : Yaml) where
  abbrev Kept {ℓ} : {A : Type ℓ} → M A → Type 0
  Kept m =
      Run (IsGuarded (NeedValid e cip y)) m (λ _. IsGuarded (NeedValid e cip y))
        (IsGuarded (NeedValid e cip y))

  quiet {ℓ} : {A : Type ℓ} {m : M A} → Only NotRename m → Kept m
  quiet o = Run-quiet (NeedValid e cip y) NotRename (NeedValid-ready e cip y) o

  write_config-Run : (req : Request) (cfg : Config.Config) → Kept (write_config e cip y req cfg)
  unfolding write_config
  write_config-Run req cfg =
      Run-bind
        (quiet (Only-managed_path NotRename-AllowsFiles e (root_of req) (config_path req) true))
        λ path. Run-bind (quiet (Only-give {r = save e cip y cfg})) λ text.
          Run-bind (quiet (Only-try (Only-ask_text e (read_file path) (tt {0})))) λ before.
            Run-if (is_text text before) (quiet Only-return)
              (save_file-Run e cip y path (canonicalize e.lower cip cfg) 0o600)

  -- `load_config`, the change, and what is written.
  pub edit-Run : (req : Request) (change : Config.Config → Changed) → Kept (edit e cip y req change)
  unfolding edit
  edit-Run req change = Run-bind (quiet (Only-load_config NotRename-AllowsFiles e cip y req)) λ cfg.
      Run-bind (quiet (Only-edited NotRename-AllowsFiles e cip y (change cfg)))
        λ r. Run-bind (write_config-Run req r.0) λ _. quiet Only-return

  -- Whatever the machine answers, a command that edits the configuration, whatever its change makes of
  -- it, renames a file into place only after the text of a valid configuration in canonical form was
  -- written to it and the file was flushed and closed, each with success.
  pub edit-IsGuarded :
      (req : Request) (change : Config.Config → Changed)
      → IsGuarded (NeedValid e cip y) (edit e cip y req change []).1
  edit-IsGuarded req change =
      Post-same _ (edit e cip y req change []) ((edit-Run req change).holds [] tt)
