-- ===== src/App/Calls.antt =====
-- Which calls the commands that edit the configuration can make.
use cnftctl.Base.{ℕ, Bool, Text, Result, ok, err}
use cnftctl.Host.{Env, Call, Error, message, is_not_exist, rename}
use cnftctl.Host.Trace.{Only, only, Only-refuse_if, Only-fail, Only-return, Only-if}
use cnftctl.Host.Files.{AllowsFiles}
use cnftctl.Durable.{fill_temp, sync_dir}
use cnftctl.Config
use cnftctl.Config.File.{Yaml, load_file, put_text, save_file}
use cnftctl.App.Request.{Request}
use cnftctl.App.Path.{check_target, check_texts, resolve_parent, managed_below, managed_path}
use cnftctl.App.Change.{Changed}
use cnftctl.App.Edit.{edited, load_config, write_config, edit}

module _ {Q : Call → Type 0} (a : AllowsFiles Q) (e : Env) where
  Only-check_target :
      (root_real : Text) (r : Result Error Text) → Only Q (check_target e root_real r)
  unfolding check_target
  Only-check_target root_real (ok real) = Only-refuse_if _ _
  Only-check_target root_real (err x) =
      Only-if (is_not_exist x) Only-return (Only-fail {x = message "resolve managed path"})

  Only-check_texts : (root path : Text) → Only Q (check_texts e root path)
  unfolding check_texts
  Only-check_texts root path = search only depth 30

  Only-resolve_parent :
      (root_real path : Text) (b : Bool) → Only Q (resolve_parent e root_real path b)
  unfolding resolve_parent
  Only-resolve_parent root_real path b = search (only, a.dirs, a.links) depth 30

  pub Only-managed_path : (root path : Text) (b : Bool) → Only Q (managed_path e root path b)
  unfolding managed_path managed_below
  Only-managed_path root path b =
      search (only, a.links, Only-check_texts, Only-resolve_parent, Only-check_target) depth 30

  module _ (cip : Config.Netip) (y : Yaml) where
    Only-load_file : (path : Text) → Only Q (load_file e cip y path)
    unfolding load_file
    Only-load_file path = search (only, a.opens, a.reads, a.closes) depth 30

    pub Only-load_config : (req : Request) → Only Q (load_config e cip y req)
    unfolding load_config
    Only-load_config req = search (only, Only-managed_path, Only-load_file) depth 30

    pub Only-edited : (r : Changed) → Only Q (edited r)
    Only-edited (ok r) = Only-return
    Only-edited (err x) = Only-fail {x = message "the change was refused"}

    Only-fill_temp : (tmp text : Text) (mode : ℕ) → Only Q (fill_temp e tmp text mode)
    unfolding fill_temp
    Only-fill_temp tmp text mode = search (only, a.writes, a.modes, a.syncs, a.closes) depth 30

    Only-sync_dir : (path : Text) → Only Q (sync_dir e path)
    unfolding sync_dir
    Only-sync_dir path = search (only, a.opens, a.syncs, a.closes) depth 30

    module _ (renames : (p q : Text) → Q (rename p q)) where
      Only-put_text :
          (path : Text) (mode : ℕ) (text : Text) → Only Q (put_text e cip y path mode text)
      unfolding put_text
      Only-put_text path mode text =
          search (only, a.dirs, a.temps, a.removes, renames, Only-fill_temp, Only-sync_dir) depth 30

      Only-save_file :
          (path : Text) (cfg : Config.Config) (mode : ℕ) → Only Q (save_file e cip y path cfg mode)
      unfolding save_file
      Only-save_file path cfg mode = search (only, Only-put_text) depth 30

      pub Only-write_config :
          (req : Request) (cfg : Config.Config) → Only Q (write_config e cip y req cfg)
      unfolding write_config
      Only-write_config req cfg = search (only, a.files, Only-managed_path, Only-save_file) depth 30

      pub Only-edit :
          (req : Request) (change : Config.Config → Changed) → Only Q (edit e cip y req change)
      unfolding edit
      Only-edit req change =
          search (only, Only-load_config, Only-edited, Only-write_config) depth 30
