-- ===== src/Docker/Write.antt =====
-- `WritePlan`: put the planned daemon.json in place, with a backup of the one before.
use Prim.Native.Nat.{bit_and}
use cnftctl.Base.{
  ℕ, zero, suc, ◌-◌, ◌++◌, Bool, true, false, ◌||◌, not, Option, none, some, Text, codes, eqb,
  is_empty, dir, decimal, Result, ok, err, if◌then◌else◌, ◌==◌,
}
use cnftctl.Host.{
  Env, M, FileInfo, Error, ◌>>=◌, ◌>>◌, return, fail, try, deferring, on_failure, refuse_if,
  message, is_not_exist, is_exist, perform, ask_info, ask_text, lstat, read_file, open_exclusive,
  create_temp, write, chmod, chown, sync, seek, read_all, close, rename, remove, open_file,
}
use cnftctl.Docker.{Json, Object, EditPlan}

-- `mode &^ 0o022`
abbrev pub private : ℕ → ℕ
private mode = mode - bit_and mode 0o022

-- The mode and the owner of the file that is replaced.
pub record Access : Type 0 where
  pub mode : ℕ
  pub owner : Option (ℕ × ℕ)

-- `createBackup` tries the name, and then the name with a number.
abbrev pub backup_name : Text → ℕ → Text
backup_name base zero = base
backup_name base (suc n) = base ++ (codes "." ++ decimal (suc n))

abbrev pub is_object : Option (Option Object) → Bool
is_object none = false
is_object (some none) = false
is_object (some (some o)) = true

module _ (e : Env) where
  -- `setOwner`
  unfoldable pub set_owner : Text → Option (ℕ × ℕ) → M (Unit {0})
  set_owner file none = return tt
  set_owner file (some (uid, gid)) = perform e (chown file uid gid)

  unfoldable pub opened_or : Text → M Text → Result Error (Unit {0}) → M Text
  opened_or path next (ok _) = return path
  opened_or path next (err x) =
      if is_exist x then next else fail (message "create daemon.json backup")

  -- `createBackup`: the names from the `n`-th on, while `left` attempts remain.
  unfoldable pub create_backup : ℕ → ℕ → Text → ℕ → M Text
  unfolding opened_or
  create_backup zero n base mode = fail (message "could not create a unique daemon.json backup")
  create_backup (suc left) n base mode = do
    r ← try (perform e (open_exclusive (backup_name base n) mode))
    opened_or (backup_name base n) (create_backup left (suc n) base mode) r

  -- `if err := …; err != nil { _ = f.Close(); return err }`, and `Close` at the end.
  unfoldable pub finished : Text → Result Error (Unit {0}) → M (Unit {0})
  finished file (ok _) = perform e (close file)
  finished file (err x) = do _ ← try (perform e (close file)); fail x

  unfoldable pub closing : Text → M (Unit {0}) → M (Unit {0})
  unfolding finished
  closing file m = do r ← try m; finished file r

  unfoldable pub fill_backup : Text → Option (ℕ × ℕ) → Text → M (Unit {0})
  unfolding set_owner
  fill_backup file owner text = do
    set_owner file owner
    perform e (write file text)
    perform e (sync file)

  unfoldable pub write_backup : EditPlan → Access → M (Unit {0})
  unfolding create_backup closing fill_backup
  write_backup plan a = do
    file ← create_backup 100 0 plan.backup_path a.mode
    on_failure (closing file (fill_backup file a.owner plan.before)) (perform e (remove file))

  unfoldable pub back_up : EditPlan → Access → M (Unit {0})
  unfolding write_backup
  back_up plan a = if plan.before_exists then write_backup plan a else return tt

  -- What stands at the destination, against what was inspected.
  unfoldable pub check_current : EditPlan → FileInfo → M Access
  check_current plan st = do
    refuse_if (not st.is_regular) "daemon.json destination must be a regular file and not a symlink"
    text ← ask_text e (read_file plan.path)
    refuse_if (not (eqb text plan.before)) "daemon.json changed since it was inspected"
    return (record { mode = private st.perm; owner = st.owner })

  unfoldable pub check_destination : EditPlan → Result Error FileInfo → M Access
  unfolding check_current
  check_destination plan (err x) =
      if plan.before_exists
      then fail (message "daemon.json changed since it was inspected")
      else if not (is_not_exist x)
      then fail (message "inspect daemon.json destination")
      else return (record { mode = 0o600; owner = none })
  check_destination plan (ok st) =
      if not plan.before_exists
      then fail (message "daemon.json was created since it was inspected")
      else check_current plan st

  unfoldable pub check_parent : Text → M (Unit {0})
  check_parent parent = do
    st ← ask_info e (lstat parent)
    refuse_if (st.is_symlink || not st.is_dir)
        "daemon.json parent must be a real directory, not a symlink"
    refuse_if (not (bit_and st.perm 0o022 == 0)) "daemon.json parent is group- or world-writable"

  -- Fill the staged file, and read it back.
  unfoldable pub fill_stage : Json → Text → Access → Text → M (Unit {0})
  unfolding set_owner
  fill_stage j file a after = do
    perform e (chmod file a.mode)
    set_owner file a.owner
    perform e (write file after)
    perform e (sync file)
    perform e (seek file)
    text ← ask_text e (read_all file)
    refuse_if (not (eqb text after) || not (is_object (j.decode text)))
        "staged daemon.json did not validate as the exact planned JSON object"

  unfoldable pub stage : Json → EditPlan → Access → Text → M (Unit {0})
  unfolding fill_stage closing
  stage j plan a file = do
    closing file (fill_stage j file a plan.after)
    perform e (rename file plan.path)

  unfoldable pub replace : Json → EditPlan → Access → M (Unit {0})
  unfolding stage
  replace j plan a = do
    file ← ask_text e (create_temp (dir plan.path) (codes ".daemon.json.*.tmp"))
    on_failure (stage j plan a file) (perform e (remove file))
    perform e (open_file (dir plan.path))
    deferring (perform e (sync (dir plan.path))) (perform e (close (dir plan.path)))

  -- `WritePlan`
  unfoldable pub write_plan : Json → EditPlan → M (Unit {0})
  unfolding check_parent check_destination back_up replace
  write_plan j plan = if not plan.changed then return tt else (do
    refuse_if (is_empty plan.path || is_empty plan.backup_path)
        "edit plan is missing path or backup path"
    check_parent (dir plan.path)
    st ← try (ask_info e (lstat plan.path))
    a ← check_destination plan st
    back_up plan a
    replace j plan a)
