-- ===== src/Docker/Calls.antt =====
-- Which calls `WritePlan` can make.
use cnftctl.Base.{ℕ, zero, suc, Option, none, some, Text, Result, ok, err}
use cnftctl.Host.{Call, Env, Error, M, FileInfo, message, is_exist, rename}
use cnftctl.Host.Trace.{
  Only, only, Only-perform, Only-bind, Only-try, Only-fail, Only-return, Only-if,
}
use cnftctl.Host.Files.{AllowsFiles}
use cnftctl.Docker.{Json, EditPlan}
use cnftctl.Docker.Write.{
  Access, backup_name, set_owner, opened_or, create_backup, finished, closing, fill_backup,
  write_backup, back_up, check_current, check_destination, check_parent, fill_stage, stage, replace,
  write_plan,
}

module _ {Q : Call → Type 0} (files : AllowsFiles Q) (e : Env) where
  Only-set_owner : (file : Text) (o : Option (ℕ × ℕ)) → Only Q (set_owner e file o)
  unfolding set_owner
  Only-set_owner file none = Only-return
  Only-set_owner file (some (uid, gid)) = Only-perform e _ (files.owners file uid gid)

  Only-opened_or :
      (path : Text) (next : M Text) (r : Result Error (Unit {0}))
      → Only Q next
      → Only Q (opened_or e path next r)
  unfolding opened_or
  Only-opened_or path next (ok _) o = Only-return
  Only-opened_or path next (err x) o =
      Only-if (is_exist x) o (Only-fail {x = message "create daemon.json backup"})

  Only-create_backup :
      (left n : ℕ) (base : Text) (mode : ℕ) → Only Q (create_backup e left n base mode)
  unfolding create_backup
  Only-create_backup zero n base mode =
      Only-fail {x = message "could not create a unique daemon.json backup"}
  Only-create_backup (suc left) n base mode =
      Only-bind (Only-try (Only-perform e _ (files.exclusives (backup_name base n) mode))) λ r.
        Only-opened_or (backup_name base n) (create_backup e left (suc n) base mode) r
          (Only-create_backup left (suc n) base mode)

  Only-fill_backup :
      (file : Text) (o : Option (ℕ × ℕ)) (text : Text) → Only Q (fill_backup e file o text)
  unfolding fill_backup
  Only-fill_backup file o text = search (only, Only-set_owner, files.writes, files.syncs) depth 30

  pub Only-fill_stage :
      (j : Json) (file : Text) (a : Access) (after : Text) → Only Q (fill_stage e j file a after)
  unfolding fill_stage
  Only-fill_stage j file a after =
      search
        (only, Only-set_owner, files.modes, files.writes, files.syncs, files.seeks, files.reads)
        depth 30

  Only-finished : (file : Text) (r : Result Error (Unit {0})) → Only Q (finished e file r)
  unfolding finished
  Only-finished file (ok _) = Only-perform e _ (files.closes file)
  Only-finished file (err x) =
      Only-bind (Only-try (Only-perform e _ (files.closes file))) λ _. Only-fail {x = x}

  pub Only-closing : (file : Text) {m : M (Unit {0})} → Only Q m → Only Q (closing e file m)
  unfolding closing
  Only-closing file o = Only-bind (Only-try o) λ r. Only-finished file r

  pub Only-check_parent : (parent : Text) → Only Q (check_parent e parent)
  unfolding check_parent
  Only-check_parent parent = search (only, files.stats) depth 30

  pub Only-check_destination :
      (plan : EditPlan) (r : Result Error FileInfo) → Only Q (check_destination e plan r)
  unfolding check_destination check_current
  Only-check_destination plan (ok st) = search (only, files.files) depth 30
  Only-check_destination plan (err x) = search (only, files.files) depth 30

  Only-write_backup : (plan : EditPlan) (a : Access) → Only Q (write_backup e plan a)
  unfolding write_backup
  Only-write_backup plan a =
      search (only, Only-create_backup, Only-closing, Only-fill_backup, files.removes) depth 30

  pub Only-back_up : (plan : EditPlan) (a : Access) → Only Q (back_up e plan a)
  unfolding back_up
  Only-back_up plan a = Only-if plan.before_exists (Only-write_backup plan a) Only-return

  module _ (renames : (p q : Text) → Q (rename p q)) (j : Json) where
    Only-stage : (plan : EditPlan) (a : Access) (file : Text) → Only Q (stage e j plan a file)
    unfolding stage
    Only-stage plan a file = search (only, Only-closing, Only-fill_stage, renames) depth 30

    Only-replace : (plan : EditPlan) (a : Access) → Only Q (replace e j plan a)
    unfolding replace
    Only-replace plan a =
        search
          (only, Only-stage, files.temps, files.removes, files.opens, files.syncs, files.closes)
          depth 30

    pub Only-write_plan : (plan : EditPlan) → Only Q (write_plan e j plan)
    unfolding write_plan
    Only-write_plan plan =
        search
          (only, files.stats, Only-check_parent, Only-check_destination, Only-back_up, Only-replace)
          depth 30
