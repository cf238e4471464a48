-- ===== src/Docker/Staged.antt =====
-- `WritePlan` in time: daemon.json is replaced last.
use cnftctl.Base.{
  ℕ, [], Bool, true, false, not, ◌||◌, Option, Text, codes, eqb, is_empty, dir, Result, ok, err,
  ◌≡◌, refl, if◌then◌else◌,
}
use cnftctl.Host.{
  Call, Trace, Env, Error, M, ◌>>=◌, ◌>>◌, return, refuse_if, perform, ask_text, lstat, create_temp,
  write, sync, close, chmod, seek, read_all, rename, remove, open_file,
}
use cnftctl.Host.Trace.{
  Ext, Only, only, Only-perform, Only-refuse_if, Only-bind, Only-try, Only-return, Only-deferring,
  Only-ask_info, Only-ask_text, Seen, Seen-Ext,
}
use cnftctl.Host.Hoare.{Run, Run-bind, Run-Only, Run-mono, Run-if, Post-same}
use cnftctl.Host.Guard.{
  IsGuarded, IsGuarded-Ext, Any, Always, Run-any, Run-also, Caught, Run-try, Run-on_failure,
  Run-perform, Run-IsGuarded,
}
use cnftctl.Host.Files.{NotRename, NotRename-AllowsFiles}
use cnftctl.Docker.{Json, EditPlan}
use cnftctl.Docker.Calls.{
  Only-closing, Only-fill_stage, Only-check_parent, Only-check_destination, Only-back_up,
}
use cnftctl.Docker.Write.{
  Access, set_owner, create_backup, finished, closing, is_object, fill_backup, write_backup,
  back_up, fill_stage, stage, replace, write_plan,
}

-- The text was written to the file, flushed, and the file was closed.
abbrev pub IsStored : Text → Text → Trace → Type 0
IsStored file text t = Seen (write file text) t × Seen (sync file) t × Seen (close file) t

-- The document before has a backup, if there was one.
abbrev pub IsBackedUp : EditPlan → Trace → Type 0
IsBackedUp plan t = plan.before_exists ≡ true → (file : Text) × IsStored file plan.before t

abbrev pub NeedStaged : EditPlan → Call → Trace → Type 0
NeedStaged plan (rename a b) t = IsStored a plan.after t × IsBackedUp plan t × (b ≡ plan.path)
NeedStaged plan _ t = Unit

pub ready : (plan : EditPlan) (c : Call) (t : Trace) → NotRename c → NeedStaged plan c t
ready plan (rename a b) t q = absurd q
ready plan _ t q = tt

pub IsStored-Ext :
    {Q : Call → Type 0} (file text : Text) {u v : Trace}
    → Ext Q u v
    → IsStored file text u
    → IsStored file text v
IsStored-Ext file text x (w, s, c) = (Seen-Ext _ x w, Seen-Ext _ x s, Seen-Ext _ x c)

IsBackedUp-Ext :
    {Q : Call → Type 0} (plan : EditPlan) {u v : Trace}
    → Ext Q u v
    → IsBackedUp plan u
    → IsBackedUp plan v
IsBackedUp-Ext plan x b h = let (file, s) = b h in (file, IsStored-Ext file plan.before x s)

module _ (e : Env) where
  -- What the steps on an open file left, and that it was closed.
  finishing :
      (file : Text) (R : Trace → Type 0) (r : Result Error (Unit {0}))
      → ((u v : Trace) → Ext Any u v → R u → R v)
      → Run (Caught (λ _. R) Always r) (finished e file r) (λ _ t. R t × Seen (close file) t) Always
  unfolding finished
  finishing file R (ok _) keep =
      Run-also (Run-Only Any R Always keep (λ u h. tt) (Only-perform e _ tt))
        (Run-perform e (close file))
  finishing file R (err x) keep = record { holds = λ t h. tt }

  Run-closing :
      (file : Text) (R : Trace → Type 0) {m : M (Unit {0})}
      → ((u v : Trace) → Ext Any u v → R u → R v)
      → Run Always m (λ _. R) Always
      → Run Always (closing e file m) (λ _ t. R t × Seen (close file) t) Always
  unfolding closing
  Run-closing file R keep p = Run-bind (Run-try {Y = Always} p) λ r. finishing file R r keep

  -- The step keeps what was seen.
  Run-Seen {ℓ} :
      {A : Type ℓ} (c : Call) {m : M A} → Only Any m → Run (Seen c) m (λ _. Seen c) Always
  Run-Seen c o = Run-Only Any (Seen c) Always (λ u v x h. Seen-Ext c x h) (λ u _. tt) o

  abbrev pub Flushed : Text → Text → Trace → Type 0
  Flushed file text t = Seen (write file text) t × Seen (sync file) t

  Flushed-Ext :
      (file text : Text) (u v : Trace) → Ext Any u v → Flushed file text u → Flushed file text v
  Flushed-Ext file text u v x h = (Seen-Ext _ x h.0, Seen-Ext _ x h.1)

  pub write-sync :
      (file text : Text)
      → Run Always
          (do perform e (write file text); perform e (sync file))
          (λ _. Flushed file text)
          Always
  write-sync file text =
      Run-bind (Run-perform e (write file text))
        λ _. Run-also (Run-Seen (write file text) (Only-perform e _ tt)) (Run-perform e (sync file))

  pub stored :
      (file text : Text) (m : M (Unit {0}))
      → Run Always m (λ _. Flushed file text) Always
      → Run Always (closing e file m) (λ _. IsStored file text) Always
  stored file text m p =
      Run-mono (λ u h. h) (λ _ u h. (h.0.0, h.0.1, h.1)) (λ u h. h)
        (Run-closing file (Flushed file text) (Flushed-Ext file text) p)

  fill_backup-Run :
      (file : Text) (o : Option (ℕ × ℕ)) (text : Text)
      → Run Always (fill_backup e file o text) (λ _. Flushed file text) Always
  unfolding fill_backup
  fill_backup-Run file o text = Run-bind (Run-any (set_owner e file o)) λ _. write-sync file text

  Only-Any-reading :
      (j : Json) (file after : Text)
      → Only Any (do
        perform e (seek file)
        text ← ask_text e (read_all file)
        refuse_if
            (not (eqb text after) || not (is_object (j.decode text)))
            "staged daemon.json did not validate as the exact planned JSON object")
  Only-Any-reading j file after = search only depth 30

  fill_stage-Run :
      (j : Json) (file : Text) (a : Access) (after : Text)
      → Run Always (fill_stage e j file a after) (λ _. Flushed file after) Always
  unfolding fill_stage
  fill_stage-Run j file a after = Run-bind (Run-any (perform e (chmod file a.mode))) λ _.
      Run-bind (Run-any (set_owner e file a.owner)) λ _.
        Run-bind (Run-perform e (write file after)) λ _.
          Run-bind
            (Run-also (Run-Seen (write file after) (Only-perform e _ tt))
              (Run-perform e (sync file)))
            λ _.
              Run-Only Any (Flushed file after) Always (Flushed-Ext file after) (λ u h. tt)
                (Only-Any-reading j file after)

  write_backup-Run :
      (plan : EditPlan) (a : Access)
      → Run Always
          (write_backup e plan a)
          (λ _ t. (file : Text) × IsStored file plan.before t)
          Always
  unfolding write_backup
  write_backup-Run plan a =
      Run-bind (Run-any (create_backup e 100 0 plan.backup_path a.mode)) λ file.
        Run-on_failure Any (λ u v x h. h) (Only-perform e (remove file) tt)
          (Run-mono (λ u h. h) (λ _ u h. (file, h)) (λ u h. h)
            (stored file plan.before _ (fill_backup-Run file a.owner plan.before)))

  chosen :
      (b : Bool) (plan : EditPlan) (a : Access)
      → Run Always
          (if b then write_backup e plan a else return tt)
          (λ _ t. b ≡ true → (file : Text) × IsStored file plan.before t)
          Always
  chosen true plan a = Run-mono (λ u h. h) (λ _ u h _. h) (λ u h. h) (write_backup-Run plan a)
  chosen false plan a = record { holds = λ t h. λ p. cc }

  back_up-IsBackedUp :
      (plan : EditPlan) (a : Access) → Run Always (back_up e plan a) (λ _. IsBackedUp plan) Always
  unfolding back_up
  back_up-IsBackedUp plan a = chosen plan.before_exists plan a

  module _ (plan : EditPlan) where
    keeps :
        (u v : Trace)
        → Ext NotRename u v
        → IsGuarded (NeedStaged plan) u
        → IsGuarded (NeedStaged plan) v
    keeps = IsGuarded-Ext (NeedStaged plan) NotRename (ready plan)

    quiet {ℓ} :
        {A : Type ℓ} {m : M A}
        → Only NotRename m
        → Run
            (IsGuarded (NeedStaged plan))
            m
            (λ _. IsGuarded (NeedStaged plan))
            (IsGuarded (NeedStaged plan))
    quiet o = Run-Only NotRename _ _ keeps (λ u h. h) o

    -- The trace is guarded, and the document before has its backup.
    abbrev Backed : Trace → Type 0
    Backed t = IsGuarded (NeedStaged plan) t × IsBackedUp plan t

    Backed-Ext : (u v : Trace) → Ext NotRename u v → Backed u → Backed v
    Backed-Ext u v x h = (keeps u v x h.0, IsBackedUp-Ext plan x h.1)

    still {ℓ} :
        {A : Type ℓ} {m : M A}
        → Only NotRename m
        → Run Backed m (λ _. Backed) (IsGuarded (NeedStaged plan))
    still o = Run-Only NotRename Backed _ Backed-Ext (λ u h. h.0) o

    stage-Run :
        (j : Json) (a : Access) (file : Text)
        → Run Backed
            (stage e j plan a file)
            (λ _. IsGuarded (NeedStaged plan))
            (IsGuarded (NeedStaged plan))
    unfolding stage
    stage-Run j a file =
        Run-bind
          (Run-also
            (still (
              Only-closing NotRename-AllowsFiles e file
                (Only-fill_stage NotRename-AllowsFiles e j file a plan.after)))
            (stored file plan.after _ (fill_stage-Run j file a plan.after)))
          λ _.
            Run-mono (λ u h. (h.0.0, (h.1, h.0.1, refl))) (λ _ u h. h) (λ u h. h)
              (Run-IsGuarded (NeedStaged plan) e (rename file plan.path))

    replace-Run :
        (j : Json) (a : Access)
        → Run Backed
            (replace e j plan a)
            (λ _. IsGuarded (NeedStaged plan))
            (IsGuarded (NeedStaged plan))
    unfolding replace
    replace-Run j a =
        Run-bind
          (still
            (Only-ask_text e (create_temp (dir plan.path) (codes ".daemon.json.*.tmp")) (tt {0})))
          λ file.
            Run-bind
              (Run-on_failure NotRename keeps (Only-perform e (remove file) (tt {0}))
                (stage-Run j a file))
              λ _. quiet (
                Only-bind (Only-perform e (open_file (dir plan.path)) tt) λ _.
                  Only-deferring (Only-perform e (sync (dir plan.path)) tt)
                    (Only-perform e (close (dir plan.path)) tt))

    pub write_plan-Run :
        (j : Json)
        → Run
            (IsGuarded (NeedStaged plan))
            (write_plan e j plan)
            (λ _. IsGuarded (NeedStaged plan))
            (IsGuarded (NeedStaged plan))
    unfolding write_plan
    write_plan-Run j = Run-if (not plan.changed) (quiet Only-return) (
        Run-bind (quiet (Only-refuse_if (is_empty plan.path || is_empty plan.backup_path) _)) λ _.
          Run-bind (quiet (Only-check_parent NotRename-AllowsFiles e (dir plan.path))) λ _.
            Run-bind (quiet (Only-try (Only-ask_info e (lstat plan.path) (tt {0})))) λ st.
              Run-bind (quiet (Only-check_destination NotRename-AllowsFiles e plan st)) λ a.
                Run-bind
                  (Run-also (quiet (Only-back_up NotRename-AllowsFiles e plan a))
                    (back_up-IsBackedUp plan a))
                  λ _. replace-Run j a)

  -- Whatever the machine answers, `WritePlan` renames a staged file, onto the path of the plan, only
  -- after the planned text was written to it and the file was flushed and closed, each with success, and, if
  -- the plan starts from an existing document, after that document's text was stored in a
  -- backup file in the same way.
  pub write_plan-IsGuarded :
      (j : Json) (plan : EditPlan) → IsGuarded (NeedStaged plan) (write_plan e j plan []).1
  write_plan-IsGuarded j plan =
      Post-same _ (write_plan e j plan []) ((write_plan-Run plan j).holds [] tt)
