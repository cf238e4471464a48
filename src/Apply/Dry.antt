-- ===== src/Apply/Dry.antt =====
-- A dry run of `Apply` reads files and changes nothing.
use cnftctl.Base.{List, [], ◌∷◌, Bool, true, false, not, none, Text, ◌≡◌, if◌then◌else◌, ◌&&◌, ◌==◌}
use cnftctl.Host.{Call, Trace, read_file, Env, M, return}
use cnftctl.Host.Trace.{Ext, here, Only, only, Only-refuse_if, Only-return, Only-give, Only-bind}
use cnftctl.Durable.{rooted, first, with_lock}
use cnftctl.Apply.Model.{File, Options, Codec, Plan, run_root}
use cnftctl.Apply.Manifest
use cnftctl.Apply.Run
use cnftctl.Apply.Manifest.{finalize_files, build_manifest, plan_files}
use cnftctl.Apply.Run.{
  apply, apply_locked, effective_uid, is_default_timeout, validate_ssh_override,
}

abbrev pub IsRead : Call → Type 0
IsRead (read_file path) = Unit
IsRead _ = ⊥

module _ (e : Env) (k : Codec) where
  Only-plan_change :
      (root generation : Text) (f : File) → Only IsRead (Manifest.plan_change e k root generation f)
  unfolding Manifest.plan_change
  Only-plan_change root generation f = search only depth 30

  Only-plan_changes :
      (root generation : Text) (files : List File)
      → Only IsRead (Manifest.plan_changes e k root generation files)
  unfolding Manifest.plan_changes
  Only-plan_changes root generation [] = Only-return
  Only-plan_changes root generation (f ∷ files) =
      Only-bind (Only-plan_change root generation f)
        λ _. Only-bind (Only-plan_changes root generation files) λ _. Only-return

  Only-plan_files :
      (root : Text) (files : List File) (ddns : Bool) → Only IsRead (plan_files e k root files ddns)
  unfolding plan_files
  Only-plan_files root files ddns = search (only, Only-plan_changes) depth 30

  Only-uid : Only IsRead (effective_uid e k)
  unfolding effective_uid
  Only-uid = record { added = λ t. here }

  stop_here :
      (dry : Bool) (plan : Plan) (m : M (Run.Applied))
      → dry ≡ true
      → Only IsRead (if dry then return (none, plan) else m)
  stop_here true plan m h = Only-return
  stop_here false plan m h = absurd (cc)

  dry_run-Only : (o : Options) → o.dry_run ≡ true → Only IsRead (apply e k o)
  unfolding apply
  dry_run-Only o dry = Only-bind Only-uid λ uid.
      Only-bind (Only-refuse_if (o.require_root && not (uid == 0)) "root privileges are required")
        λ _.
          Only-bind
            (Only-refuse_if (not (is_default_timeout o.rollback_timeout))
              "rollback timeout must be 2m0s")
            λ _. Only-bind (Only-give {r = validate_ssh_override o}) λ audit.
              Only-bind (Only-give {r = finalize_files k o.files o.ddns_desired}) λ f.
                Only-bind (Only-give {r = build_manifest k f.1}) λ b.
                  Only-bind (Only-plan_files o.root b.1 o.ddns_desired) λ plan.
                    stop_here o.dry_run plan
                      (with_lock e (rooted o.root (first o.run_root run_root)) (
                        apply_locked e k o audit f.0
                          (record (b.0) { ddns_desired = o.ddns_desired }) b.1 plan))
                      dry

  -- A dry run only reads files: it makes no other call, whatever the machine answers.
  pub dry_run-reads : (o : Options) (t : Trace) → o.dry_run ≡ true → Ext IsRead t (apply e k o t).1
  dry_run-reads o t dry = (dry_run-Only o dry).added t
