-- ===== src/App/Validated.antt =====
-- `docker backend write` in time: Docker accepts a document before it is put in place.
use cnftctl.Base.{
  ℕ, [], Bool, true, false, not, Text, codes, Result, ok, err, ◌≡◌, refl, inl, inr, Bool-cases,
}
use cnftctl.Host.{
  try, Call, Trace, Env, Error, M, ◌>>=◌, ◌>>◌, is_not_exist, ask_text, read_file, rename,
}
use cnftctl.Host.Trace.{here, Only, Only-refuse_if, Only-fail, Only-return, Only-if}
use cnftctl.Host.Hoare.{Post, Post-mono, Run, Run-bind, Run-if, Run-mono, Post-same}
use cnftctl.Host.Guard.{IsGuarded, IsGuarded-map, Run-quiet, Run-also, Run-refuse_if, Run-and}
use cnftctl.Host.Files.{NotRename, NotRename-AllowsFiles, Any-AllowsFiles}
use cnftctl.Docker.Calls.{Only-write_plan}
use cnftctl.Docker.{Json, EditPlan, DockerError, plan_nftables_backend}
use cnftctl.Docker.Planned.{IsFor, plan_nftables_backend-IsFor}
use cnftctl.Docker.Write.{write_plan}
use cnftctl.Docker.Staged.{IsStored, IsBackedUp, NeedStaged, ready, write_plan-Run}
use cnftctl.App.Request.{Request, bool_flag}
use cnftctl.App.Calls.{Only-managed_path}
use cnftctl.App.Daemon.{
  planned, read_or_absent, validate_live, time_text, write_accepted, finish_plan, daemon_json,
  docker_backend,
}
use cnftctl.App.Accepted.{IsAccepted-Ext, IsAcceptedLive, validate_live-Run, Only-validate_live}
use cnftctl.App.Sourced.{IsLocated, IsSource, IsAnswer, given, missing}

-- The plan was made at some time for the document that was read, and is for its path and its text.
abbrev pub IsPlanned : Env → Json → Request → Bool → EditPlan → Type 0
IsPlanned e j req writing plan =
    (path : Text) × (before : Text × Bool) × (now : Text) × IsSource e j req writing path before
    × (plan_nftables_backend j path before.0 before.1 now ≡ ok plan)
    × IsFor path before.0 before.1 plan

-- What is needed to replace a file.
abbrev pub NeedAccepted : Env → Json → Request → Bool → Call → Trace → Type 0
NeedAccepted e j req writing (rename a b) t =
    (plan : EditPlan) × IsPlanned e j req writing plan
    × (b ≡ plan.path)
    × IsStored a plan.after t
    × IsBackedUp plan t
    × IsAcceptedLive req plan.after t
    × (bool_flag req (codes "yes") ≡ true)
NeedAccepted e j req writing _ t = Unit

abbrev NeedNone : Call → Trace → Type 0
NeedNone c t = NotRename c

module _ (e : Env) where
  module _ (j : Json) (req : Request) (writing : Bool) where
    ready_accepted : (c : Call) (t : Trace) → NotRename c → NeedAccepted e j req writing c t
    ready_accepted (rename a b) t q = absurd q
    ready_accepted _ t q = tt

    become : (t : Trace) → IsGuarded NeedNone t → IsGuarded (NeedAccepted e j req writing) t
    become = IsGuarded-map NeedNone (NeedAccepted e j req writing) ready_accepted

    -- Steps before the first file is replaced.
    early {ℓ} :
        {A : Type ℓ} {m : M A}
        → Only NotRename m
        → Run
            (IsGuarded NeedNone)
            m
            (λ _. IsGuarded NeedNone)
            (IsGuarded (NeedAccepted e j req writing))
    early o = Run-mono (λ u h. h) (λ a u h. h) become (Run-quiet NeedNone NotRename (λ c t q. q) o)

    abbrev Ends {ℓ} : {A : Type ℓ} → M A → Type 0
    Ends m =
        Run (IsGuarded NeedNone) m (λ _. IsGuarded (NeedAccepted e j req writing))
          (IsGuarded (NeedAccepted e j req writing))

    module _ (plan : EditPlan) (made : IsPlanned e j req writing plan) where
      joined :
          bool_flag req (codes "yes") ≡ true
          → (c : Call) (v : Trace) → NeedStaged plan c v
          → IsAcceptedLive req plan.after v
          → NeedAccepted e j req writing c v
      joined y (rename a b) v n r = (plan, made, n.2, n.0, n.1, r, y)
      joined y _ v n r = tt

      written :
          bool_flag req (codes "yes") ≡ true
          → Run
              (λ t. IsGuarded NeedNone t × IsAcceptedLive req plan.after t)
              (write_plan e j plan)
              (λ _. IsGuarded (NeedAccepted e j req writing))
              (IsGuarded (NeedAccepted e j req writing))
      written y =
          Run-mono
            (λ u h.
              (IsGuarded-map NeedNone (NeedStaged plan) (ready plan) u h.0, become u h.0, h.1))
            (λ _ u h. h) (λ u h. h)
            (Run-and (NeedStaged plan) (NeedAccepted e j req writing)
              (IsAcceptedLive req plan.after)
              (λ u v x h live. IsAccepted-Ext plan.after u v x (h live)) (joined y)
              (Only-write_plan Any-AllowsFiles e (λ p q. tt) j plan) (write_plan-Run e plan j))

      after_yes :
          bool_flag req (codes "yes") ≡ true
          → Ends (validate_live e req plan.after >> write_plan e j plan)
      after_yes y =
          Run-bind
            (Run-also (early (Only-validate_live e req plan.after))
              (validate_live-Run e req plan.after))
            λ _. written y

      not-false : (b : Bool) → not b ≡ false → b ≡ true
      not-false true h = refl
      not-false false h = cc

      write_accepted-Run : Ends (write_accepted e j req plan)
      unfolding write_accepted
      write_accepted-Run =
          Run-bind
            (Run-also (early (Only-refuse_if (not (bool_flag req (codes "yes"))) _))
              (Run-refuse_if (not (bool_flag req (codes "yes"))) _))
            λ _. record { holds = λ t h. (after_yes (not-false _ h.1)).holds t h.0 }

      ends {ℓ} : {A : Type ℓ} {m : M A} → Only NotRename m → Ends m
      ends o = Run-mono (λ u h. h) (λ a u h. become u h) (λ u h. h) (early o)

      finish_plan-Run : (before : Text) → Ends (finish_plan e j req writing before plan)
      unfolding finish_plan
      finish_plan-Run before =
          Run-if (not plan.changed) (ends (Only-validate_live e req before))
            (Run-if (not writing) (ends (Only-validate_live e req plan.after)) write_accepted-Run)

    Only-read_or_absent : (r : Result Error Text) → Only NotRename (read_or_absent r)
    Only-read_or_absent (ok text) = Only-return
    Only-read_or_absent (err x) = Only-if (is_not_exist x) Only-return (Only-fail {x = x})

    Only-time_text : (stamp : ℕ → Text) → Only NotRename (time_text e stamp)
    unfolding time_text
    Only-time_text stamp = record { added = λ t. here }

    Only-daemon_json : Only NotRename (daemon_json e j req writing)
    Only-daemon_json =
        Only-if writing (Only-managed_path NotRename-AllowsFiles e _ _ true) Only-return

    -- A fact that does not speak of the trace is kept.
    with_fact {ℓ} :
        {A : Type ℓ} {F : Type 0} {m : M A}
        → Only NotRename m
        → Run
            (λ t. IsGuarded NeedNone t × F)
            m
            (λ _ t. IsGuarded NeedNone t × F)
            (IsGuarded (NeedAccepted e j req writing))
    with_fact {F} {m} o = record {
      holds = λ t h. Post-mono _ _ _ _ (m t) (λ a u g. (g, h.1)) (λ u g. g) ((early o).holds t h.0);
    }

    located_by :
        (p : Result Error Text × Trace)
        → daemon_json e j req writing [] ≡ p
        → Post (λ _. IsGuarded NeedNone) (IsGuarded (NeedAccepted e j req writing)) p
        → Post
            (λ path t. IsGuarded NeedNone t × IsLocated e j req writing path t)
            (IsGuarded (NeedAccepted e j req writing))
            p
    located_by (ok path, t) same g = (g, same)
    located_by (err x, t) same g = g

    answered :
        (path : Text)
        → Run
            (λ t. IsGuarded NeedNone t × IsLocated e j req writing path t)
            (try (ask_text e (read_file path)))
            (λ r t. IsGuarded NeedNone t × IsAnswer e j req writing path r)
            (IsGuarded (NeedAccepted e j req writing))
    unfolding ask_text
    answered path = record { holds = λ t h. ((h.0, tt), (t, h.1, refl)) }

    source :
        (path : Text) (r : Result Error Text)
        → IsAnswer e j req writing path r
        → Run
            (IsGuarded NeedNone)
            (read_or_absent r)
            (λ before t. IsGuarded NeedNone t × IsSource e j req writing path before)
            (IsGuarded (NeedAccepted e j req writing))
    source path (ok text) (u, at, same) = record {
      holds = λ t g. (g, (u, at, inl (refl, given (e.content u (read_file path)) text same)));
    }
    source path (err x) (u, at, same) = elim (Bool-cases (is_not_exist x)) [
      | inl gone ↦ rw gone (record {
        holds = λ t g.
            (g, (u, at, inr (refl, refl, missing (e.content u (read_file path)) x same gone)));
      })
      | inr other_error ↦ rw other_error (record { holds = λ t g. become t g })
    ]

    finish :
        (path now : Text) (before : Text × Bool) (r : Result DockerError EditPlan)
        → IsSource e j req writing path before
        → plan_nftables_backend j path before.0 before.1 now ≡ r
        → Ends (planned r >>= λ plan. finish_plan e j req writing before.0 plan)
    finish path now before (ok plan) s h =
        finish_plan-Run plan
          (path, before, now, s, h, plan_nftables_backend-IsFor j path before.0 before.1 now h)
          before.0
    finish path now before (err x) s h = record { holds = λ t g. become t g }

    locate :
        Run
          (λ t. t ≡ [])
          (daemon_json e j req writing)
          (λ path t. IsGuarded NeedNone t × IsLocated e j req writing path t)
          (IsGuarded (NeedAccepted e j req writing))
    locate = record {
      holds = λ t h.
          rw h (
            located_by (daemon_json e j req writing []) refl
              ((early Only-daemon_json).holds [] tt));
    }

    sourced :
        (path : Text) (r : Result Error Text)
        → Run
            (λ t. IsGuarded NeedNone t × IsAnswer e j req writing path r)
            (read_or_absent r)
            (λ before t. IsGuarded NeedNone t × IsSource e j req writing path before)
            (IsGuarded (NeedAccepted e j req writing))
    sourced path r = record { holds = λ t h. (source path r h.1).holds t h.0 }

    finished :
        (path now : Text) (before : Text × Bool)
        → Run
            (λ t. IsGuarded NeedNone t × IsSource e j req writing path before)
            (planned (plan_nftables_backend j path before.0 before.1 now) >>= λ plan.
              finish_plan e j req writing before.0 plan)
            (λ _. IsGuarded (NeedAccepted e j req writing))
            (IsGuarded (NeedAccepted e j req writing))
    finished path now before = record {
      holds = λ t h.
          (finish path now before (plan_nftables_backend j path before.0 before.1 now) h.1
              refl).holds
            t h.0;
    }

    docker_backend-Run :
        (stamp : ℕ → Text)
        → Run
            (λ t. t ≡ [])
            (docker_backend e j stamp req writing)
            (λ _. IsGuarded (NeedAccepted e j req writing))
            (IsGuarded (NeedAccepted e j req writing))
    unfolding docker_backend
    docker_backend-Run stamp = Run-bind locate λ path. Run-bind (answered path) λ r.
        Run-bind (sourced path r)
          λ before. Run-bind (with_fact (Only-time_text stamp)) λ now. finished path now before

    -- Whatever the machine answers, the commands on Docker's backend rename a file only with `--yes`
    -- and only onto the path of a plan that was made for what the command read from daemon.json, or
    -- for the empty text where there was no such file; and only after the planned document was
    -- written, flushed and closed, each with success, the document that was read, if there was one,
    -- was stored in a backup in the same way, and, on the live system, `dockerd --validate` accepted
    -- a file with the planned document.
    pub docker_backend-IsGuarded :
        (stamp : ℕ → Text)
        → IsGuarded (NeedAccepted e j req writing) (docker_backend e j stamp req writing []).1
    docker_backend-IsGuarded stamp =
        Post-same _ (docker_backend e j stamp req writing [])
          ((docker_backend-Run stamp).holds [] refl)
