-- ===== src/Apply/Restored.antt =====
-- What a successful `restorePrevious` has read back from the machine.
use cnftctl.Base.{
  ℕ, List, [], ◌∷◌, ◌++◌, false, not, Option, none, some, Text, codes, Result, ok, err, ◌≡◌, refl,
  ap, ◌∙◌, if◌then◌else◌, ltb, ◌==◌, find_references, arith, ==_iff,
}
use cnftctl.Host.{Trace, Env, Error, ◌>>=◌, return, try}
use cnftctl.Host.Inversion.{bind-eq-ok, refuse_if-eq-ok, ended, try-eq-ok, into}
use cnftctl.Nft.{list_table, load_file}
use cnftctl.Durable.{rooted}
use cnftctl.Apply.Model.{Transaction, Ownership, Codec, ownership_marker}
use cnftctl.Apply.Manifest.{marker_prefix, generation_prefix}
use cnftctl.Apply.Store.{
  inet, hostfw, active_generation, read_ownership, set_active, write_ownership,
}
use cnftctl.Apply.Rollback.{
  stage_absent, stage_marked, stage_of, known_stage, verified, update_rollback_stage,
  restore_previous,
}
use cnftctl.Apply.Stages.{stage_live-IsStage}

-- What the selector, the ownership record and the live table say, read one after the other.
pub record IsRestored (e : Env) (k : Codec) (root : Text) (tx : Transaction) (v : Trace)
    : Type 0 where
  pub t0 : Trace
  pub t1 : Trace
  pub t2 : Trace
  pub own : Ownership
  pub table : Text
  pub selector : active_generation e k root t0 ≡ (ok tx.previous_generation, t1)
  pub owner : read_ownership e k root t1 ≡ (ok own, t2)
  pub marker : own.marker ≡ ownership_marker
  pub generation : own.generation ≡ tx.previous_generation
  pub live : list_table e inet hostfw t2 ≡ (ok (some table), v)
  pub references : find_references marker_prefix 0 table ≡ tx.previous_generation ∷ []

is_three : (n : ℕ) → not (n == 3) ≡ false → n ≡ 3
is_three n h = ground (arith, ==_iff n 3)

absent_not_three :
    (a : Text) (own : Ownership) (new old : Text) → ¬ (stage_absent a own new old ≡ some 3)
unfolding stage_absent
absent_not_three a own new old h = ground arith

abbrev pub AllPrevious : Text → Ownership → List Text → Text → Type 0
AllPrevious a own refs old =
    (own.marker ≡ ownership_marker) × (a ≡ old) × (own.generation ≡ old) × (refs ≡ old ∷ [])

marked_three :
    (a : Text) (own : Ownership) (refs : List Text) (new old : Text)
    → stage_marked a own refs new old ≡ some 3
    → AllPrevious a own refs old
unfolding stage_marked
marked_three a own [] new old h = absurd (cc)
marked_three a own (l ∷ []) new old h =
    let at = stage_live-IsStage a own l new old 3 h in
    let stage : (a ≡ old) × (own.generation ≡ old) × (l ≡ old) = at.1 in
    (at.0, stage.0, stage.1, ap (λ x. x ∷ []) stage.2)
marked_three a own (l ∷ m ∷ rest) new old h = absurd (cc)

known_stage-eq-ok :
    (o : Option ℕ) (t : Trace) {n : ℕ} {v : Trace}
    → known_stage o t ≡ (ok n, v)
    → (o ≡ some n) × (t ≡ v)
known_stage-eq-ok none t h = absurd (cc)
known_stage-eq-ok (some m) t h = (cc, cc)

verified-eq-ok :
    (e : Env) (k : Codec) (r : Result Error Ownership) (t : Trace) {own : Ownership} {v : Trace}
    → verified e k r t ≡ (ok own, v)
    → (r ≡ ok own) × (t ≡ v)
verified-eq-ok e k (ok o) t h = (cc, cc)
verified-eq-ok e k (err x) t h = absurd (cc)

stage_three :
    (a : Text) (own : Ownership) (o : Option Text) (tx : Transaction)
    → stage_of a own o tx ≡ some 3
    → (table : Text) × (o ≡ some table)
      × (own.marker ≡ ownership_marker)
      × (a ≡ tx.previous_generation)
      × (own.generation ≡ tx.previous_generation)
      × (find_references marker_prefix 0 table ≡ tx.previous_generation ∷ [])
unfolding stage_of
stage_three a own none tx h = absurd (absent_not_three a own tx.generation tx.previous_generation h)
stage_three a own (some table) tx h =
    let refs = find_references marker_prefix 0 table in
    let at = marked_three a own refs tx.generation tx.previous_generation h in
    (table, refl, at.0, at.1, at.2, at.3)

module _ (e : Env) (k : Codec) (root : Text) (tx : Transaction) where
  stage_three-IsRestored :
      (t v : Trace) → update_rollback_stage e k root tx t ≡ (ok 3, v) → IsRestored e k root tx v
  unfolding update_rollback_stage
  stage_three-IsRestored t v h =
      into (bind-eq-ok (active_generation e k root) _ t h) λ (a, t1, selector, h1).
        into (bind-eq-ok (try (read_ownership e k root)) _ t1 h1) λ (r, t2, read, h2).
          into
            (bind-eq-ok (verified e k r)
              (λ own. list_table e inet hostfw >>= (λ table. known_stage (stage_of a own table tx)))
              t2 h2)
            λ (own, t3, verify, h3).
              into
                (bind-eq-ok (list_table e inet hostfw)
                  (λ table. known_stage (stage_of a own table tx)) t3 h3)
                λ (o, t4, live, h4). into (verified-eq-ok e k r t2 verify) λ (same, there).
                  into (known_stage-eq-ok (stage_of a own o tx) t4 h4) λ (stage, final).
                    into (stage_three a own o tx stage)
                      λ (table, listed, marked, active, owner, refs). record {
                        t0 = t;
                        t1 = t1;
                        t2 = t2;
                        own = own;
                        table = table;
                        selector = selector ∙ ap (λ x. (ok x, t1)) active;
                        owner =
                            try-eq-ok (read_ownership e k root) t1 read ∙ ap (λ x. (x, t2)) same;
                        marker = marked;
                        generation = owner;
                        live = ap (list_table e inet hostfw) there ∙ live ∙ ended listed final;
                        references = refs;
                      }

  -- `restorePrevious`, where it succeeds, ends with three readings, one after the other and with
  -- nothing behind them: the selector names the previous generation of the transaction, the ownership
  -- record is the program's and names it too, and the live table carries the marker of that
  -- generation and no other.
  pub restore_previous-IsRestored :
      (t v : Trace) → restore_previous e k root tx t ≡ (ok tt, v) → IsRestored e k root tx v
  unfolding restore_previous
  restore_previous-IsRestored t v h =
      into (bind-eq-ok (update_rollback_stage e k root tx) _ t h) λ (stage, t1, first, h1).
        into
          (bind-eq-ok
            (if ltb stage 1 then set_active e k root tx.previous_generation else return tt) _ t1 h1)
          λ (x1, t2, s1, h2).
            into
              (bind-eq-ok
                (if ltb stage 2
                  then load_file e (
                      rooted root
                        (generation_prefix ++ (tx.previous_generation ++ codes "/firewall.nft")))
                  else return tt)
                _ t2 h2)
              λ (x2, t3, s2, h3).
                into
                  (bind-eq-ok
                    (if ltb stage 3
                      then write_ownership e k root tx.previous_generation
                      else return tt)
                    _ t3 h3)
                  λ (x3, t4, s3, h4).
                    into (bind-eq-ok (update_rollback_stage e k root tx) _ t4 h4)
                      λ (final, t5, found, h5).
                        into
                          (refuse_if-eq-ok (not (final == 3))
                            "previous generation runtime state was not fully restored" t5 h5)
                          λ (three, last).
                            stage_three-IsRestored t4 v (found ∙ ended (is_three final three) last)
