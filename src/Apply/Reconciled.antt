-- ===== src/Apply/Reconciled.antt =====
-- `Reconcile` goes on after a rollback that failed, and reports it.
use mathlib.Core.Path.{subst}
use cnftctl.Base.{List, [], ◌∷◌, Text, Result, ok, err, ◌≡◌, ◌≢◌, ◌↔◌, sym, refl}
use cnftctl.Host.{Trace, Env, Error, ◌>>=◌, continue, caught, return, give}
use cnftctl.Apply.Model.{Transaction, Codec}
use cnftctl.Apply.Store.{transaction_path}
use cnftctl.Apply.Rollback.{rollback, join_two, join_all}
use cnftctl.Apply.Run.{roll_back_all}

abbrev pub Fine : List (Result Error (Unit {0})) → Type 0
Fine [] = Unit
Fine (r ∷ rs) = (r ≡ ok tt) × Fine rs

join_two-not_ok : (x : Error) (r : Result Error (Unit {0})) → join_two x r ≢ ok tt
join_two-not_ok x (ok _) h = cc
join_two-not_ok x (err y) h = cc

join_all-Fine : (rs : List (Result Error (Unit {0}))) → (join_all rs ≡ ok tt) ↔ Fine rs
join_all-Fine [] = (λ _. tt, λ _. refl)
join_all-Fine (ok tt ∷ rs) = (λ h. (refl, (join_all-Fine rs).0 h), λ h. (join_all-Fine rs).1 h.1)
join_all-Fine (err x ∷ rs) = (λ h. absurd (join_two-not_ok x (join_all rs) h), λ h. absurd (cc))

-- Where the rollback of the `n`-th transaction starts from.
module _ (e : Env) (k : Codec) (root : Text) where
  abbrev pub after : List Transaction → Trace → Trace
  after [] t = t
  after (tx ∷ txs) t = after txs (rollback e k root (transaction_path root tx.id) t).1

  -- What each rollback gives, run one after the other.
  abbrev pub each : List Transaction → Trace → List (Result Error (Unit {0}))
  each [] t = []
  each (tx ∷ txs) t =
      let p = rollback e k root (transaction_path root tx.id) t in p.0 ∷ each txs p.1

  roll_back_all-cons :
      (tx : Transaction) (txs : List Transaction) (p : Result Error (Unit {0}) × Trace)
      → roll_back_all e k root txs p.1 ≡ (ok (each txs p.1), after txs p.1)
      → continue (caught p) (λ r. roll_back_all e k root txs >>= (λ rest. return (r ∷ rest)))
        ≡ (ok (p.0 ∷ each txs p.1), after txs p.1)
  roll_back_all-cons tx txs (r, t) h = rw h refl

  joined-Fine :
      (p : Result Error (List (Result Error (Unit {0}))) × Trace)
      {rs : List (Result Error (Unit {0}))} {v : Trace}
      → p ≡ (ok rs, v)
      → ((continue p (λ rs. give (join_all rs))).0 ≡ ok tt) ↔ Fine rs
  joined-Fine (ok ss, u) {rs} h =
      subst (λ q. (join_all q ≡ ok tt) ↔ Fine rs) (sym (same h)) (join_all-Fine rs)
    where
      same :
          {rs : List (Result Error (Unit {0}))} {v : Trace}
          → Path (Result Error (List (Result Error (Unit {0}))) × Trace) (ok ss, u) (ok rs, v)
          → ss ≡ rs
      same h = cc h
  joined-Fine (err x, u) h = absurd (cc)

  roll_back_all-each :
      (txs : List Transaction) (t : Trace)
      → roll_back_all e k root txs t ≡ (ok (each txs t), after txs t)
  unfolding roll_back_all
  roll_back_all-each [] t = refl
  roll_back_all-each (tx ∷ txs) t =
      let p = rollback e k root (transaction_path root tx.id) t in
      roll_back_all-cons tx txs p (roll_back_all-each txs p.1)

  -- The loop and the joined error of `Reconcile`: the rollback of every transaction is run, one after
  -- the other, whatever the ones before gave, and there is no error exactly if none of them gave one.
  pub roll_back_all-Fine :
      (txs : List Transaction) (t : Trace)
      → (roll_back_all e k root txs t ≡ (ok (each txs t), after txs t))
        × (((roll_back_all e k root txs >>= (λ rs. give (join_all rs))) t).0 ≡ ok tt
            ↔ Fine (each txs t))
  roll_back_all-Fine txs t = (
    roll_back_all-each txs t,
    joined-Fine (roll_back_all e k root txs t) (roll_back_all-each txs t),
  )
