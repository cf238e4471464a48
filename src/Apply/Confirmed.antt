-- ===== src/Apply/Confirmed.antt =====
-- What a successful `Confirm` and a successful rollback have done.
use mathlib.Core.Path.{subst}
use cnftctl.Base.{
  [], ◌∷◌, ◌++◌, Bool, true, false, not, Text, ok, ◌≡◌, refl, ap, if◌then◌else◌, ◌&&◌, ◌||◌,
}
use cnftctl.Host.{Trace, Env, M, ◌>>◌, return, give, try}
use cnftctl.Host.Trace.{Only, only}
use cnftctl.Host.Hoare.{Post-ok, Run, Run-bind, Run-Only, Run-mono, Run-if}
use cnftctl.Host.Guard.{Any, Always, Run-any, Run-given, Run-refuse_if, Run-else}
use cnftctl.Durable.Written.{IsWritten-Ext}
use cnftctl.Systemd.{cancel_rollback, rollback_timer, set_firewall_enabled}
use cnftctl.Apply.Model.{Phase, Transaction, Codec}
use cnftctl.Apply.Store.{transaction_path, write_transaction, verify_activated, read_transaction}
use cnftctl.Apply.Rollback.{
  rollback, rollback_open, closed, undo, join_all, reconcile_previous, mutations_possible,
}
use cnftctl.Apply.Run.{confirm_read, is_activated}
use cnftctl.Apply.Armed.{IsRecorded, write_transaction-IsRecorded}

phase_activated : (p : Phase) → not (is_activated p) ≡ false → p ≡ Phase.activated
phase_activated Phase.activated h = refl
phase_activated Phase.prepared h = absurd (cc)
phase_activated Phase.armed h = absurd (cc)
phase_activated Phase.activating h = absurd (cc)
phase_activated Phase.confirmed h = absurd (cc)
phase_activated Phase.rolled_back h = absurd (cc)

module _ (e : Env) (k : Codec) (root : Text) where
  -- The rollback of an open transaction that succeeds ends with the transaction's state file
  -- replaced by its state in the phase `rolled_back`.
  rollback_open-Run :
      (tx : Transaction)
      → Run Always
          (rollback_open e k root (transaction_path root tx.id) tx)
          (λ _. IsRecorded k root (closed e k tx))
          Always
  unfolding rollback_open
  rollback_open-Run tx = Run-bind (Run-any (undo e k root tx)) λ undone.
      Run-bind (Run-any (try (set_firewall_enabled e tx.firewall_was_enabled))) λ firewall.
        Run-bind (Run-any (try (reconcile_previous e k root tx))) λ timer.
          Run-bind (Run-any (give (join_all (undone ++ (firewall ∷ timer ∷ [])))))
            λ _. write_transaction-IsRecorded e k root (closed e k tx)

  abbrev pub confirmed : Transaction → Transaction
  confirmed tx = record tx { confirmed = true; phase = Phase.confirmed }

  -- What the confirmation of a transaction gives.
  abbrev pub IsConfirmed : Transaction → Transaction → Trace → Type 0
  IsConfirmed tx done t =
      (tx.phase ≡ Phase.activated) × (done ≡ confirmed tx) × IsRecorded k root (confirmed tx) t

  Only-cancel_rollback : (id : Text) → Only Any (cancel_rollback e id)
  unfolding cancel_rollback rollback_timer
  Only-cancel_rollback id = search (only, tt {0}) depth 30

  recorded {ℓ} :
      (tx : Transaction) {A : Type ℓ} {m : M A}
      → Only Any m
      → Run (IsRecorded k root tx) m (λ _. IsRecorded k root tx) Always
  recorded tx o =
      Run-Only Any (IsRecorded k root tx) Always (λ u v x. IsWritten-Ext _ _ x) (λ u h. tt) o

  confirmed_now :
      (tx : Transaction)
      → tx.phase ≡ Phase.activated
      → Run Always
          (do
            verify_activated e k root tx
            write_transaction e k (transaction_path root tx.id) (confirmed tx)
            cancel_rollback e tx.id
            return (confirmed tx))
          (IsConfirmed tx)
          Always
  confirmed_now tx active = Run-bind (Run-any (verify_activated e k root tx)) λ _.
      Run-bind (write_transaction-IsRecorded e k root (confirmed tx)) λ _.
        Run-bind (recorded (confirmed tx) (Only-cancel_rollback tx.id))
          λ _. record { holds = λ t h. (active, refl, h) }

  confirm_read-Run :
      (tx : Transaction)
      → tx.confirmed ≡ false
      → Run Always
          (confirm_read e k root (transaction_path root tx.id) tx)
          (λ done t. (tx.rolled_back ≡ false) × IsConfirmed tx done t)
          Always
  unfolding confirm_read
  confirm_read-Run tx fresh =
      Run-bind (Run-refuse_if tx.rolled_back "transaction already rolled back") λ _.
        Run-given λ kept.
          Run-else tx.confirmed (do cancel_rollback e tx.id; return tx) fresh
            (Run-bind
              (Run-refuse_if (not (is_activated tx.phase))
                "only an activated transaction can be confirmed")
              λ _. Run-given λ active.
                Run-mono (λ u h. h) (λ a u h. (kept, h)) (λ u h. h)
                  (confirmed_now tx (phase_activated tx.phase active)))

  -- A successful confirmation of a transaction that was not confirmed finds it activated and not
  -- rolled back, gives it back as confirmed, and has replaced its state file by that state.
  pub confirm_read-IsConfirmed :
      (tx done : Transaction) (t : Trace)
      → tx.confirmed ≡ false
      → (confirm_read e k root (transaction_path root tx.id) tx t).0 ≡ ok done
      → (tx.rolled_back ≡ false)
        × IsConfirmed tx done (confirm_read e k root (transaction_path root tx.id) tx t).1
  confirm_read-IsConfirmed tx done t fresh h =
      Post-ok (λ done t. (tx.rolled_back ≡ false) × IsConfirmed tx done t) Always
        (confirm_read e k root (transaction_path root tx.id) tx t)
        ((confirm_read-Run tx fresh).holds t tt) h

  rollback_closing :
      (tx : Transaction)
      → Run Always
          (if tx.fresh_install && not (mutations_possible tx.phase)
            then write_transaction e k (transaction_path root tx.id) (closed e k tx)
            else rollback_open e k root (transaction_path root tx.id) tx)
          (λ _. IsRecorded k root (closed e k tx))
          Always
  rollback_closing tx =
      Run-if (tx.fresh_install && not (mutations_possible tx.phase))
        (write_transaction-IsRecorded e k root (closed e k tx)) (rollback_open-Run tx)

  -- A rollback that succeeds, of a transaction that was read as neither confirmed nor rolled back,
  -- has replaced its state file by its state in the phase `rolled_back`.
  pub rollback-IsRecorded :
      (tx : Transaction) (t u v : Trace)
      → read_transaction e k (transaction_path root tx.id) t ≡ (ok tx, u)
      → tx.confirmed ≡ false
      → tx.rolled_back ≡ false
      → rollback e k root (transaction_path root tx.id) t ≡ (ok tt, v)
      → IsRecorded k root (closed e k tx) v
  unfolding rollback
  rollback-IsRecorded tx t u v read fresh kept h =
      let rest : (if tx.confirmed || tx.rolled_back
              then return tt
              else if tx.fresh_install && not (mutations_possible tx.phase)
              then write_transaction e k (transaction_path root tx.id) (closed e k tx)
              else rollback_open e k root (transaction_path root tx.id) tx)
            u
          ≡ (ok tt, v) =
        rw read at h in
      subst (IsRecorded k root (closed e k tx)) (ap (λ p. p.1) rest) (
        Post-ok (λ _. IsRecorded k root (closed e k tx)) Always _
          ((Run-else (tx.confirmed || tx.rolled_back) (return tt)
              (either tx.confirmed tx.rolled_back fresh kept) (rollback_closing tx)).holds
            u tt)
          (ap (λ p. p.0) rest))
    where
      either : (a b : Bool) → a ≡ false → b ≡ false → (a || b) ≡ false
      either a b p q = rw (p, q) refl
