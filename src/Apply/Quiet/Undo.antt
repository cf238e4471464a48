-- ===== src/Apply/Quiet/Undo.antt =====
-- Rollback and recovery.
use cnftctl.Base.{ℕ, Bool, true, false, Option, none, some, Text, Result, ok, err}
use cnftctl.Host.{Env, Error}
use cnftctl.Host.Trace.{Only, only, Only-fail, Only-return, Only-give}
use cnftctl.Apply.Quiet.{IsQuiet}
use cnftctl.Apply.Model.{Codec, Transaction, Ownership}
use cnftctl.Apply.Rollback
use cnftctl.Apply.Quiet.State.{state}

module _ (e : Env) (k : Codec) where
  Only-known_stage : (s : Option ℕ) → Only IsQuiet (Rollback.known_stage s)
  Only-known_stage none = Only-fail
  Only-known_stage (some n) = Only-return

  Only-verified : (r : Result Error Ownership) → Only IsQuiet (Rollback.verified e k r)
  Only-verified (ok own) = Only-return
  Only-verified (err x) = Only-fail

  pub Only-update_rollback_stage :
      (root : Text) (tx : Transaction) → Only IsQuiet (Rollback.update_rollback_stage e k root tx)
  unfolding Rollback.update_rollback_stage
  Only-update_rollback_stage root tx = search (state, Only-known_stage, Only-verified) depth 30

  pub Only-restore_previous :
      (root : Text) (tx : Transaction) → Only IsQuiet (Rollback.restore_previous e k root tx)
  unfolding Rollback.restore_previous
  Only-restore_previous root tx = search (state, Only-update_rollback_stage) depth 30

  Only-delete_live :
      (generation : Text) (table : Option Text)
      → Only IsQuiet (Rollback.delete_live e k generation table)
  unfolding Rollback.delete_live
  Only-delete_live generation none = Only-return
  Only-delete_live generation (some table) = search state depth 30

  Only-forgiving : (r : Result Error (Unit {0})) → Only IsQuiet (Rollback.forgiving e k r)
  Only-forgiving (ok u) = Only-return
  Only-forgiving (err x) = search only depth 30

  pub Only-remove_selector :
      (root : Text) (tx : Transaction) → Only IsQuiet (Rollback.remove_selector e k root tx)
  unfolding Rollback.remove_selector
  Only-remove_selector root tx = search (state, Only-forgiving) depth 30

  Only-remove_owned :
      (root : Text) (tx : Transaction) (r : Result Error Ownership)
      → Only IsQuiet (Rollback.remove_owned e k root tx r)
  unfolding Rollback.remove_owned
  Only-remove_owned root tx (err x) = search only depth 30
  Only-remove_owned root tx (ok own) = search only depth 30

  pub Only-undo_fresh :
      (root : Text) (tx : Transaction) → Only IsQuiet (Rollback.undo_fresh e k root tx)
  unfolding Rollback.undo_fresh
  Only-undo_fresh root tx =
      search (state, Only-delete_live, Only-remove_selector, Only-remove_owned) depth 30

  pub Only-undo : (root : Text) (tx : Transaction) → Only IsQuiet (Rollback.undo e k root tx)
  unfolding Rollback.undo
  Only-undo root tx = search (only, Only-undo_fresh, Only-restore_previous) depth 30

  Only-desired_or :
      (fresh : Bool) (r : Result Error Bool) → Only IsQuiet (Rollback.desired_or e k fresh r)
  Only-desired_or true r = Only-return
  Only-desired_or false r = Only-give

  pub Only-reconcile_previous :
      (root : Text) (tx : Transaction) → Only IsQuiet (Rollback.reconcile_previous e k root tx)
  unfolding Rollback.reconcile_previous
  Only-reconcile_previous root tx = search (state, Only-desired_or) depth 30

  pub Only-rollback_open :
      (root path : Text) (tx : Transaction) → Only IsQuiet (Rollback.rollback_open e k root path tx)
  unfolding Rollback.rollback_open
  Only-rollback_open root path tx = search (state, Only-undo, Only-reconcile_previous) depth 30

  pub Only-rollback : (root path : Text) → Only IsQuiet (Rollback.rollback e k root path)
  unfolding Rollback.rollback
  Only-rollback root path = search (state, Only-rollback_open) depth 30

  pub Only-recover :
      (root : Text) (tx : Transaction) (cause : Error)
      → Only IsQuiet (Rollback.recover e k root tx cause)
  unfolding Rollback.recover
  Only-recover root tx cause = search (state, Only-rollback) depth 30

pub ruleset undoing = (
  state, Only-update_rollback_stage, Only-restore_previous, Only-remove_selector, Only-undo_fresh,
  Only-undo, Only-reconcile_previous, Only-rollback_open, Only-rollback, Only-recover,
)
