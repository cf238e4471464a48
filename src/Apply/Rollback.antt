-- ===== src/Apply/Rollback.antt =====
-- `rollbackWithManager`: undo what an unconfirmed transaction may have changed.
use cnftctl.Base.{
  ℕ, List, [], ◌∷◌, ◌++◌, Bool, true, false, ◌||◌, ◌&&◌, not, Option, none, some, Text, codes, eqb,
  is_empty, find_references, Result, ok, err, if◌then◌else◌, ◌==◌, ltb,
}
use cnftctl.Host.{
  Env, M, Error, ◌>>=◌, ◌>>◌, return, fail, give, try, refuse_if, message, joined, is_not_exist,
  perform, remove,
}
use cnftctl.Durable.{rooted}
use cnftctl.Systemd.{set_firewall_enabled, reconcile_ddns_timer, cancel_rollback}
use cnftctl.Nft.{list_table, load_file, delete_table}
use cnftctl.Apply.Model.{
  Phase, Transaction, Ownership, Codec, active_selector, ownership_path, ownership_marker,
}
use cnftctl.Apply.Manifest.{marker_prefix, generation_prefix}
use cnftctl.Apply.Store.{
  inet, hostfw, transaction_path, has_generation_marker, owns, active_generation, set_active,
  read_ownership, write_ownership, write_transaction, read_transaction, generation_ddns_desired,
}

-- `errors.Join` of what several steps gave.
abbrev pub join_two : Error → Result Error (Unit {0}) → Result Error (Unit {0})
join_two x (ok _) = err x
join_two x (err y) = err (joined x y)

abbrev pub join_all : List (Result Error (Unit {0})) → Result Error (Unit {0})
join_all [] = ok tt
join_all (ok _ ∷ rest) = join_all rest
join_all (err x ∷ rest) = join_two x (join_all rest)

unfoldable pub mutations_possible : Phase → Bool
mutations_possible Phase.activating = true
mutations_possible Phase.activated = true
mutations_possible _ = false

-- The stage of an update rollback with no live table.
unfoldable pub stage_absent : Text → Ownership → Text → Text → Option ℕ
stage_absent active own current previous =
    if eqb own.marker ownership_marker && eqb active current && eqb own.generation current
    then some 0
    else if eqb own.marker ownership_marker
        && eqb active previous
        && (eqb own.generation current || eqb own.generation previous)
    then some 1
    else none

-- `states[i] == {active, own.Generation, live}`
unfoldable pub is_state : Text → Text → Text → Text → Text → Text → Bool
is_state active owner live a o l = eqb active a && eqb owner o && eqb live l

-- The first of the four states that the runtime state equals.
unfoldable pub stage_live : Text → Ownership → Text → Text → Text → Option ℕ
unfolding is_state
stage_live active own live current previous =
    let at = is_state active own.generation live in
    if not (eqb own.marker ownership_marker)
    then none
    else if at current current current
    then some 0
    else if at previous current current
    then some 1
    else if at previous current previous
    then some 2
    else if at previous previous previous
    then some 3
    else none

unfoldable pub stage_marked : Text → Ownership → List Text → Text → Text → Option ℕ
unfolding stage_live
stage_marked active own (live ∷ []) current previous = stage_live active own live current previous
stage_marked active own _ current previous = none

-- `updateRollbackStage`, once the runtime state is known.
unfoldable pub stage_of : Text → Ownership → Option Text → Transaction → Option ℕ
unfolding stage_absent stage_marked
stage_of active own none tx = stage_absent active own tx.generation tx.previous_generation
stage_of active own (some table) tx =
    stage_marked active own (find_references marker_prefix 0 table) tx.generation
      tx.previous_generation

abbrev pub known_stage : Option ℕ → M ℕ
known_stage none = fail (message "rollback runtime ownership is inconsistent")
known_stage (some n) = return n

module _ (e : Env) (k : Codec) where
  abbrev pub verified : Result Error Ownership → M Ownership
  verified (ok own) = return own
  verified (err x) = fail (message "cannot verify rollback ownership")

  unfoldable pub update_rollback_stage : Text → Transaction → M ℕ
  update_rollback_stage root tx = do
    active ← active_generation e k root
    read ← try (read_ownership e k root)
    own ← verified read
    table ← list_table e inet hostfw
    known_stage (stage_of active own table tx)

  -- The steps that are left from the stage, and the check that all are done.
  unfoldable pub restore_previous : Text → Transaction → M (Unit {0})
  unfolding update_rollback_stage
  restore_previous root tx = do
    stage ← update_rollback_stage root tx
    if ltb stage 1 then set_active e k root tx.previous_generation else return tt
    if ltb stage 2
        then load_file e
            (rooted root (generation_prefix ++ (tx.previous_generation ++ codes "/firewall.nft")))
        else return tt
    if ltb stage 3 then write_ownership e k root tx.previous_generation else return tt
    final ← update_rollback_stage root tx
    refuse_if (not (final == 3)) "previous generation runtime state was not fully restored"

  -- The three actions that undo a first installation.
  unfoldable pub delete_live : Text → Option Text → M (Unit {0})
  delete_live generation none = return tt
  delete_live generation (some table) =
      if not (has_generation_marker table generation)
      then fail (message "live table is not owned by transaction generation")
      else delete_table e inet hostfw

  abbrev pub forgiving : Result Error (Unit {0}) → M (Unit {0})
  forgiving (ok _) = return tt
  forgiving (err x) = if is_not_exist x then return tt else fail x

  unfoldable pub remove_selector : Text → Transaction → M (Unit {0})
  remove_selector root tx = do
    active ← active_generation e k root
    if eqb active tx.generation || is_empty active
        then (do r ← try (perform e (remove (rooted root active_selector))); forgiving r)
        else fail (message "active selector no longer belongs to transaction")

  unfoldable pub remove_owned : Text → Transaction → Result Error Ownership → M (Unit {0})
  remove_owned root tx (err x) = if is_not_exist x then return tt else fail x
  remove_owned root tx (ok own) =
      if owns own tx.generation
      then perform e (remove (rooted root ownership_path))
      else fail (message "ownership no longer belongs to transaction")

  unfoldable pub undo_fresh : Text → Transaction → M (List (Result Error (Unit {0})))
  unfolding delete_live remove_selector remove_owned
  undo_fresh root tx = do
    live ← try (do table ← list_table e inet hostfw; delete_live tx.generation table)
    selector ← try (remove_selector root tx)
    own ← try (read_ownership e k root)
    removed ← try (remove_owned root tx own)
    return (live ∷ selector ∷ removed ∷ [])

  unfoldable pub undo : Text → Transaction → M (List (Result Error (Unit {0})))
  unfolding undo_fresh restore_previous
  undo root tx =
      if tx.fresh_install
      then undo_fresh root tx
      else if mutations_possible tx.phase
      then (do restore_previous root tx; return [])
      else return []

  abbrev pub desired_or : Bool → Result Error Bool → M Bool
  desired_or true r = return false
  desired_or false r = give r

  unfoldable pub reconcile_previous : Text → Transaction → M (Unit {0})
  reconcile_previous root tx = do
    read ← try (generation_ddns_desired e k root tx.previous_generation)
    desired ← desired_or tx.fresh_install read
    reconcile_ddns_timer e desired

  abbrev pub closed : Transaction → Transaction
  closed tx = record tx { phase = Phase.rolled_back; rolled_back = true }

  unfoldable pub rollback_open : Text → Text → Transaction → M (Unit {0})
  unfolding undo reconcile_previous
  rollback_open root path tx = do
    undone ← undo root tx
    firewall ← try (set_firewall_enabled e tx.firewall_was_enabled)
    timer ← try (reconcile_previous root tx)
    give (join_all (undone ++ (firewall ∷ timer ∷ [])))
    write_transaction e k path (closed tx)

  -- `rollbackWithManager`
  unfoldable pub rollback : Text → Text → M (Unit {0})
  unfolding rollback_open
  rollback root path = do
    tx ← read_transaction e k path
    if tx.confirmed || tx.rolled_back
        then return tt
        else if tx.fresh_install && not (mutations_possible tx.phase)
        then write_transaction e k path (closed tx)
        else rollback_open root path tx

  abbrev pub joined_with : Error → Result Error (Unit {0}) → Error
  joined_with cause (ok _) = cause
  joined_with cause (err x) = joined cause x

  -- `recoverApply`: the error that `Apply` returns.
  unfoldable pub recover : Text → Transaction → Error → M (Unit {0})
  recover root tx cause = do
    let path = transaction_path root tx.id
    result ← try (do write_transaction e k path tx; rollback root path; cancel_rollback e tx.id)
    fail (joined_with cause result)
