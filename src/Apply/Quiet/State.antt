-- ===== src/Apply/Quiet/State.antt =====
-- The selector, the ownership record and the transactions.
use cnftctl.Base.{List, [], ◌∷◌, Option, none, some, Text, Result, ok, err}
use cnftctl.Host.{Env, Error, DirEntry}
use cnftctl.Host.Trace.{Only, only, Only-fail, Only-return, Only-bind}
use cnftctl.Apply.Quiet.{IsQuiet}
use cnftctl.Apply.Model.{Codec, Transaction, Ownership}
use cnftctl.Apply.Store
use cnftctl.Apply.Quiet.Files.{files}

module _ (e : Env) (k : Codec) where
  pub Only-active_generation : (root : Text) → Only IsQuiet (Store.active_generation e k root)
  unfolding Store.active_generation
  Only-active_generation root = search files depth 30

  pub Only-set_active :
      (root generation : Text) → Only IsQuiet (Store.set_active e k root generation)
  unfolding Store.set_active
  Only-set_active root generation = search files depth 30

  pub Only-read_ownership : (root : Text) → Only IsQuiet (Store.read_ownership e k root)
  unfolding Store.read_ownership
  Only-read_ownership root = search files depth 30

  pub Only-write_ownership :
      (root generation : Text) → Only IsQuiet (Store.write_ownership e k root generation)
  unfolding Store.write_ownership
  Only-write_ownership root generation = search files depth 30

  pub Only-write_transaction :
      (path : Text) (tx : Transaction) → Only IsQuiet (Store.write_transaction e k path tx)
  unfolding Store.write_transaction
  Only-write_transaction path tx = search files depth 30

  pub Only-read_transaction : (path : Text) → Only IsQuiet (Store.read_transaction e k path)
  unfolding Store.read_transaction
  Only-read_transaction path = search files depth 30

  pub Only-pending_entry :
      (path : Text) (d : DirEntry) → Only IsQuiet (Store.pending_entry e k path d)
  unfolding Store.pending_entry
  Only-pending_entry path d = search (only, Only-read_transaction) depth 30

  Only-pending_of :
      (path : Text) (entries : List DirEntry) → Only IsQuiet (Store.pending_of e k path entries)
  unfolding Store.pending_of
  Only-pending_of path [] = Only-return
  Only-pending_of path (d ∷ entries) =
      Only-bind (Only-pending_entry path d)
        λ _. Only-bind (Only-pending_of path entries) λ _. Only-return

  Only-pending_at :
      (path : Text) (r : Result Error (List DirEntry)) → Only IsQuiet (Store.pending_at e k path r)
  unfolding Store.pending_at
  Only-pending_at path (err x) = search only depth 30
  Only-pending_at path (ok entries) = search (only, Only-pending_of) depth 30

  pub Only-pending : (root : Text) → Only IsQuiet (Store.pending e k root)
  unfolding Store.pending
  Only-pending root = search (only, Only-pending_at) depth 30

  pub Only-verify_stored_ownership :
      (root generation : Text) → Only IsQuiet (Store.verify_stored_ownership e k root generation)
  unfolding Store.verify_stored_ownership
  Only-verify_stored_ownership root generation = search (only, Only-read_ownership) depth 30

  Only-known_owner :
      (active table : Text) (r : Result Error Ownership)
      → Only IsQuiet (Store.known_owner e k active table r)
  unfolding Store.known_owner
  Only-known_owner active table (err x) = Only-fail
  Only-known_owner active table (ok own) = search only depth 30

  Only-check_owner :
      (root active : Text) (table : Option Text)
      → Only IsQuiet (Store.check_owner e k root active table)
  unfolding Store.check_owner
  Only-check_owner root active none = Only-return
  Only-check_owner root active (some table) =
      search (only, Only-read_ownership, Only-known_owner) depth 30

  pub Only-check_ownership :
      (root active : Text) → Only IsQuiet (Store.check_ownership e k root active)
  unfolding Store.check_ownership
  Only-check_ownership root active = search (files, Only-check_owner) depth 30

  pub Only-generation_ddns_desired :
      (root generation : Text) → Only IsQuiet (Store.generation_ddns_desired e k root generation)
  unfolding Store.generation_ddns_desired
  Only-generation_ddns_desired root generation = search files depth 30

pub ruleset state = (
  files, Only-active_generation, Only-set_active, Only-read_ownership, Only-write_ownership,
  Only-write_transaction, Only-read_transaction, Only-pending_entry, Only-pending,
  Only-verify_stored_ownership, Only-check_ownership, Only-generation_ddns_desired,
)
