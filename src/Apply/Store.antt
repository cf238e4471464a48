-- ===== src/Apply/Store.antt =====
-- The durable state between runs: transactions, the active selector, the ownership record.
use cnftctl.Base.{
  List, [], ◌∷◌, ◌++◌, Bool, false, ◌||◌, ◌&&◌, not, Option, none, some, Text, codes, eqb, is_empty,
  is_hex_text, base, dir, join_path, byte_len, find_references, contains, sort, leb, Result, ok,
  err, if◌then◌else◌, ◌==◌,
}
use cnftctl.Host.{
  Env, M, Error, FileInfo, DirEntry, ◌>>=◌, ◌>>◌, return, fail, give, try, refuse_if, message,
  is_not_exist, perform, ask_info, ask_text, ask_entries, stat, read_link, remove, symlink, rename,
}
use cnftctl.Durable.{rooted, mkdir_safe, sync_dir, write_json, read_json}
use cnftctl.Nft.{list_table}
use cnftctl.Apply.Model.{
  Transaction, Ownership, Manifest, Codec, active_selector, ownership_path, ownership_marker,
  transaction_root,
}
use cnftctl.Apply.Manifest.{marker_prefix, generation_prefix}

abbrev pub inet : Text
inet = codes "inet"

abbrev pub hostfw : Text
hostfw = codes "hostfw"

abbrev pub transaction_path : Text → Text → Text
transaction_path root id = rooted root (transaction_root ++ (codes "/" ++ id))

abbrev pub generation_path : Text → Text → Text
generation_path root generation = rooted root (generation_prefix ++ generation)

-- `hasGenerationMarker`
unfoldable pub has_generation_marker : Text → Text → Bool
has_generation_marker table generation = contains table (marker_prefix ++ generation)

abbrev pub is_single : List Text → Text → Bool
is_single (g ∷ []) generation = eqb g generation
is_single _ generation = false

-- `hasExactGenerationMarker`
unfoldable pub has_exact_generation_marker : Text → Text → Bool
has_exact_generation_marker table generation =
    is_single (find_references marker_prefix 0 table) generation

-- `own.Marker == OwnershipMarker && own.Generation == generation`
unfoldable pub owns : Ownership → Text → Bool
owns own generation = eqb own.marker ownership_marker && eqb own.generation generation

module _ (e : Env) (k : Codec) where
  -- `activeGeneration`, once the link was read; no link is the empty generation.
  unfoldable pub selected : Result Error Text → Result Error Text
  selected (err x) = if is_not_exist x then ok [] else err x
  selected (ok target) =
      if byte_len (base target) == 64
      then ok (base target)
      else err (message "invalid active generation selector")

  unfoldable pub active_generation : Text → M Text
  active_generation root = do
    target ← try (ask_text e (read_link (rooted root active_selector)))
    give (selected target)

  unfoldable pub set_active : Text → Text → M (Unit {0})
  set_active root generation = do
    refuse_if (not (byte_len generation == 64)) "invalid generation hash"
    let path = rooted root active_selector
    mkdir_safe e (dir path) 0o700
    let tmp = path ++ codes ".new"
    _ ← try (perform e (remove tmp))
    perform e (symlink (join_path (codes "generations") generation) tmp)
    perform e (rename tmp path)
    sync_dir e (dir path)

  unfoldable pub read_ownership : Text → M Ownership
  read_ownership root = read_json e k.decode_ownership (rooted root ownership_path)

  unfoldable pub write_ownership : Text → Text → M (Unit {0})
  write_ownership root generation =
      write_json e (rooted root ownership_path)
        (k.encode_ownership (record { marker = ownership_marker; generation = generation })) 0o600

  -- `created`: the directory was not there.
  abbrev pub is_absent : Result Error FileInfo → Bool
  is_absent (ok st) = false
  is_absent (err x) = is_not_exist x

  unfoldable pub write_transaction : Text → Transaction → M (Unit {0})
  write_transaction path tx = do
    mkdir_safe e (dir path) 0o700
    st ← try (ask_info e (stat path))
    mkdir_safe e path 0o700
    if is_absent st then sync_dir e (dir path) else return tt
    write_json e (join_path path (codes "state.json")) (k.encode_transaction tx) 0o600

  unfoldable pub read_transaction : Text → M Transaction
  read_transaction path = do
    tx ← read_json e k.decode_transaction (join_path path (codes "state.json"))
    refuse_if (not (is_hex_text 32 tx.id) || not (eqb tx.id (base path)))
        "transaction identity mismatch"
    return tx

  -- A transaction that was read and is still open.
  unfoldable pub open_of : Result Error Transaction → List Transaction
  open_of (err x) = []
  open_of (ok tx) = if not tx.confirmed && not tx.rolled_back then tx ∷ [] else []

  unfoldable pub pending_entry : Text → DirEntry → M (List Transaction)
  unfolding open_of
  pending_entry path d =
      if not d.is_dir || not (is_hex_text 32 d.name)
      then return []
      else (do tx ← try (read_transaction (join_path path d.name)); return (open_of tx))

  unfoldable pub pending_of : Text → List DirEntry → M (List Transaction)
  unfolding pending_entry
  pending_of path [] = return []
  pending_of path (d ∷ entries) = do
    found ← pending_entry path d
    rest ← pending_of path entries
    return (found ++ rest)

  unfoldable pub by_start : Transaction → Transaction → Bool
  by_start a b = leb a.started_at b.started_at

  unfoldable pub pending_at : Text → Result Error (List DirEntry) → M (List Transaction)
  unfolding pending_of by_start
  pending_at path (err x) = if is_not_exist x then return [] else fail x
  pending_at path (ok entries) = do found ← pending_of path entries; return (sort by_start found)

  -- `Pending`
  unfoldable pub pending : Text → M (List Transaction)
  unfolding pending_at
  pending root = do
    let path = rooted root transaction_root
    entries ← try (ask_entries e path)
    pending_at path entries

  unfoldable pub single_id : List Transaction → M Text
  single_id (tx ∷ []) = return tx.id
  single_id _ = fail (message "expected one pending transaction")

  -- `transactionDir`; without an ID the one pending transaction is meant.
  unfoldable pub transaction_dir : Text → Text → M Text
  unfolding single_id
  transaction_dir root id = do
    chosen ← (if is_empty id then (do found ← pending root; single_id found) else return id)
    if is_hex_text 32 chosen
        then return (transaction_path root chosen)
        else fail (message "invalid transaction ID")

  -- `verifyStoredOwnership`
  abbrev pub owned_by : Text → Result Error Ownership → Bool
  owned_by generation (ok own) = owns own generation
  owned_by generation (err x) = false

  unfoldable pub verify_stored_ownership : Text → Text → M (Unit {0})
  verify_stored_ownership root generation = do
    own ← try (read_ownership root)
    refuse_if (not (owned_by generation own)) "ownership does not match active generation"

  abbrev pub is_text : Text → Result Error Text → Bool
  is_text generation (ok s) = eqb s generation
  is_text generation (err x) = false

  unfoldable pub verify_transaction_ownership : Text → Transaction → M (Unit {0})
  verify_transaction_ownership root tx = do
    active ← try (active_generation root)
    refuse_if (not (is_text tx.generation active))
        "active selector does not match transaction generation"
    own ← try (read_ownership root)
    refuse_if (not (owned_by tx.generation own)) "ownership does not match transaction generation"

  abbrev pub is_marked : Text → Result Error (Option Text) → Bool
  is_marked generation (ok (some table)) = has_generation_marker table generation
  is_marked generation _ = false

  -- `verifyActivated`
  unfoldable pub verify_activated : Text → Transaction → M (Unit {0})
  unfolding verify_transaction_ownership
  verify_activated root tx = do
    verify_transaction_ownership root tx
    live ← try (list_table e inet hostfw)
    refuse_if (not (is_marked tx.generation live)) "live managed-table marker verification failed"

  -- `checkOwnership`, once the table was found and the ownership record was read.
  unfoldable pub known_owner : Text → Text → Result Error Ownership → M (Unit {0})
  known_owner active table (err x) = fail (message "existing inet hostfw is not owned by cnftctl")
  known_owner active table (ok own) =
      refuse_if
        (is_empty active || not (owns own active) || not (has_generation_marker table active))
        "existing inet hostfw failed cnftctl ownership verification"

  unfoldable pub check_owner : Text → Text → Option Text → M (Unit {0})
  unfolding known_owner
  check_owner root active none = return tt
  check_owner root active (some table) = do
    own ← try (read_ownership root)
    known_owner active table own

  unfoldable pub check_ownership : Text → Text → M (Unit {0})
  unfolding check_owner
  check_ownership root active = do table ← list_table e inet hostfw; check_owner root active table

  abbrev pub desired_of : Manifest → M Bool
  desired_of m =
      if m.version == 1
      then return m.ddns_desired
      else fail (message "previous generation manifest version is incompatible")

  -- `generationDDNSDesired`
  unfoldable pub generation_ddns_desired : Text → Text → M Bool
  generation_ddns_desired root generation = if is_empty generation then return false else (do
    m ←
        read_json e k.decode_manifest
          (rooted root (generation_prefix ++ (generation ++ codes "/manifest.json")))
    desired_of m)
