-- ===== src/Nft.antt =====
-- internal/nft/runner.go: the calls of the command `nft`.
pub mod Refused
use cnftctl.Base.{
  ℕ, List, [], ◌∷◌, ◌++◌, Bool, true, false, ◌||◌, Option, none, some, Text, codes, is_empty, dir,
  join, contains, contains_any, to_lower, if◌then◌else◌, not,
}
use cnftctl.Host.{
  Env, M, ◌>>=◌, ◌>>◌, return, fail, give, try, deferring, first_error, refuse_if, command_failed,
  message, run_command, perform, ask_text, write, sync, close, create_temp, remove,
}

abbrev pub nft : Text
nft = codes "nft"

-- `SetReplacement`
pub record SetReplacement : Type 0 where
  pub name : Text
  pub elements : List Text

-- `isMissingTable`
unfoldable pub is_missing_table : (ℕ → ℕ) → Text → Bool
is_missing_table lower s =
    let t = to_lower lower s in
    contains t (codes "no such file or directory")
    || contains t (codes "does not exist")
    || contains t (codes "no such table")

-- `strings.ContainsAny(v, " \t\r\n;{}")` or empty
unfoldable pub is_bad_identifier : Text → Bool
is_bad_identifier v = is_empty v || contains_any v (32 ∷ 9 ∷ 13 ∷ 10 ∷ b';' ∷ b'{' ∷ b'}' ∷ [])

abbrev pub space : Text
space = codes " "

abbrev pub newline : Text
newline = 10 ∷ []

-- The lines that `ReplaceSets` writes for one set.
unfoldable pub set_batch : Text → Text → SetReplacement → Text
set_batch family table r =
    let target = family ++ (space ++ (table ++ (space ++ r.name))) in
    codes "flush set "
    ++ (target
        ++ (newline
            ++ (if is_empty r.elements
                then []
                else codes "add element "
                  ++ (target
                      ++ (codes " { "
                          ++ (join (codes ", ") r.elements ++ (codes " }" ++ newline)))))))

-- The text of the batch; `none` at an identifier that is refused.
unfoldable pub sets_batch : Text → Text → List SetReplacement → Option Text
unfolding set_batch
sets_batch family table [] = some []
sets_batch family table (r ∷ rs) =
    if is_bad_identifier r.name then none else elim (sets_batch family table rs) [
      | none ↦ none
      | some text ↦ some (set_batch family table r ++ text)
    ]

module _ (e : Env) where
  file_args : Bool → Text → List Text
  file_args true path = codes "-c" ∷ codes "-I" ∷ dir path ∷ codes "-f" ∷ path ∷ []
  file_args false path = codes "-I" ∷ dir path ∷ codes "-f" ∷ path ∷ []

  unfoldable pub file_command : Bool → Text → M (Unit {0})
  unfolding file_args
  file_command check path = do
    refuse_if (is_empty path) "nft config path is required"
    r ← run_command e nft (file_args check path)
    if r.failed then fail (command_failed "nft config") else return tt

  unfoldable pub validate_file : Text → M (Unit {0})
  unfolding file_command
  validate_file path = file_command true path

  unfoldable pub load_file : Text → M (Unit {0})
  unfolding file_command
  load_file path = file_command false path

  -- `ListTable`: the text of a table that is present, `none` for one that is absent.
  unfoldable pub list_table : Text → Text → M (Option Text)
  list_table family table = do
    refuse_if (is_empty family || is_empty table) "nft family and table are required"
    r ← run_command e nft (codes "list" ∷ codes "table" ∷ family ∷ table ∷ [])
    if not r.failed
        then return (some r.stdout)
        else if is_missing_table e.lower r.stderr
        then return none
        else fail (command_failed "inspect nft table")

  -- `HasTable`
  unfoldable pub has_table : Text → Text → M Bool
  has_table family table = do
    refuse_if (is_empty family || is_empty table) "nft family and table are required"
    r ← run_command e nft (codes "list" ∷ codes "table" ∷ family ∷ table ∷ [])
    if not r.failed
        then return true
        else if is_missing_table e.lower r.stderr
        then return false
        else fail (command_failed "inspect nft table")

  -- Write a batch to a temporary file, load it, and remove the file.
  unfoldable pub load_batch : Text → Text → M (Unit {0})
  load_batch pattern text = do
    path ← ask_text e (create_temp [] pattern)
    deferring
        (do
          written ← try (do perform e (write path text); perform e (sync path))
          closed ← try (perform e (close path))
          give (first_error written closed)
          load_file path)
        (perform e (remove path))

  -- `DeleteTable`
  unfoldable pub delete_table : Text → Text → M (Unit {0})
  delete_table family table = do
    refuse_if (is_empty family || is_empty table) "nft family and table are required"
    load_batch (codes "cnftctl-delete-*.nft")
        (codes "delete table " ++ (family ++ (space ++ (table ++ newline))))

  unfoldable pub load_sets : Option Text → M (Unit {0})
  load_sets none = fail (message "invalid nft set identifier")
  load_sets (some text) = load_batch (codes "cnftctl-set-*.nft") text

  -- `ReplaceSets`
  unfoldable pub replace_sets : Text → Text → List SetReplacement → M (Unit {0})
  unfolding load_sets
  replace_sets family table replacements = do
    refuse_if (is_bad_identifier family || is_bad_identifier table) "invalid nft set identifier"
    load_sets (sets_batch family table replacements)
