-- ===== src/Durable.antt =====
-- internal/apply/apply.go, its lower half: state files that are replaced as a whole, directories
-- that are no symbolic links, and the lock that serialises the operations.
pub mod Flushed
pub mod Written
use Prim.Native.String.{String}
use cnftctl.Base.{
  ℕ, List, [], ◌∷◌, ◌++◌, Bool, true, false, ◌||◌, not, Option, none, some, Text, codes, is_empty,
  dir, clean, join_path, Result, ok, err, if◌then◌else◌,
}
use cnftctl.Host.{
  Env, M, FileInfo, Error, ◌>>=◌, ◌>>◌, return, fail, give, try, deferring, first_error, refuse_if,
  message, decode_failed, perform, ask_info, ask_text, lstat, read_file, mkdir_all, create_temp,
  write, chmod, sync, close, rename, remove, open_file, open_create, flock,
}

-- `strings.TrimPrefix(s, "/")`
abbrev pub trim_slash : Text → Text
trim_slash [] = []
trim_slash (c ∷ s) = if cnftctl.Base.◌==◌ c b'/' then s else c ∷ s

-- `rooted`
unfoldable pub rooted : Text → Text → Text
rooted [] path = clean path
rooted (c ∷ root) path = join_path (c ∷ root) (trim_slash (clean path))

-- `first`
abbrev pub first : Text → Text → Text
first [] b = b
first (c ∷ a) b = c ∷ a

module _ (e : Env) where
  unfoldable pub mkdir_safe : Text → ℕ → M (Unit {0})
  mkdir_safe path mode = do
    perform e (mkdir_all path mode)
    st ← ask_info e (lstat path)
    refuse_if (not st.is_dir || st.is_symlink) "state path is not a safe directory"

  unfoldable pub sync_dir : Text → M (Unit {0})
  sync_dir path = do
    perform e (open_file path)
    deferring (perform e (sync path)) (perform e (close path))

  -- `if st, err := os.Lstat(path); err == nil && st.Mode()&os.ModeSymlink != 0`
  abbrev pub is_link : Result Error FileInfo → Bool
  is_link (ok st) = st.is_symlink
  is_link (err x) = false

  -- Write, set the mode and flush, each only if the step before succeeded; close in any case.
  unfoldable pub fill_temp : Text → Text → ℕ → M (Unit {0})
  fill_temp tmp text mode = do
    written ← try (do perform e (write tmp text); perform e (chmod tmp mode); perform e (sync tmp))
    closed ← try (perform e (close tmp))
    give (first_error written closed)

  unfoldable pub durable_write : Text → Text → ℕ → M (Unit {0})
  unfolding fill_temp sync_dir mkdir_safe
  durable_write path text mode = do
    mkdir_safe (dir path) 0o700
    st ← try (ask_info e (lstat path))
    refuse_if (is_link st) "refusing to replace symlink"
    tmp ← ask_text e (create_temp (dir path) (codes ".cnftctl-*"))
    deferring (do fill_temp tmp text mode; perform e (rename tmp path); sync_dir (dir path))
        (perform e (remove tmp))

  -- `writeJSON`, with the text that `json.MarshalIndent` gives.
  unfoldable pub write_json : Text → Text → ℕ → M (Unit {0})
  unfolding durable_write
  write_json path json mode = durable_write path (json ++ (10 ∷ [])) mode

  abbrev pub decoded {ℓ} : {A : Type ℓ} → Option A → M A
  decoded none = fail decode_failed
  decoded (some a) = return a

  unfoldable pub read_json {ℓ} : {A : Type ℓ} → (Text → Option A) → Text → M A
  read_json decode path = do
    st ← ask_info e (lstat path)
    refuse_if st.is_symlink "refusing symlink state file"
    text ← ask_text e (read_file path)
    decoded (decode text)

  unfoldable pub holding {ℓ} : {A : Type ℓ} → Text → Result Error (Unit {0}) → M A → M A
  holding file (ok _) m = deferring m (perform e (close file))
  holding file (err x) m = do
    _ ← try (perform e (close file))
    fail (message "another cnftctl operation is running")

  -- Hold the lock of `lockRuntime` while `m` runs.
  unfoldable pub with_lock {ℓ} : {A : Type ℓ} → Text → M A → M A
  unfolding mkdir_safe holding
  with_lock path m = do
    mkdir_safe path 0o700
    let file = join_path path (codes "apply.lock")
    perform e (open_create file 0o600)
    locked ← try (perform e (flock file))
    holding file locked m
