-- ===== src/Host.antt =====
-- The machine that the program runs on: files, the commands `nft` and `systemctl`, the clock.
-- A run is a trace of calls, newest first. What the machine answers is the parameter `Env`, an
-- arbitrary function of the calls before, so that other processes may have changed anything.
pub mod Trace
pub mod Hoare
pub mod Guard
pub mod Inversion
pub mod Files
pub mod Live
use Prim.Native.String.{String}
use cnftctl.Base.{Option, ℕ, List, [], ◌∷◌, Bool, true, false, not, ◌||◌, Text, Result, ok, err}

-- The errors that the program tells apart by `errors.Is`.
pub data OsError : Type 0 where
  not_exist exist other : OsError

-- `message` is `errors.New` or `fmt.Errorf`, its arguments left out; `joined` is `errors.Join`.
pub data Error : Type 0 where
  os_error : OsError → Error
  command_failed : String → Error
  decode_failed : Error
  message : String → Error
  joined : Error → Error → Error

-- A file handle is named by its path.
pub data Call : Type 0 where
  lstat stat read_file read_link read_dir open_file : Text → Call
  mkdir_all : Text → ℕ → Call
  remove remove_all : Text → Call
  rename symlink : Text → Text → Call
  create_temp mkdir_temp : Text → Text → Call
  write : Text → Text → Call
  chmod : Text → ℕ → Call
  sync close flock : Text → Call
  open_create open_exclusive : Text → ℕ → Call
  chown : Text → ℕ → ℕ → Call
  seek read_all eval_symlinks : Text → Call
  run : Text → List Text → Call

pub record Event : Type 0 where
  pub call : Call
  pub done : Bool

abbrev pub Trace : Type 0
Trace = List Event

pub record FileInfo : Type 0 where
  pub is_dir : Bool
  pub is_regular : Bool
  pub is_symlink : Bool
  pub perm : ℕ
  pub size : ℕ
  -- `Sys().(*syscall.Stat_t)`
  pub owner : Option (ℕ × ℕ)

pub record DirEntry : Type 0 where
  pub name : Text
  pub is_dir : Bool

-- `nft.Result`; `failed` is `Err != nil`.
pub record CommandResult : Type 0 where
  pub stdout : Text
  pub stderr : Text
  pub failed : Bool

pub record Env : Type 0 where
  pub answer : Trace → Call → Result OsError (Unit {0})
  pub info : Trace → Call → Result OsError FileInfo
  pub content : Trace → Call → Result OsError Text
  pub entries : Trace → Text → Result OsError (List DirEntry)
  pub command : Trace → Text → List Text → CommandResult
  pub clock : Trace → ℕ
  pub random_id : Trace → Text
  pub euid : Trace → ℕ
  -- Unicode's lower case of a code point above 127.
  pub lower : ℕ → ℕ

-- State passing: what is done before an error stays done.
abbrev pub M {ℓ} : Type ℓ → Type ℓ
M A = Trace → Result Error A × Trace

abbrev pub return {ℓ} : {A : Type ℓ} → A → M A
return a t = (ok a, t)

abbrev pub fail {ℓ} : {A : Type ℓ} → Error → M A
fail e t = (err e, t)

abbrev pub continue {ℓ κ} :
    {A : Type ℓ} {B : Type κ} → Result Error A × Trace → (A → M B) → Result Error B × Trace
continue (ok a, t) f = f a t
continue (err e, t) f = (err e, t)

infixl 5 ◌>>=◌ ◌>>◌
abbrev pub ◌>>=◌ {ℓ κ} : {A : Type ℓ} {B : Type κ} → M A → (A → M B) → M B
◌>>=◌ m f t = continue (m t) f

abbrev pub ◌>>◌ {ℓ} : {B : Type ℓ} → M (Unit {0}) → M B → M B
m >> k = m >>= λ _. k

-- `if bad { return errors.New(text) }`
abbrev pub refuse_if : Bool → String → M (Unit {0})
refuse_if true text = fail (message text)
refuse_if false text = return tt

-- The result as a value: `v, err := m`, with `err` inspected by what follows.
abbrev pub caught {ℓ} :
    {A : Type ℓ} → Result Error A × Trace → Result Error (Result Error A) × Trace
caught (r, t) = (ok r, t)

abbrev pub try {ℓ} : {A : Type ℓ} → M A → M (Result Error A)
try m t = caught (m t)

-- Give a result back as `return v, err`.
abbrev pub give {ℓ} : {A : Type ℓ} → Result Error A → M A
give r t = (r, t)

-- The error of two steps that are both made: that of the first, if it has one.
abbrev pub first_error : Result Error (Unit {0}) → Result Error (Unit {0}) → Result Error (Unit {0})
first_error (ok _) second = second
first_error (err x) second = err x

-- `defer cleanup()` in front of the rest of a function; the error of the cleanup is dropped.
abbrev pub deferring {ℓ} : {A : Type ℓ} → M A → M (Unit {0}) → M A
deferring m cleanup = do r ← try m; _ ← try cleanup; give r

-- A step whose failure is followed by a cleanup; the error of the cleanup is dropped.
abbrev pub cleaned {ℓ} : {A : Type ℓ} → M (Unit {0}) → Result Error A → M A
cleaned cleanup (ok a) = return a
cleaned cleanup (err x) = do _ ← try cleanup; fail x

abbrev pub on_failure {ℓ} : {A : Type ℓ} → M A → M (Unit {0}) → M A
on_failure m cleanup = do r ← try m; cleaned cleanup r

-- `errors.Is(err, os.ErrNotExist)`
unfoldable pub is_not_exist : Error → Bool
is_not_exist (os_error not_exist) = true
is_not_exist (joined a b) = is_not_exist a || is_not_exist b
is_not_exist _ = false

-- `errors.Is(err, os.ErrExist)`
unfoldable pub is_exist : Error → Bool
is_exist (os_error exist) = true
is_exist (joined a b) = is_exist a || is_exist b
is_exist _ = false

abbrev pub is_ok {ℓ} : {A : Type ℓ} → Result OsError A → Bool
is_ok (ok a) = true
is_ok (err e) = false

abbrev pub lift {ℓ} : {A : Type ℓ} → Result OsError A → Result Error A
lift (ok a) = ok a
lift (err e) = err (os_error e)

-- A call whose answer carries `r`.
abbrev pub logged {ℓ} : {A : Type ℓ} → Call → Result OsError A → M A
logged c r t = (lift r, record { call = c; done = is_ok r } ∷ t)

module _ (e : Env) where
  unfoldable pub perform : Call → M (Unit {0})
  perform c t = logged c (e.answer t c) t

  unfoldable pub ask_info : Call → M FileInfo
  ask_info c t = logged c (e.info t c) t

  unfoldable pub ask_text : Call → M Text
  ask_text c t = logged c (e.content t c) t

  unfoldable pub ask_entries : Text → M (List DirEntry)
  ask_entries d t = logged (read_dir d) (e.entries t d) t

  -- `Runner.Run`: it never fails by itself.
  unfoldable pub run_command : Text → List Text → M CommandResult
  run_command name args t =
      let r = e.command t name args in
      (ok r, record { call = run name args; done = not r.failed } ∷ t)
