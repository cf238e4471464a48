-- ===== src/App/Sourced.antt =====
-- What the commands on Docker's backend have read from daemon.json.
use cnftctl.Base.{[], Bool, true, false, Text, Result, ok, err, ◌≡◌, refl, ◌⊎◌, ap}
use mathlib.Core.Path.{subst}
use cnftctl.Host.{
  OsError, not_exist, exist, other, os_error, lift, Trace, Env, Error, is_not_exist, read_file,
}
use cnftctl.Docker.{Json}
use cnftctl.App.Request.{Request}
use cnftctl.App.Daemon.{daemon_json}

-- What the machine gave for the file at `path` after the calls of `t`: a text, or that there is none.
abbrev pub IsRead : Env → Text → Text × Bool → Trace → Type 0
IsRead e path before t =
    ((before.1 ≡ true) × (e.content t (read_file path) ≡ ok before.0))
    ⊎ ((before.1 ≡ false) × (before.0 ≡ []) × (e.content t (read_file path) ≡ err not_exist))

-- The path that the command works on, once it was found, and the calls made for that.
abbrev pub IsLocated : Env → Json → Request → Bool → Text → Trace → Type 0
IsLocated e j req writing path t = daemon_json e j req writing [] ≡ (ok path, t)

-- The document that the command read from its path, or the empty text where there was none.
abbrev pub IsSource : Env → Json → Request → Bool → Text → Text × Bool → Type 0
IsSource e j req writing path before =
    (t : Trace) × IsLocated e j req writing path t × IsRead e path before t

pub given : (c : Result OsError Text) (s : Text) → ok s ≡ lift c → c ≡ ok s
given (ok a) s h = cc
given (err x) s h = absurd (cc)

not_there : (o : OsError) → is_not_exist (os_error o) ≡ true → o ≡ not_exist
unfolding is_not_exist
not_there not_exist h = refl
not_there exist h = absurd (cc)
not_there other h = absurd (cc)

pub missing :
    (c : Result OsError Text) (x : Error)
    → err x ≡ lift c
    → is_not_exist x ≡ true
    → c ≡ err not_exist
missing (ok a) x h n = absurd (cc)
missing (err o) x h n =
    let same : x ≡ os_error o = cc in
    ap err (not_there o (subst (λ z. is_not_exist z ≡ true) same n))

module _ (e : Env) (j : Json) (req : Request) (writing : Bool) where
  -- The answer to the reading of the file.
  abbrev pub IsAnswer : Text → Result Error Text → Type 0
  IsAnswer path r =
      (t : Trace) × IsLocated e j req writing path t × (r ≡ lift (e.content t (read_file path)))
