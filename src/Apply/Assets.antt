-- ===== src/Apply/Assets.antt =====
-- `verifyInstalledAssets`: the files of the package are there, and hash to what it lists.
use cnftctl.Base.{
  ℕ, List, [], ◌∷◌, ◌++◌, Bool, true, false, ◌||◌, ◌&&◌, not, Option, none, some, Text, codes, eqb,
  any, has_prefix, contains, split, is_hex_text, base, clean, trim_suffix, Result, ok, err,
  if◌then◌else◌, ◌==◌, length,
}
use cnftctl.Host.{
  Env, M, Error, FileInfo, ◌>>=◌, ◌>>◌, return, fail, try, refuse_if, message, ask_info, ask_text,
  stat, read_file,
}
use cnftctl.Durable.{rooted}
use cnftctl.Apply.Model.{Codec}
use cnftctl.Apply.Generation.{is_bad}

abbrev pub executable : Text
executable = codes "/usr/bin/cnftctl"

-- The slice without its last two elements.
abbrev pub required_assets : List Text
required_assets =
    executable
    ∷ codes "/usr/lib/cnftctl/cnftctl-recover"
    ∷ codes "/usr/lib/cnftctl/inspect-transaction"
    ∷ codes "/usr/lib/systemd/system/cnftctl-firewall.service"
    ∷ codes "/usr/lib/systemd/system/cnftctl-reconcile.service"
    ∷ codes "/usr/lib/systemd/system/cnftctl-rollback@.service"
    ∷ codes "/usr/lib/systemd/system/cnftctl-rollback@.timer"
    ∷ codes "/usr/lib/systemd/system/cnftctl-ddns-refresh.service"
    ∷ codes "/usr/lib/systemd/system/cnftctl-ddns-refresh.timer"
    ∷ []

abbrev pub delivery_manifest : Text
delivery_manifest = codes "/var/lib/cnftctl/delivery/manifest"

abbrev pub delivery_sums : Text
delivery_sums = codes "/var/lib/cnftctl/delivery/SHA256SUMS"

-- What the map `checks` holds, in the order of the source (Go's order is random).
abbrev pub unit_checks : List (Text × Text)
unit_checks =
    (
      codes "/usr/lib/systemd/system/cnftctl-firewall.service",
      codes
          "ExecStart=/usr/sbin/nft -I /var/lib/cnftctl/active -f /var/lib/cnftctl/active/firewall.nft",
    )
    ∷ (
      codes "/usr/lib/systemd/system/cnftctl-reconcile.service",
      codes "ExecStart=/usr/bin/cnftctl reconcile",
    )
    ∷ (
      codes "/usr/lib/systemd/system/cnftctl-rollback@.service",
      codes "ExecStart=/usr/bin/cnftctl rollback %i",
    )
    ∷ []

-- The map `installed`: the bundle's names of the installed files.
abbrev pub unit_names : List Text → List (Text × Text)
unit_names [] = []
unit_names (path ∷ paths) =
    if has_prefix path (codes "/usr/lib/systemd/system/")
    then (codes "systemd/" ++ base path, path) ∷ unit_names paths
    else unit_names paths

abbrev pub installed_names : List Text → List (Text × Text)
installed_names required =
    (codes "bin/cnftctl", executable)
    ∷ (codes "manifest", delivery_manifest)
    ∷ (codes "scripts/cnftctl-recover", codes "/usr/lib/cnftctl/cnftctl-recover")
    ∷ (codes "scripts/inspect-transaction", codes "/usr/lib/cnftctl/inspect-transaction")
    ∷ unit_names required

unfoldable pub find_name : Text → List (Text × Text) → Option Text
find_name name [] = none
find_name name ((n, path) ∷ rest) = if eqb n name then some path else find_name name rest

-- `strings.Split(line, "  ")`, if it has two parts: the hash and the name.
unfoldable pub cut_line : Text → Text → Option (Text × Text)
cut_line acc (c ∷ d ∷ s) =
    let rest = cut_line (acc ++ (c ∷ [])) (d ∷ s) in
    if c == 32 && d == 32 then (if contains s (32 ∷ 32 ∷ []) then none else some (acc, s)) else rest
cut_line acc s = none

-- The well-formed line of a name that was not listed before.
unfoldable pub parse_line : List Text → Text → Option (Text × Text)
unfolding cut_line
parse_line seen line = elim (cut_line [] line) [
  | none ↦ none
  | some (hash, name) ↦
      if not (is_hex_text 64 hash)
        || not (eqb (clean name) name)
        || has_prefix name (codes "/")
        || has_prefix name (codes "../")
        || any (eqb name) seen
      then none
      else some (hash, name)
]

module _ (e : Env) (k : Codec) where
  abbrev pub lacks : Text → Result Error Text → Bool
  lacks required (ok text) = not (contains text required)
  lacks required (err x) = true

  unfoldable pub check_file : Text → M (Unit {0})
  check_file path = do
    st ← try (ask_info e (stat (rooted [] path)))
    refuse_if (is_bad e k (λ s. not s.is_regular) st) "required installed asset is unavailable"

  unfoldable pub check_files : List Text → M (Unit {0})
  unfolding check_file
  check_files [] = return tt
  check_files (path ∷ paths) = do check_file path; check_files paths

  unfoldable pub check_unit : Text → Text → M (Unit {0})
  check_unit path required = do
    text ← try (ask_text e (read_file (rooted [] path)))
    refuse_if (lacks required text) "installed unit is incompatible"

  unfoldable pub check_units : List (Text × Text) → M (Unit {0})
  unfolding check_unit
  check_units [] = return tt
  check_units ((path, required) ∷ rest) = do check_unit path required; check_units rest

  unfoldable pub check_hash : Text → Option Text → M (Unit {0})
  check_hash hash none = return tt
  check_hash hash (some path) = do
    text ← ask_text e (read_file (rooted [] path))
    refuse_if (not (eqb (k.sha256_hex text) hash)) "installed asset hash mismatch"

  abbrev pub parsed : Option (Text × Text) → M (Text × Text)
  parsed none = fail (message "installed SHA256SUMS is malformed")
  parsed (some p) = return p

  -- The loop over the lines; the names that were seen are its result.
  unfoldable pub check_lines : List (Text × Text) → List Text → List Text → M (List Text)
  unfolding check_hash
  check_lines installed seen [] = return seen
  check_lines installed seen (line ∷ lines) = do
    (hash, name) ← parsed (parse_line seen line)
    check_hash hash (find_name name installed)
    check_lines installed (name ∷ seen) lines

  abbrev pub uncovered : List Text → List (Text × Text) → Bool
  uncovered seen [] = false
  uncovered seen ((name, path) ∷ rest) = not (any (eqb name) seen) || uncovered seen rest

  unfoldable pub verify_inventory : M (Unit {0})
  unfolding check_lines
  verify_inventory = do
    text ← ask_text e (read_file (rooted [] delivery_sums))
    let installed = installed_names required_assets
    seen ← check_lines installed [] (split 10 (trim_suffix 10 text))
    refuse_if (uncovered seen installed) "installed SHA256SUMS does not cover a file"

  -- `st.Mode().Perm()&0o111 == 0`
  abbrev pub is_executable : FileInfo → Bool
  is_executable st = not (cnftctl.Base.◌==◌ (Prim.Native.Nat.bit_and st.perm 0o111) 0)

  unfoldable pub verify_installed_assets : M (Unit {0})
  unfolding check_files check_units verify_inventory
  verify_installed_assets = do
    check_files (required_assets ++ (delivery_manifest ∷ delivery_sums ∷ []))
    st ← try (ask_info e (stat (rooted [] executable)))
    refuse_if (is_bad e k (λ s. not s.is_regular || not (is_executable s)) st)
        "required installed executable is unavailable or not executable"
    check_units unit_checks
    manifest ← try (ask_text e (read_file (rooted [] delivery_manifest)))
    refuse_if
        (lacks (codes "format=1" ++ (10 ∷ [])) manifest
          || lacks (codes "product=cnftctl" ++ (10 ∷ [])) manifest)
        "installed cnftctl manifest is incompatible"
    verify_inventory
