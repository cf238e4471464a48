-- ===== src/Apply/Quiet/Files.antt =====
-- State files, plans, generations, and the installed package.
use cnftctl.Base.{ℕ, List, [], ◌∷◌, Bool, Option, none, some, Text, Result, ok, err}
use cnftctl.Host.{Env, M, Error, FileInfo}
use cnftctl.Host.Trace.{Only, only, Only-fail, Only-return, Only-bind}
use cnftctl.Apply.Quiet.{IsQuiet}
use cnftctl.Apply.Quiet.Units.{units}
use cnftctl.Durable
use cnftctl.Apply.Model.{File, Manifest, ManifestEntry, Codec}
use cnftctl.Apply.Manifest
use cnftctl.Apply.Generation
use cnftctl.Apply.Assets

module _ (e : Env) where
  pub Only-mkdir_safe : (path : Text) (mode : ℕ) → Only IsQuiet (Durable.mkdir_safe e path mode)
  unfolding Durable.mkdir_safe
  Only-mkdir_safe path mode = search only depth 30

  pub Only-sync_dir : (path : Text) → Only IsQuiet (Durable.sync_dir e path)
  unfolding Durable.sync_dir
  Only-sync_dir path = search only depth 30

  pub Only-durable_write :
      (path text : Text) (mode : ℕ) → Only IsQuiet (Durable.durable_write e path text mode)
  unfolding Durable.durable_write
  Only-durable_write path text mode = search only depth 30

  pub Only-write_json :
      (path text : Text) (mode : ℕ) → Only IsQuiet (Durable.write_json e path text mode)
  unfolding Durable.write_json
  Only-write_json path text mode = search (only, Only-durable_write) depth 30

  Only-decoded {ℓ} : {A : Type ℓ} (o : Option A) → Only IsQuiet (Durable.decoded e o)
  Only-decoded none = Only-fail
  Only-decoded (some a) = Only-return

  pub Only-read_json {ℓ} :
      {A : Type ℓ} (decode : Text → Option A) (path : Text)
      → Only IsQuiet (Durable.read_json e decode path)
  unfolding Durable.read_json
  Only-read_json decode path = search (only, Only-decoded) depth 30

  Only-holding {ℓ} :
      {A : Type ℓ} (file : Text) (r : Result Error (Unit {0})) (m : M A)
      → Only IsQuiet m
      → Only IsQuiet (Durable.holding e file r m)
  unfolding Durable.holding
  Only-holding file (ok u) m h = search only depth 30
  Only-holding file (err x) m h = search only depth 30

  pub Only-with_lock {ℓ} :
      {A : Type ℓ} (path : Text) (m : M A)
      → Only IsQuiet m
      → Only IsQuiet (Durable.with_lock e path m)
  unfolding Durable.with_lock
  Only-with_lock path m h = search (only, Only-holding) depth 30

module _ (e : Env) (k : Codec) where
  pub Only-plan_change :
      (root generation : Text) (f : File)
      → Only IsQuiet (Manifest.plan_change e k root generation f)
  unfolding Manifest.plan_change
  Only-plan_change root generation f = search only depth 30

  pub Only-plan_changes :
      (root generation : Text) (files : List File)
      → Only IsQuiet (Manifest.plan_changes e k root generation files)
  unfolding Manifest.plan_changes
  Only-plan_changes root generation [] = Only-return
  Only-plan_changes root generation (f ∷ files) =
      Only-bind (Only-plan_change root generation f)
        λ _. Only-bind (Only-plan_changes root generation files) λ _. Only-return

  pub Only-plan_files :
      (root : Text) (files : List File) (ddns : Bool)
      → Only IsQuiet (Manifest.plan_files e k root files ddns)
  unfolding Manifest.plan_files
  Only-plan_files root files ddns = search (only, Only-plan_changes) depth 30

  pub Only-verify_file :
      (path : Text) (f : ManifestEntry) → Only IsQuiet (Generation.verify_file e k path f)
  unfolding Generation.verify_file
  Only-verify_file path f = search only depth 30

  pub Only-verify_files :
      (path : Text) (files : List ManifestEntry)
      → Only IsQuiet (Generation.verify_files e k path files)
  unfolding Generation.verify_files
  Only-verify_files path [] = Only-return
  Only-verify_files path (f ∷ files) =
      Only-bind (Only-verify_file path f) λ _. Only-verify_files path files

  pub Only-verify_generation :
      (path : Text) (m : Manifest) → Only IsQuiet (Generation.verify_generation e k path m)
  unfolding Generation.verify_generation
  Only-verify_generation path m = search (only, Only-verify_files, Only-read_json) depth 30

  pub Only-write_files :
      (stage : Text) (files : List File) → Only IsQuiet (Generation.write_files e k stage files)
  unfolding Generation.write_files
  Only-write_files stage [] = Only-return
  Only-write_files stage (f ∷ files) =
      Only-bind (Only-durable_write e _ _ _) λ _. Only-write_files stage files

  pub Only-create_generation :
      (path : Text) (m : Manifest) (files : List File)
      → Only IsQuiet (Generation.create_generation e k path m files)
  unfolding Generation.create_generation
  Only-create_generation path m files =
      search (only, Only-mkdir_safe, Only-sync_dir, Only-durable_write, Only-write_files) depth 30

  Only-write_at :
      (path : Text) (m : Manifest) (files : List File) (r : Result Error FileInfo)
      → Only IsQuiet (Generation.write_at e k path m files r)
  unfolding Generation.write_at
  Only-write_at path m files (ok st) = search (only, Only-verify_generation) depth 30
  Only-write_at path m files (err x) = search (only, Only-create_generation) depth 30

  pub Only-write_generation :
      (path : Text) (m : Manifest) (files : List File)
      → Only IsQuiet (Generation.write_generation e k path m files)
  unfolding Generation.write_generation
  Only-write_generation path m files = search (only, Only-write_at) depth 30

  pub Only-check_file : (path : Text) → Only IsQuiet (Assets.check_file e k path)
  unfolding Assets.check_file
  Only-check_file path = search only depth 30

  Only-check_files : (paths : List Text) → Only IsQuiet (Assets.check_files e k paths)
  unfolding Assets.check_files
  Only-check_files [] = Only-return
  Only-check_files (path ∷ paths) = Only-bind (Only-check_file path) λ _. Only-check_files paths

  pub Only-check_unit : (path required : Text) → Only IsQuiet (Assets.check_unit e k path required)
  unfolding Assets.check_unit
  Only-check_unit path required = search only depth 30

  Only-check_units : (units : List (Text × Text)) → Only IsQuiet (Assets.check_units e k units)
  unfolding Assets.check_units
  Only-check_units [] = Only-return
  Only-check_units ((path, required) ∷ rest) =
      Only-bind (Only-check_unit path required) λ _. Only-check_units rest

  Only-check_hash :
      (hash : Text) (path : Option Text) → Only IsQuiet (Assets.check_hash e k hash path)
  unfolding Assets.check_hash
  Only-check_hash hash none = Only-return
  Only-check_hash hash (some path) = search only depth 30

  Only-parsed : (p : Option (Text × Text)) → Only IsQuiet (Assets.parsed e k p)
  Only-parsed none = Only-fail
  Only-parsed (some p) = Only-return

  Only-check_lines :
      (installed : List (Text × Text)) (seen lines : List Text)
      → Only IsQuiet (Assets.check_lines e k installed seen lines)
  unfolding Assets.check_lines
  Only-check_lines installed seen [] = Only-return
  Only-check_lines installed seen (line ∷ lines) =
      Only-bind (Only-parsed (Assets.parse_line seen line)) λ p.
        Only-bind (Only-check_hash p.0 (Assets.find_name p.1 installed))
          λ _. Only-check_lines installed (p.1 ∷ seen) lines

  pub Only-verify_installed_assets : Only IsQuiet (Assets.verify_installed_assets e k)
  unfolding Assets.verify_installed_assets
  Only-verify_installed_assets =
      search (only, Only-check_files, Only-check_units, Only-check_lines) depth 30

pub ruleset files = (
  units, Only-mkdir_safe, Only-sync_dir, Only-durable_write, Only-write_json, Only-read_json,
  Only-with_lock, Only-plan_change, Only-plan_changes, Only-plan_files, Only-verify_file,
  Only-verify_files, Only-verify_generation, Only-write_files, Only-create_generation,
  Only-write_generation, Only-check_file, Only-check_unit, Only-verify_installed_assets,
)
