-- ===== src/App/Finished.antt =====
-- On a working machine the commands that edit the configuration come to an end with success.
use cnftctl.Base.{
  ℕ, Bool, true, false, Text, codes, dir, Result, ok, err, ◌≡◌, ◌⊎◌, refl, ap, ok-injective,
  if◌then◌else◌, is_empty,
}
use cnftctl.Host.{
  Env, Trace, M, Error, ◌>>=◌, ◌>>◌, return, give, try, deferring, first_error, perform, ask_text,
  write, chmod, sync, close, open_file, read_file, read_all, mkdir_all, create_temp, rename, remove,
}
use cnftctl.Host.Hoare.{Post-ok}
use cnftctl.Host.Guard.{Always}
use cnftctl.Durable.Written.{IsWritten}
use cnftctl.App.Held.{edit-IsHeld}
use cnftctl.Host.Live.{
  Gives, continue-ok, Gives-bind, Gives-return, Gives-give, Gives-try, Gives-any, Gives-deferring,
  IsWorking, Gives-perform, Gives-ask_text,
}
use cnftctl.Durable.{fill_temp, sync_dir}
use cnftctl.Config
use cnftctl.Config.File.{Yaml, canonicalize, save, put_text, save_file}
use cnftctl.App.Request.{Request, root_of, config_path}
use cnftctl.App.Path.{managed_path}
use cnftctl.App.Change.{Changed}
use cnftctl.App.Edit.{edited, is_text, load_config, write_config, edit}

-- The edit returns what the change says of itself, and the file held the text of the changed
-- configuration when the edit came to write it, or a file with that text took its name.
abbrev pub IsFinished :
    Env → Request → Bool → Text → Text → Trace → Result Error Bool × Trace → Type 0
IsFinished e req changed text text_again t out =
    (out.0 ≡ ok changed)
    × ((e.content t (read_file (config_path req)) ≡ ok text)
        ⊎ IsWritten (config_path req) text_again out.1)

module _ (e : Env) (w : IsWorking e) where
  does : (c : cnftctl.Host.Call) → Gives (perform e c) tt
  does = Gives-perform e w

  -- A call, and then a program.
  after {ℓ} :
      {A : Type ℓ} (c : cnftctl.Host.Call) (m : M A) {a : A}
      → Gives m a
      → Gives (do perform e c; m) a
  after c m p = Gives-bind (perform e c) (λ _. m) (does c) p

  sync_dir-Gives : (path : Text) → Gives (sync_dir e path) tt
  unfolding sync_dir
  sync_dir-Gives path =
      after (open_file path) _
        (Gives-deferring (perform e (sync path)) (perform e (close path)) (does (sync path)))

  filled :
      (tmp text : Text) (mode : ℕ)
      → Gives (do perform e (write tmp text); perform e (chmod tmp mode); perform e (sync tmp)) tt
  filled tmp text mode = after (write tmp text) _ (after (chmod tmp mode) _ (does (sync tmp)))

  fill_temp-Gives : (tmp text : Text) (mode : ℕ) → Gives (fill_temp e tmp text mode) tt
  unfolding fill_temp
  fill_temp-Gives tmp text mode =
      Gives-bind
        (try do perform e (write tmp text); perform e (chmod tmp mode); perform e (sync tmp))
        (λ written. try (perform e (close tmp)) >>= λ closed. give (first_error written closed))
        (Gives-try (do perform e (write tmp text); perform e (chmod tmp mode); perform e (sync tmp))
          (filled tmp text mode))
        (Gives-bind (try (perform e (close tmp))) (λ closed. give (first_error (ok tt) closed))
          (Gives-try (perform e (close tmp)) (does (close tmp))) (Gives-give refl))

  edited-Gives : (r : Changed) {a : Config.Config × Bool} → r ≡ ok a → Gives (edited r) a
  edited-Gives (ok r) h = Gives-give (ap ok (ok-injective h))
  edited-Gives (err x) h = absurd cc

  module _ (cip : Config.Netip) (y : Yaml) where
    put_text-Gives :
        (path : Text) (mode : ℕ) (text : Text) → Gives (put_text e cip y path mode text) tt
    unfolding put_text
    put_text-Gives path mode text = after (mkdir_all (dir path) 0o755) _ (
        Gives-bind (ask_text e (create_temp (dir path) (codes ".config-*"))) _
          (Gives-ask_text e (create_temp (dir path) (codes ".config-*")) w.temp
            (λ t. w.temps t (dir path) (codes ".config-*")))
          (Gives-deferring
            (do fill_temp e w.temp text mode; perform e (rename w.temp path); sync_dir e (dir path))
            (perform e (remove w.temp))
            (Gives-bind (fill_temp e w.temp text mode) _ (fill_temp-Gives w.temp text mode)
              (after (rename w.temp path) _ (sync_dir-Gives (dir path))))))

    save_file-Gives :
        (path : Text) (cfg : Config.Config) (mode : ℕ) (text : Text)
        → save e cip y cfg ≡ ok text
        → Gives (save_file e cip y path cfg mode) tt
    unfolding save_file
    save_file-Gives path cfg mode text h =
        Gives-bind (give (save e cip y cfg)) _ (Gives-give h) (put_text-Gives path mode text)

    write_unless :
        (same : Bool) (m : M (Unit {0})) → Gives m tt → Gives (if same then return tt else m) tt
    write_unless true m p = Gives-return
    write_unless false m p = p

    managed_path-Gives :
        (root path : Text) (create : Bool)
        → is_empty root ≡ true
        → Gives (managed_path e root path create) path
    unfolding managed_path
    managed_path-Gives root path create h = record { gives = λ t. rw h refl }

    write_config-Gives :
        (req : Request) (cfg : Config.Config) (text text_again : Text)
        → is_empty (root_of req) ≡ true
        → save e cip y cfg ≡ ok text
        → save e cip y (canonicalize e.lower cip cfg) ≡ ok text_again
        → Gives (write_config e cip y req cfg) tt
    unfolding write_config
    write_config-Gives req cfg text text_again hr h h_again =
        Gives-bind (managed_path e (root_of req) (config_path req) true) _
          (managed_path-Gives (root_of req) (config_path req) true hr)
          (Gives-bind (give (save e cip y cfg)) _ (Gives-give h) (
            Gives-any (ask_text e (read_file (config_path req))) _ λ before.
              write_unless (is_text text before) _ (
                save_file-Gives (config_path req) (canonicalize e.lower cip cfg) 0o600 text_again
                  h_again)))

    edit-returns :
        (req : Request) (change : Config.Config → Changed) (t : Trace) (cfg new : Config.Config)
        (changed : Bool) (text text_again : Text)
        → is_empty (root_of req) ≡ true
        → (load_config e cip y req t).0 ≡ ok cfg
        → change cfg ≡ ok (new, changed)
        → save e cip y new ≡ ok text
        → save e cip y (canonicalize e.lower cip new) ≡ ok text_again
        → (edit e cip y req change t).0 ≡ ok changed
    unfolding edit
    edit-returns req change t cfg new changed text text_again hr hl hc h h_again =
        continue-ok (load_config e cip y req t) _ hl (
          Gives-bind (edited (change cfg)) _ (edited-Gives (change cfg) hc) (
            Gives-bind (write_config e cip y req new) _
              (write_config-Gives req new text text_again hr h h_again) Gives-return))

    -- On a machine where each change of a file succeeds and there is no alternate root, a command
    -- that edits the configuration ends with success: if the file loads, the change accepts what it
    -- holds, and the changed configuration and its canonical form can be saved, as two texts, then
    -- the command returns what the change says of itself, and either the file is read, after it was
    -- loaded, with the first text, or a file to which the second text was written was renamed to the
    -- path of the configuration, with success.
    pub edit-finishes :
        (req : Request) (change : Config.Config → Changed) (t : Trace) (cfg new : Config.Config)
        (changed : Bool) (text text_again : Text)
        → is_empty (root_of req) ≡ true
        → (load_config e cip y req t).0 ≡ ok cfg
        → change cfg ≡ ok (new, changed)
        → save e cip y new ≡ ok text
        → save e cip y (canonicalize e.lower cip new) ≡ ok text_again
        → IsFinished e req changed text text_again
            (load_config e cip y req t).1
            (edit e cip y req change t)
    edit-finishes req change t cfg new changed text text_again hr hl hc h h_again =
        let returned =
          edit-returns req change t cfg new changed text text_again hr hl hc h h_again in
        (
          returned,
          Post-ok _ Always (edit e cip y req change t)
              (edit-IsHeld e cip y req change cfg new changed text text_again hr hc h h_again t hl)
              returned,
        )
