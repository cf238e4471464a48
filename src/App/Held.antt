-- ===== src/App/Held.antt =====
-- What an edit that ends with success has left in the configuration file.
use cnftctl.Base.{
  ℕ, Bool, true, Text, codes, dir, is_empty, eqb, eqb_iff, Result, ok, err, ok-injective, ◌≡◌, ◌⊎◌,
  refl, ap, ◌∙◌, inl, inr, Bool-cases, if◌then◌else◌,
}
use cnftctl.Host.{
  Env, Trace, M, Error, OsError, continue, lift, ◌>>=◌, ◌>>◌, return, perform, ask_text, read_file,
  mkdir_all, create_temp,
}
use cnftctl.Host.Hoare.{Post, Run, Run-bind, Run-mono}
use cnftctl.Host.Guard.{Always, Run-any}
use cnftctl.Durable.Written.{IsWritten, replaced-IsWritten}
use cnftctl.Config
use cnftctl.Config.File.{Yaml, canonicalize, save, put_text, save_file}
use cnftctl.App.Request.{Request, root_of, config_path}
use cnftctl.App.Path.{managed_path}
use cnftctl.App.Change.{Changed}
use cnftctl.App.Edit.{edited, is_text, load_config, write_config, edit}

module _ (e : Env) where
  module _ (cip : Config.Netip) (y : Yaml) where
    put_text-IsWritten :
        (path : Text) (mode : ℕ) (text : Text)
        → Run Always (put_text e cip y path mode text) (λ _. IsWritten path text) Always
    unfolding put_text
    put_text-IsWritten path mode text =
        Run-bind (Run-any (perform e (mkdir_all (dir path) 0o755))) λ _.
          Run-bind (Run-any (ask_text e (create_temp (dir path) (codes ".config-*"))))
            λ tmp. replaced-IsWritten e tmp path text mode

    save_file-IsWritten :
        (path : Text) (cfg : Config.Config) (mode : ℕ) (text : Text)
        → save e cip y cfg ≡ ok text
        → Run Always (save_file e cip y path cfg mode) (λ _. IsWritten path text) Always
    unfolding save_file
    save_file-IsWritten path cfg mode text h = record {
      holds = λ t _. rw h ((put_text-IsWritten path mode text).holds t tt);
    }

    -- The file held the text at that time, or the text that is saved was written to it since.
    abbrev pub IsHeld : Text → Text → Text → Trace → Trace → Type 0
    IsHeld path text text_again t v =
        (e.content t (read_file path) ≡ ok text) ⊎ IsWritten path text_again v

    module _ (req : Request) (cfg : Config.Config) (text text_again : Text)
        (local : is_empty (root_of req) ≡ true) (h : save e cip y cfg ≡ ok text)
        (h_again : save e cip y (canonicalize e.lower cip cfg) ≡ ok text_again) where
      abbrev path : Text
      path = config_path req

      write_it : M (Unit {0})
      write_it = save_file e cip y path (canonicalize e.lower cip cfg) 0o600

      abbrev Held : Trace → Unit {0} → Trace → Type 0
      Held t = λ _. IsHeld path text text_again t

      written : (t u : Trace) → Post (Held t) Always (write_it u)
      unfolding write_it
      written t u =
          (Run-mono {R = λ _. IsWritten path text_again} (λ u h. h) (λ _ u w. inr w) (λ u h. h)
              (save_file-IsWritten path (canonicalize e.lower cip cfg) 0o600 text_again
                h_again)).holds
            u tt

      decided :
          (t u : Trace) (c : Result OsError Text)
          → e.content t (read_file path) ≡ c
          → Post (Held t) Always ((if is_text text (lift c) then return tt else write_it) u)
      decided t u (ok s) same = elim (Bool-cases (eqb s text)) [
        | inl equal ↦ rw equal (inl (same ∙ ap ok ((eqb_iff s text).0 equal)))
        | inr other ↦ rw other (written t u)
      ]
      decided t u (err x) same = written t u

      pub write_config-IsHeld : (t : Trace) → Post (Held t) Always (write_config e cip y req cfg t)
      unfolding write_config managed_path ask_text write_it
      write_config-IsHeld t = rw (local, h) (decided t _ (e.content t (read_file path)) refl)

    -- The rest of an edit, once the file was loaded.
    module _ (req : Request) (change : Config.Config → Changed) (cfg new : Config.Config)
        (changed : Bool) (text text_again : Text) (local : is_empty (root_of req) ≡ true)
        (changes : change cfg ≡ ok (new, changed)) (h : save e cip y new ≡ ok text)
        (h_again : save e cip y (canonicalize e.lower cip new) ≡ ok text_again) where
      abbrev Left : Trace → Bool → Trace → Type 0
      Left t = λ _. IsHeld (config_path req) text text_again t

      Post-then :
          (t : Trace) (p : Result Error (Unit {0}) × Trace)
          → Post (λ _. IsHeld (config_path req) text text_again t) Always p
          → Post (Left t) Always (continue p (λ _. return changed))
      Post-then t (ok _, u) g = g
      Post-then t (err x, u) g = tt

      rest : Changed → M Bool
      rest r = edited r >>= λ s. write_config e cip y req s.0 >> return s.1

      rest-IsHeld :
          (t : Trace) (r : Changed) → r ≡ ok (new, changed) → Post (Left t) Always (rest r t)
      unfolding rest
      rest-IsHeld t r same = rw same (
          Post-then t (write_config e cip y req new t)
            (write_config-IsHeld req new text text_again local h h_again t))

      loaded-IsHeld :
          (p : Result Error Config.Config × Trace)
          → p.0 ≡ ok cfg
          → Post (Left p.1) Always (continue p (λ c. rest (change c)))
      loaded-IsHeld (ok c, u) same =
          rest-IsHeld u (change c) (ap change (ok-injective same) ∙ changes)
      loaded-IsHeld (err x, u) same = absurd (cc)

      -- The file, after an edit.
      pub edit-IsHeld :
          (t : Trace)
          → (load_config e cip y req t).0 ≡ ok cfg
          → Post (Left (load_config e cip y req t).1) Always (edit e cip y req change t)
      unfolding edit rest
      edit-IsHeld t loads = loaded-IsHeld (load_config e cip y req t) loads
