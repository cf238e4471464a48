-- ===== src/Config/Saved.antt =====
-- `SaveFile` in time: a configuration file is replaced only by the text of a valid configuration.
use cnftctl.Base.{
  ℕ, List, [], ◌∷◌, true, Option, none, some, Text, codes, is_empty, dir, Result, ok, err,
  ok-injective, ◌≡◌, refl, Bool-cases, inl, inr,
}
use cnftctl.Host.{Call, Trace, Env, Error, M, give, rename, mkdir_all, create_temp, remove}
use cnftctl.Host.Trace.{Only-perform, Only-ask_text}
use cnftctl.Host.Hoare.{Post, Run, Run-bind, Run-mono}
use cnftctl.Host.Guard.{IsGuarded, IsGuarded-Ext, Run-also, Run-deferring, Run-IsGuarded, Run-quiet}
use cnftctl.Host.Files.{NotRename}
use cnftctl.Durable.Flushed.{IsFlushed, fill_temp-IsFlushed, Only-sync_dir, Only-fill_temp}
use cnftctl.Config.{Config, ValidationError, Netip, validate}
use cnftctl.Config.File.{Yaml, canonicalize, encoded, save, put_text, save_file}

module _ (e : Env) (ip : Netip) (y : Yaml) where
  -- The text is that of a configuration in canonical form in which nothing is wrong.
  abbrev pub IsValidText : Text → Type 0
  IsValidText text =
      (cfg : Config) × (validate e.lower ip (canonicalize e.lower ip cfg) ≡ [])
      × (y.encode (canonicalize e.lower ip cfg) ≡ some text)

  -- A file is renamed after such a text was written to it, and it was flushed and closed.
  abbrev pub NeedValid : Call → Trace → Type 0
  NeedValid (rename a b) t = (text : Text) × IsValidText text × IsFlushed text a t
  NeedValid _ t = Unit

  pub NeedValid-ready : (c : Call) (t : Trace) → NotRename c → NeedValid c t
  NeedValid-ready (rename a b) t q = absurd q
  NeedValid-ready _ t q = tt

  empty : (xs : List ValidationError) → is_empty xs ≡ true → xs ≡ []
  empty [] h = refl
  empty (x ∷ xs) h = absurd (cc)

  encoded-ok : (o : Option Text) {text : Text} → encoded e ip y o ≡ ok text → o ≡ some text
  encoded-ok none h = absurd (cc)
  encoded-ok (some text) h = ap' (ok-injective h)
    where
      ap' : {a b : Text} → a ≡ b → ◌≡◌ {A = Option Text} (some a) (some b)
      ap' p = cc

  -- `Save` gives the text of the canonical form, which is valid.
  pub save-IsValidText : (cfg : Config) {text : Text} → save e ip y cfg ≡ ok text → IsValidText text
  unfolding save
  save-IsValidText cfg h =
      let c = canonicalize e.lower ip cfg in
      elim (Bool-cases (is_empty (validate e.lower ip c))) [
        | inl fine ↦ (cfg, empty _ fine, encoded-ok (y.encode c) (rw fine at h))
        | inr wrong ↦ absurd (cc (rw wrong at h))
      ]

  -- What is saved is valid in its canonical form.
  pub save-validate :
      (cfg : Config) {text : Text}
      → save e ip y cfg ≡ ok text
      → validate e.lower ip (canonicalize e.lower ip cfg) ≡ []
  unfolding save
  save-validate cfg h =
      elim (Bool-cases (is_empty (validate e.lower ip (canonicalize e.lower ip cfg)))) [
        | inl fine ↦ empty _ fine
        | inr wrong ↦ absurd (cc (rw wrong at h))
      ]

  saved :
      (cfg : Config) (r : Result Error Text)
      → save e ip y cfg ≡ r
      → (t : Trace) → IsGuarded NeedValid t
      → Post (λ text u. IsGuarded NeedValid u × IsValidText text) (IsGuarded NeedValid) (give r t)
  saved cfg (ok text) h t g = (g, save-IsValidText cfg h)
  saved cfg (err x) h t g = g

  abbrev Kept : M (Unit {0}) → Type 0
  Kept m = Run (IsGuarded NeedValid) m (λ _. IsGuarded NeedValid) (IsGuarded NeedValid)

  put_text-Run :
      (path : Text) (mode : ℕ) (text : Text)
      → IsValidText text
      → Kept (put_text e ip y path mode text)
  unfolding put_text
  put_text-Run path mode text v =
      Run-bind
        (Run-quiet NeedValid NotRename NeedValid-ready
          (Only-perform e (mkdir_all (dir path) 0o755) (tt {0})))
        λ _.
          Run-bind
            (Run-quiet NeedValid NotRename NeedValid-ready
              (Only-ask_text e (create_temp (dir path) (codes ".config-*")) (tt {0})))
            λ tmp.
              Run-deferring NotRename (λ _. IsGuarded-Ext NeedValid NotRename NeedValid-ready)
                (IsGuarded-Ext NeedValid NotRename NeedValid-ready)
                (Only-perform e (remove tmp) (tt {0}))
                (Run-bind
                  (Run-also
                    (Run-quiet NeedValid NotRename NeedValid-ready (Only-fill_temp e tmp text mode))
                    (fill_temp-IsFlushed e tmp text mode))
                  λ _.
                    Run-bind
                      (Run-mono (λ u h. (h.0, (text, v, h.1))) (λ _ u h. h) (λ u h. h)
                        (Run-IsGuarded NeedValid e (rename tmp path)))
                      λ _.
                        Run-quiet NeedValid NotRename NeedValid-ready (Only-sync_dir e (dir path)))

  pub save_file-Run :
      (path : Text) (cfg : Config) (mode : ℕ) → Kept (save_file e ip y path cfg mode)
  unfolding save_file
  save_file-Run path cfg mode =
      Run-bind {R = λ text u. IsGuarded NeedValid u × IsValidText text}
        (record { holds = λ t g. saved cfg (save e ip y cfg) refl t g })
        λ text. record { holds = λ t g. (put_text-Run path mode text g.1).holds t g.0 }
