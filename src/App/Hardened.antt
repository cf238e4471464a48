-- ===== src/App/Hardened.antt =====
-- What `ssh-harden` can save.
use mathlib.Core.Path.{subst}
use cnftctl.Base.{
  List, [], ◌∷◌, Bool, true, Option, none, some, Text, codes, is_empty, map, Result, ok, err,
  >>=-eq-ok, ok-injective, ◌≡◌, ◌≢◌, ◌⊎◌, refl, sym, ap, ◌∙◌, inl, inr, arith,
}
use cnftctl.Host.{Env}
use cnftctl.Config
use cnftctl.Config.{Netip, validate, is_covered}
use cnftctl.Config.Accepted.{IsAccepted, validate-IsAccepted}
use cnftctl.Config.File.{Yaml, canonicalize, canonical_ssh, save}
use cnftctl.Config.Saved.{save-validate}
use cnftctl.Features
use cnftctl.App.Convert.{features_config}
use cnftctl.App.Change.{ChangeError, wrapped, rate_limit_of, ssh_mode_change}

set_ssh_mode-mode :
    (cfg : Features.Config) (mode : Text) (force : Bool) {fc : Features.Config} {r : Features.Reply}
    → Features.set_ssh_mode (some cfg) mode force ≡ ok (fc, r)
    → fc.ssh.mode ≡ mode
unfolding Features.set_ssh_mode
set_ssh_mode-mode cfg mode force h = ground arith

-- What the change makes of the configuration.
abbrev hardened : Text → Config.Config → Config.Config
hardened mode cfg = record cfg {
  ssh = record (cfg.ssh) { mode = mode; rate_limit = rate_limit_of mode cfg.ssh.rate_limit };
}

wrapped-ok {ℓ κ} :
    {E : Type ℓ} {A : Type κ} (f : E → ChangeError) (r : Result E A) {a : A}
    → wrapped f r ≡ ok a
    → r ≡ ok a
wrapped-ok f (ok b) h = ap ok (ok-injective h)
wrapped-ok f (err x) h = absurd (cc)

ssh_mode_change_lem :
    (mode : Text) (force : Bool) (cfg : Config.Config) {new : Config.Config} {changed : Bool}
    → ssh_mode_change mode force cfg ≡ ok (new, changed)
    → new ≡ hardened mode cfg
unfolding ssh_mode_change
ssh_mode_change_lem mode force cfg h =
    let r =
      wrapped ChangeError.features
        (Features.set_ssh_mode (some (features_config cfg)) mode force) in
    let (p, q, same) = >>=-eq-ok r _ h in
    let m : p.0.ssh.mode ≡ mode =
      set_ssh_mode-mode (features_config cfg) mode force {fc = p.0} {r = p.1}
        (wrapped-ok ChangeError.features _ q) in
    sym (ap (λ z. z.0) (ok-injective same))
    ∙ ap
        (λ k. record cfg {
          ssh = record (cfg.ssh) { mode = k; rate_limit = rate_limit_of mode cfg.ssh.rate_limit };
        })
        m

is_empty-map {ℓ κ} :
    {A : Type ℓ} {B : Type κ} (f : A → B) (xs : List A) → is_empty (map f xs) ≡ is_empty xs
is_empty-map f [] = refl
is_empty-map f (x ∷ xs) = refl

some-not_none : (r : Config.RateLimit) → some r ≢ none
some-not_none r h = cc

module _ (e : Env) (ip : Netip) (y : Yaml) where
  is_covered-canonical :
      (s : Config.Ssh)
      → is_covered e.lower ip (canonical_ssh e.lower ip s) ≡ is_covered e.lower ip s
  unfolding is_covered
  is_covered-canonical s =
      rw (is_empty-map _ s.ipv4, is_empty-map _ s.ipv6, is_empty-map _ s.ddns.hosts) refl

  limited :
      (mode : Text) (o : Option Config.RateLimit)
      → (rate_limit_of mode o ≢ none → mode ≡ codes "whitelist-rate-limit")
      → (mode ≡ Features.mode_rate_limit) ⊎ (o ≡ none)
  limited mode none h = inr refl
  limited mode (some r) h = inl (h (some-not_none r))

  can_save :
      (mode : Text) (cfg : Config.Config)
      → IsAccepted e.lower ip (canonicalize e.lower ip (hardened mode cfg))
      → ((mode ≡ Features.mode_open) ⊎ (is_covered e.lower ip cfg.ssh ≡ true))
        × ((mode ≡ Features.mode_rate_limit) ⊎ (cfg.ssh.rate_limit ≡ none))
  unfolding canonicalize is_covered
  can_save mode cfg a = (
    elim a.reachable [
      | inl open_mode ↦ inl open_mode
      | inr covered ↦ inr (sym (is_covered-canonical cfg.ssh) ∙ covered)
    ],
    limited mode cfg.ssh.rate_limit a.rate.1,
  )

  -- A mode that `ssh-harden` chose can be saved only if it is `open` or a whitelist covers SSH,
  -- whatever `--force` says, and only if it limits the rate or the configuration had no rate limit.
  pub ssh_mode_change-save :
      (mode : Text) (force : Bool) (cfg : Config.Config) {new : Config.Config} {changed : Bool}
      {text : Text}
      → ssh_mode_change mode force cfg ≡ ok (new, changed)
      → save e ip y new ≡ ok text
      → ((mode ≡ Features.mode_open) ⊎ (is_covered e.lower ip cfg.ssh ≡ true))
        × ((mode ≡ Features.mode_rate_limit) ⊎ (cfg.ssh.rate_limit ≡ none))
  ssh_mode_change-save mode force cfg {new} h saved = can_save mode cfg (
      subst (λ n. IsAccepted e.lower ip (canonicalize e.lower ip n))
        (ssh_mode_change_lem mode force cfg h)
        (validate-IsAccepted e.lower ip (canonicalize e.lower ip new)
          (save-validate e ip y new saved)))
