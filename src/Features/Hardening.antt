-- ===== src/Features/Hardening.antt =====
-- When the mode of SSH can be set.
use cnftctl.Base.{
  List, [], ◌∷◌, is_empty, codes, Bool, true, false, ◌&&◌, not, some, Text, eqb, eqb_iff, ok, ◌≡◌,
  ◌⊎◌, ◌↔◌, refl, inl, inr, arith, Bool-cases,
}
use cnftctl.Features.{
  SshConfig, Config, Reply, mode_open, mode_whitelist_only, mode_rate_limit, is_mode, has_coverage,
  set_ssh_mode, mode_reply,
}

-- An address stands in a whitelist, or the host names of DDNS are used and there is one.
abbrev pub HasSource : SshConfig → Type 0
HasSource c =
    ((x : Text) × (xs : List Text) × (c.static_whitelist ≡ x ∷ xs))
    ⊎ ((c.ddns_enabled ≡ true) × ((h : Text) × (hs : List Text) × (c.ddns_hosts ≡ h ∷ hs)))

-- The mode is `open`, or one of the two hardened ones, and then there is an address or a host that
-- may log in, or the operator asked for the mode in spite of that.
abbrev pub IsReachable : SshConfig → Type 0
IsReachable c =
    (c.mode ≡ codes "open")
    ⊎ (((c.mode ≡ codes "whitelist-only") ⊎ (c.mode ≡ codes "whitelist-rate-limit"))
        × ((c.hardening_override ≡ true) ⊎ HasSource c))

filled : (xs : List Text) → (is_empty xs ≡ false) ↔ ((x : Text) × (ys : List Text) × (xs ≡ x ∷ ys))
filled [] = (λ h. absurd (cc), λ h. absurd (cc (h.2)))
filled (x ∷ xs) = (λ h. (x, xs, refl), λ h. refl)

has_coverage_iff : (c : SshConfig) → (has_coverage c ≡ true) ↔ HasSource c
unfolding has_coverage
has_coverage_iff c = (forth, back)
  where
    forth : has_coverage c ≡ true → HasSource c
    forth h = elim (Bool-cases (is_empty c.static_whitelist)) [
      | inr full ↦ inl ((filled c.static_whitelist).0 full)
      | inl none_static ↦ elim (Bool-cases (is_empty c.ddns_hosts)) [
        | inl none_named ↦ ground arith
        | inr full ↦ inr (ground arith, (filled c.ddns_hosts).0 full)
      ]
    ]

    back : HasSource c → has_coverage c ≡ true
    back (inl s) = let full = (filled c.static_whitelist).1 s in rw full refl
    back (inr (on, s)) = let full = (filled c.ddns_hosts).1 s in ground arith

known_mode :
    (m : Text)
    → (is_mode m ≡ true)
      ↔ ((m ≡ codes "open") ⊎ (m ≡ codes "whitelist-only") ⊎ (m ≡ codes "whitelist-rate-limit"))
unfolding is_mode
known_mode m =
    ground (arith, eqb_iff m mode_open, eqb_iff m mode_whitelist_only, eqb_iff m mode_rate_limit)

not_forced : (a o c : Bool) → (not a && not o && not c) ≡ true → ¬ (o ≡ true)
not_forced true o c h f = cc
not_forced false true c h f = cc
not_forced false false c h f = cc

module _ (cfg : Config) (mode : Text) (override : Bool) where
  abbrev changed : Config
  changed = record cfg { ssh = record (cfg.ssh) { mode = mode; hardening_override = override } }

  covered_iff : (has_coverage cfg.ssh ≡ true) ↔ HasSource changed.ssh
  unfolding has_coverage
  covered_iff = has_coverage_iff changed.ssh

  -- Why the change is accepted.
  admitted :
      is_mode mode ≡ true
      → (not (eqb mode mode_open) && not override && not (has_coverage cfg.ssh)) ≡ false
      → IsReachable changed.ssh
  admitted known h = elim ((known_mode mode).0 known) [
    | inl is_open ↦ inl is_open
    | inr hardened ↦ elim (Bool-cases override) [
      | inl forced ↦ inr (hardened, inl forced)
      | inr free ↦ elim (Bool-cases (has_coverage cfg.ssh)) [
        | inl covered ↦ inr (hardened, inr (covered_iff.0 covered))
        | inr bare ↦ inl ((eqb_iff mode mode_open).0 (ground arith))
      ]
    ]
  ]

  reachable_mode : IsReachable changed.ssh → is_mode mode ≡ true
  reachable_mode (inl is_open) = (known_mode mode).1 (inl is_open)
  reachable_mode (inr (hardened, why)) = (known_mode mode).1 (inr hardened)

  refused :
      (not (eqb mode mode_open) && not override && not (has_coverage cfg.ssh)) ≡ true
      → ¬ IsReachable changed.ssh
  refused h (inl is_open) = let same = (eqb_iff mode mode_open).1 is_open in ground arith
  refused h (inr (hardened, inl forced)) =
      not_forced (eqb mode mode_open) override (has_coverage cfg.ssh) h forced
  refused h (inr (hardened, inr source)) = let covered = covered_iff.1 source in ground arith

  -- `SetSSHMode` succeeds, with the mode and the override set in the configuration, exactly if the
  -- mode is `open`, or it is `whitelist-only` or `whitelist-rate-limit` and the hardening is
  -- overridden, an address stands in a whitelist, or DDNS is used and has a host.
  pub set_ssh_mode-IsReachable :
      ((r : Reply) × (set_ssh_mode (some cfg) mode override ≡ ok (changed, r)))
      ↔ IsReachable changed.ssh
  unfolding set_ssh_mode
  set_ssh_mode-IsReachable = elim (Bool-cases (is_mode mode)) [
    | inr bad ↦ (λ h. absurd (cc (rw bad at h.1)), λ h. absurd (cc (reachable_mode h)))
    | inl known ↦
        elim (Bool-cases (not (eqb mode mode_open) && not override && not (has_coverage cfg.ssh))) [
          | inl closed ↦
              (λ h. absurd (cc (rw (known, closed) at h.1)), λ h. absurd (refused closed h))
          | inr fine ↦
              (λ h. admitted known fine, λ h. (mode_reply cfg mode override, rw (known, fine) refl))
        ]
  ]
