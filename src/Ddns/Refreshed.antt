-- ===== src/Ddns/Refreshed.antt =====
-- The runtime sets are replaced only once every host was resolved.
use mathlib.Core.Path.{subst}
use cnftctl.Base.{
  ℕ, suc, List, [], ◌∷◌, Bool, true, false, not, Text, is_empty, Result, ok, err, >>=-eq-ok, ◌≡◌,
  refl, ap, sym, ◌∙◌, arith, inl, inr, Bool-cases,
}
use cnftctl.Ddns.{
  Netip, DdnsError, Config, Resolver, Resolved, Push, ensure_defaults, normalize_host, is_fatal,
  is_usable, resolve_host, resolve_hosts, resolve, is_nothing, push, refresh,
}

module _ (ip : Netip) (lower : ℕ → ℕ) (r : Resolver ip) (n : ℕ) where
  -- Neither lookup of the `i`-th host failed, and an address in the answers is of use.
  abbrev pub IsAnswered : ℕ → Text → Type 0
  IsAnswered i host =
      (h : Text) × (normalize_host lower host ≡ ok h)
      × (is_fatal ip (r.lookup_a i h).error ≡ false)
      × (is_fatal ip (r.lookup_aaaa i h).error ≡ false)
      × (is_usable ip n (r.lookup_a i h).addrs (r.lookup_aaaa i h).addrs ≡ true)

  abbrev pub AllAnswered : ℕ → List Text → Type 0
  AllAnswered i [] = Unit
  AllAnswered i (host ∷ hosts) = IsAnswered i host × AllAnswered (suc i) hosts

  usable : (b : Bool) → not b ≡ false → b ≡ true
  usable true h = refl
  usable false h = absurd (cc)

  resolve_host-IsAnswered :
      (i : ℕ) (host : Text) (found : Resolved ip) {next : Resolved ip}
      → resolve_host ip lower r n i host found ≡ ok next
      → IsAnswered i host
  unfolding resolve_host
  resolve_host-IsAnswered i host found h =
      let (name, known, rest) = >>=-eq-ok (normalize_host lower host) _ h in
      elim (Bool-cases (is_fatal ip (r.lookup_a i name).error)) [
        | inl bad ↦ absurd (cc (rw bad at rest))
        | inr a ↦ elim (Bool-cases (is_fatal ip (r.lookup_aaaa i name).error)) [
          | inl bad ↦ absurd (cc (rw (a, bad) at rest))
          | inr aaaa ↦
              elim (Bool-cases
                (is_usable ip n (r.lookup_a i name).addrs (r.lookup_aaaa i name).addrs)) [
                  | inr useless ↦ absurd (cc (rw (a, aaaa, useless) at rest))
                  | inl useful ↦ (name, known, a, aaaa, useful)
                ]
        ]
      ]

  resolve_hosts-AllAnswered :
      (i : ℕ) (hosts : List Text) (found : Resolved ip) {final : Resolved ip}
      → resolve_hosts ip lower r n i hosts found ≡ ok final
      → AllAnswered i hosts
  unfolding resolve_hosts
  resolve_hosts-AllAnswered i [] found h = tt
  resolve_hosts-AllAnswered i (host ∷ hosts) found h =
      let (next, here, rest) = >>=-eq-ok (resolve_host ip lower r n i host found) _ h in
      (resolve_host-IsAnswered i host found here, resolve_hosts-AllAnswered (suc i) hosts next rest)

module _ (ip : Netip) (lower : ℕ → ℕ) (r : Resolver ip) where
  resolve-AllAnswered :
      (cfg : Config) {found : Resolved ip}
      → resolve ip lower r cfg ≡ ok found
      → AllAnswered ip lower r (ensure_defaults cfg).ipv6_prefix_len 0 cfg.hosts
  unfolding resolve
  resolve-AllAnswered cfg h =
      let (x, all, _) =
        >>=-eq-ok
          (resolve_hosts ip lower r (ensure_defaults cfg).ipv6_prefix_len 0 cfg.hosts
            (record { ipv4 = []; ipv6 = [] }))
          _ h in
      resolve_hosts-AllAnswered ip lower r (ensure_defaults cfg).ipv6_prefix_len 0 cfg.hosts _ all

  ensured :
      (cfg : Config)
      → (ensure_defaults (ensure_defaults cfg)).ipv6_prefix_len
        ≡ (ensure_defaults cfg).ipv6_prefix_len
  unfolding ensure_defaults
  ensured cfg = ground arith

  resolve_defaults :
      (cfg : Config) {found : Resolved ip}
      → resolve ip lower r (ensure_defaults cfg) ≡ ok found
      → AllAnswered ip lower r (ensure_defaults (ensure_defaults cfg)).ipv6_prefix_len 0 cfg.hosts
  unfolding ensure_defaults
  resolve_defaults cfg h = resolve-AllAnswered (ensure_defaults cfg) h

  push-eq :
      (runtime : Push ip → Bool) (ttl : ℕ) (o : Result DdnsError (Resolved ip)) {p : Push ip}
      {rest : List (Push ip)}
      → (push ip runtime ttl o).0 ≡ p ∷ rest
      → (o ≡ ok p.sets) × (rest ≡ []) × (p.ttl ≡ ttl) × (is_nothing ip p.sets ≡ false)
  unfolding push
  push-eq runtime ttl (err x) h = absurd (cc)
  push-eq runtime ttl (ok found) {p} {rest} h = elim (Bool-cases (is_nothing ip found)) [
    | inl empty ↦ absurd (cc (rw empty at h))
    | inr full ↦
        let made : Path (List (Push ip)) (record { sets = found; ttl = ttl } ∷ []) (p ∷ rest) =
          rw full at h in
        let same : Path (Push ip) (record { sets = found; ttl = ttl }) p = cc made in
        (
          ap (λ q. ok q.sets) same,
          cc made,
          sym (ap (λ q. q.ttl) same),
          sym (ap (λ q. is_nothing ip q.sets) same) ∙ full,
        )
  ]

  -- `Refresh` replaces the runtime sets only where the whitelist is enabled, every host was answered
  -- with an address of use, and the sets are not both empty; it does so once, with what was
  -- resolved and the lifetime configured or by default.
  pub refresh-AllAnswered :
      (runtime : Push ip → Bool) (cfg : Config) {p : Push ip} {rest : List (Push ip)}
      → (refresh ip lower r runtime cfg).0 ≡ p ∷ rest
      → (cfg.enabled ≡ true)
        × (rest ≡ [])
        × AllAnswered ip lower r (ensure_defaults cfg).ipv6_prefix_len 0 cfg.hosts
        × (p.ttl ≡ (ensure_defaults cfg).ttl)
        × (is_nothing ip p.sets ≡ false)
        × (resolve ip lower r (ensure_defaults cfg) ≡ ok p.sets)
  unfolding refresh
  refresh-AllAnswered runtime cfg h = elim (Bool-cases cfg.enabled) [
    | inr off ↦ absurd (cc (rw off at h))
    | inl on ↦ elim (Bool-cases (is_empty cfg.hosts)) [
      | inl nobody ↦ absurd (cc (rw (on, nobody) at h))
      | inr hosts ↦
          let (found, once, ttl, full) =
            push-eq runtime (ensure_defaults cfg).ttl (resolve ip lower r (ensure_defaults cfg))
              (rw (on, hosts) at h) in
          (
            on,
            once,
            subst (λ n. AllAnswered ip lower r n 0 cfg.hosts) (ensured cfg)
                (resolve_defaults cfg found),
            ttl,
            full,
            found,
          )
    ]
  ]
