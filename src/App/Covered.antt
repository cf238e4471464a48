-- ===== src/App/Covered.antt =====
-- Whom a hardened policy lets in, and when a candidate may be applied from an SSH session.
use cnftctl.Base.{
  List, ◌∷◌, ◌++◌, Bool, true, false, ◌||◌, ◌&&◌, Option, none, some, Text, codes, eqb, eqb_iff,
  is_empty, trim_space, Exists, any-Exists, ok, ◌≡◌, ◌≢◌, ◌⊎◌, refl, inl, inr, Bool-cases,
  Option-cases, if◌then◌else◌,
}
use cnftctl.Base.Int.{ℤ}
use cnftctl.Config
use cnftctl.App.Request.{Request, flag, bool_flag}
use cnftctl.App.Coverage.{
  Network, in_prefix, is_addr, covers, covers_addr, covers_host, server_of, on_prefix, serves,
  is_covered, connection_of, acknowledged, check_client, check_connection,
  check_ssh_session_coverage,
}

or-true : (a b : Bool) → (a || b) ≡ true → (a ≡ true) ⊎ (b ≡ true)
or-true true b h = inl refl
or-true false b h = inr h

and-true : (a b : Bool) → (a && b) ≡ true → (a ≡ true) × (b ≡ true)
and-true true b h = (refl, h)
and-true false b h = absurd (cc)

module _ (net : Network) where
  -- The entry is a prefix that contains the client, or the client's address.
  abbrev pub Covers : net.Addr → Config.WhitelistEntry → Type 0
  Covers client entry =
      ((p : net.Prefix) × (net.parse_prefix entry.value ≡ some p) × (net.contains p client ≡ true))
      ⊎ ((a : net.Addr) × (net.parse_addr entry.value ≡ some a) × (net.same a client ≡ true))

  -- The host has the client's address, or an IPv6 address whose derived prefix contains it.
  abbrev pub CoversAddr : net.Addr → ℤ → net.Addr → Type 0
  CoversAddr client n a =
      (net.same a client ≡ true)
      ⊎ ((net.is6 a ≡ true)
          × (net.is6 client ≡ true)
          × (net.contains (net.masked a n) client ≡ true))

  abbrev pub CoversHost : net.Addr → ℤ → Text → Type 0
  CoversHost client n host =
      Exists (CoversAddr client n) (net.lookup_a host ++ net.lookup_aaaa host)

  -- The interface carries the address of the server.
  abbrev pub Serves : Option net.Addr → Text → Type 0
  Serves server name =
      (s : net.Addr) × (server ≡ some s)
      × Exists
          (λ address.
            (p : net.Prefix) × (net.parse_prefix address ≡ some p)
            × (net.same (net.addr p) s ≡ true))
          (net.interface_addrs name)

  -- The static whitelist, an enabled dynamic host or a trusted interface lets the client in.
  abbrev pub IsCovered : Config.Config → List Text → net.Addr → Type 0
  IsCovered cfg connection client =
      Exists (Covers client) (cfg.ssh.ipv4 ++ cfg.ssh.ipv6)
      ⊎ (((cfg.ssh.ddns.enabled ≡ true)
            × Exists (CoversHost client cfg.ssh.ddns.ipv6_prefix_len) cfg.ssh.ddns.hosts)
          ⊎ ((cfg.trusted.enabled ≡ true)
              × Exists (Serves (server_of net connection)) cfg.trusted.interfaces))

  abbrev pub IsAcknowledged : Request → Type 0
  IsAcknowledged req =
      (bool_flag req (codes "acknowledge-ssh-lockout-risk") ≡ true)
      × (is_empty (trim_space (flag req (codes "reason"))) ≡ false)

  in_prefix-true :
      (client : net.Addr) (o : Option net.Prefix)
      → in_prefix net client o ≡ true
      → (p : net.Prefix) × (o ≡ some p) × (net.contains p client ≡ true)
  in_prefix-true client none h = absurd (cc)
  in_prefix-true client (some p) h = (p, refl, h)

  is_addr-true :
      (client : net.Addr) (o : Option net.Addr)
      → is_addr net client o ≡ true
      → (a : net.Addr) × (o ≡ some a) × (net.same a client ≡ true)
  is_addr-true client none h = absurd (cc)
  is_addr-true client (some a) h = (a, refl, h)

  on_prefix-true :
      (s : net.Addr) (o : Option net.Prefix)
      → on_prefix net s o ≡ true
      → (p : net.Prefix) × (o ≡ some p) × (net.same (net.addr p) s ≡ true)
  on_prefix-true s none h = absurd (cc)
  on_prefix-true s (some p) h = (p, refl, h)

  covers-Covers :
      (client : net.Addr) (entry : Config.WhitelistEntry)
      → covers net client entry ≡ true
      → Covers client entry
  unfolding covers
  covers-Covers client entry h = elim (or-true _ _ h) [
    | inl p ↦ inl (in_prefix-true client (net.parse_prefix entry.value) p)
    | inr a ↦ inr (is_addr-true client (net.parse_addr entry.value) a)
  ]

  covers_addr-CoversAddr :
      (client : net.Addr) (n : ℤ) (a : net.Addr)
      → covers_addr net client n a ≡ true
      → CoversAddr client n a
  unfolding covers_addr
  covers_addr-CoversAddr client n a h = elim (or-true _ _ h) [
    | inl same ↦ inl same
    | inr both ↦
        let (x, y) = and-true (net.is6 a && net.is6 client) _ both in
        let (u, v) = and-true (net.is6 a) (net.is6 client) x in inr (u, v, y)
  ]

  covers_host-CoversHost :
      (client : net.Addr) (n : ℤ) (host : Text)
      → covers_host net client n host ≡ true
      → CoversHost client n host
  unfolding covers_host
  covers_host-CoversHost client n host h =
      any-Exists (CoversAddr client n) (covers_addr net client n) (covers_addr-CoversAddr client n)
        (net.lookup_a host ++ net.lookup_aaaa host) h

  serves-Serves :
      (server : Option net.Addr) (name : Text) → serves net server name ≡ true → Serves server name
  unfolding serves
  serves-Serves none name h = absurd (cc)
  serves-Serves (some s) name h = (
    s,
    refl,
    any-Exists _ _ (λ address. on_prefix-true s (net.parse_prefix address))
        (net.interface_addrs name) h,
  )

  is_covered-IsCovered :
      (cfg : Config.Config) (connection : List Text) (client : net.Addr)
      → is_covered net cfg connection client ≡ true
      → IsCovered cfg connection client
  unfolding is_covered
  is_covered-IsCovered cfg connection client h = elim (or-true _ _ h) [
    | inr t ↦
        let (on, some_name) = and-true cfg.trusted.enabled _ t in
        inr (
          inr (
            on,
            any-Exists _ _ (serves-Serves (server_of net connection)) cfg.trusted.interfaces
                some_name,
          ))
    | inl rest ↦ elim (or-true _ _ rest) [
      | inl s ↦ inl (any-Exists _ _ (covers-Covers client) (cfg.ssh.ipv4 ++ cfg.ssh.ipv6) s)
      | inr d ↦
          let (on, some_host) = and-true cfg.ssh.ddns.enabled _ d in
          inr (
            inl (
              on,
              any-Exists _ _ (covers_host-CoversHost client cfg.ssh.ddns.ipv6_prefix_len)
                  cfg.ssh.ddns.hosts some_host,
            ))
    ]
  ]

  acknowledged-IsAcknowledged : (req : Request) → acknowledged net req ≡ ok tt → IsAcknowledged req
  unfolding acknowledged
  acknowledged-IsAcknowledged req h =
      elim (Bool-cases (bool_flag req (codes "acknowledge-ssh-lockout-risk"))) [
        | inr without ↦ absurd (cc (rw without at h))
        | inl with_flag ↦ elim (Bool-cases (is_empty (trim_space (flag req (codes "reason"))))) [
          | inl blank ↦ absurd (cc (rw (with_flag, blank) at h))
          | inr filled ↦ (with_flag, filled)
        ]
      ]

  -- Where SSH is hardened and the request comes from an SSH session, the check is passed only if
  -- the client's address can be read and the candidate lets it in by its static whitelist, by an
  -- enabled dynamic host or by a trusted interface, or else the risk is acknowledged with a reason.
  pub check_ssh_session_coverage-IsCovered :
      (cfg : Config.Config) (req : Request) (a : Text) (rest : List Text)
      → cfg.ssh.mode ≢ codes "open"
      → connection_of net req ≡ a ∷ rest
      → check_ssh_session_coverage net cfg req ≡ ok tt
      → (client : net.Addr) × (net.parse_addr a ≡ some client)
        × (IsCovered cfg (a ∷ rest) client ⊎ IsAcknowledged req)
  unfolding check_ssh_session_coverage check_connection check_client
  check_ssh_session_coverage-IsCovered cfg req a rest hard from h =
      elim (Bool-cases (eqb cfg.ssh.mode (codes "open"))) [
        | inl same ↦ absurd (hard ((eqb_iff cfg.ssh.mode (codes "open")).0 same))
        | inr other ↦ elim (Option-cases (net.parse_addr a)) [
          | inl bad ↦ absurd (cc (rw (other, from, bad) at h))
          | inr (client, read) ↦ (client, read, let_in client (rw (other, from, read) at h))
        ]
      ]
    where
      let_in :
          (client : net.Addr)
          → (if is_covered net cfg (a ∷ rest) client then ok tt else acknowledged net req) ≡ ok tt
          → IsCovered cfg (a ∷ rest) client ⊎ IsAcknowledged req
      let_in client q = elim (Bool-cases (is_covered net cfg (a ∷ rest) client)) [
        | inl c ↦ inl (is_covered-IsCovered cfg (a ∷ rest) client c)
        | inr u ↦ inr (acknowledged-IsAcknowledged req (rw u at q))
      ]
