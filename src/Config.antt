-- ===== src/Config.antt =====
-- internal/config/config.go: the configuration, and what `Validate` finds wrong with it.
mod Model
pub mod Accepted
pub mod File
pub mod Saved
pub use Model.*
use cnftctl.Base.{
  ℕ, suc, ◌+◌, List, [], ◌∷◌, ◌++◌, Bool, true, false, ◌||◌, ◌&&◌, not, Option, none, some, Text,
  codes, eqb, is_empty, length, all, any, byte_len, contains, split, trim_suffix, has_prefix,
  has_suffix, is_control, to_lower, leb, ltb, if◌then◌else◌, ◌==◌,
}
use cnftctl.Base.Int.{ℤ, pos, negsuc, eqb_ℤ, ltb_ℤ}

-- `net/netip`: `Is6` and `String` of an address, or of the masked prefix.
pub record ParsedIp : Type 0 where
  pub is6 : Bool
  pub canonical : Text

pub record Netip : Type 0 where
  pub parse_addr : Text → Option ParsedIp
  pub parse_prefix : Text → Option ParsedIp

abbrev pub is_parsed : Option ParsedIp → Bool
is_parsed none = false
is_parsed (some p) = true

-- `parseAddrOrPrefix`
unfoldable pub parse_addr_or_prefix : Netip → Text → Option ParsedIp
parse_addr_or_prefix ip s = if contains s (codes "/") then ip.parse_prefix s else ip.parse_addr s

-- `if bad { errs.add(…) }`
abbrev pub report : Bool → ValidationError → List ValidationError
report true x = x ∷ []
report false x = []

-- `validPort`
unfoldable pub valid_port : ℤ → Bool
valid_port p = ltb_ℤ (pos 0) p && ltb_ℤ p (pos 65536)

unfoldable pub is_zero : ℤ → Bool
is_zero n = eqb_ℤ n (pos 0)

-- The checks of one open port.
unfoldable pub validate_port : ℕ → OpenPort → List ValidationError
unfolding valid_port is_zero
validate_port i p =
    report (not (eqb p.protocol (codes "tcp")) && not (eqb p.protocol (codes "udp")))
      (bad_protocol i)
    ++ (report (not (valid_port p.port)) (bad_port i)
        ++ (report (not (is_zero p.end_port) && not (valid_port p.end_port)) (bad_end_port i)
            ++ (report
                  (not (is_zero p.end_port)
                    && valid_port p.end_port
                    && not (is_zero p.port)
                    && ltb_ℤ p.end_port p.port)
                  (end_before_port i)
                ++ report (any is_control p.comment) (bad_port_comment i))))

-- The elements of a list with their indices.
abbrev pub each {ℓ} :
    {A : Type ℓ} → (ℕ → A → List ValidationError) → ℕ → List A → List ValidationError
each f i [] = []
each f i (x ∷ xs) = f i x ++ each f (suc i) xs

-- Every element that equals an earlier one.
abbrev pub duplicates {ℓ} :
    {A : Type ℓ}
    → (A → A → Bool)
    → (ℕ → ValidationError)
    → ℕ
    → List A
    → List A
    → List ValidationError
duplicates same x i seen [] = []
duplicates same x i seen (a ∷ rest) =
    report (any (same a) seen) (x i) ++ duplicates same x (suc i) (a ∷ seen) rest

abbrev pub end_of : OpenPort → ℤ
end_of p = if is_zero p.end_port then p.port else p.end_port

module _ (lower : ℕ → ℕ) (ip : Netip) where
  -- The keys of `validateOpenPortDuplicates` are equal.
  unfoldable pub same_key : OpenPort → OpenPort → Bool
  same_key p q =
      eqb (to_lower lower p.protocol) (to_lower lower q.protocol)
      && eqb_ℤ p.port q.port
      && eqb_ℤ (end_of p) (end_of q)

  unfoldable pub validate_ports : List OpenPort → List ValidationError
  unfolding validate_port same_key
  validate_ports ports = each validate_port 0 ports ++ duplicates same_key port_duplicate 0 [] ports

  -- `^[A-Za-z0-9_.:-]+$` and at most 15 bytes
  unfoldable pub is_interface_char : ℕ → Bool
  is_interface_char c =
      (leb b'A' c && leb c b'Z')
      || (leb b'a' c && leb c b'z')
      || (leb b'0' c && leb c b'9')
      || c == b'_'
      || c == b'.'
      || c == b':'
      || c == b'-'

  -- `isInterfaceName`
  unfoldable pub is_interface_name : Text → Bool
  unfolding is_interface_char
  is_interface_name s = not (is_empty s) && leb (byte_len s) 15 && all is_interface_char s

  unfoldable pub validate_interface : ℕ → Text → List ValidationError
  validate_interface i s = report (not (is_interface_name s)) (bad_trusted i)

  -- `validateTrusted`
  unfoldable pub validate_trusted : TrustedInterfaces → List ValidationError
  unfolding validate_interface
  validate_trusted t =
      each validate_interface 0 t.interfaces
      ++ (duplicates eqb trusted_duplicate 0 [] t.interfaces
          ++ (report (t.enabled && is_empty t.interfaces) trusted_empty
              ++ report (t.trust_forwarding && not t.enabled) forwarding_untrusted))

  -- The name before a trailing `*`.
  abbrev pub bare_name : Text → Text
  bare_name s = trim_suffix b'*' s

  -- `isDockerInterfacePattern`
  unfoldable pub is_docker_pattern : Text → Bool
  unfolding is_interface_char
  is_docker_pattern s =
      not (is_empty s)
      && leb (byte_len s) 15
      && not (is_empty (bare_name s))
      && all is_interface_char (bare_name s)

  unfoldable pub validate_pattern : ℕ → Text → List ValidationError
  validate_pattern i s = report (not (is_docker_pattern s)) (bad_docker i)

  -- `validateDocker`
  unfoldable pub validate_docker : Docker → List ValidationError
  unfolding validate_pattern
  validate_docker d =
      each validate_pattern 0 d.interfaces
      ++ (duplicates eqb docker_duplicate 0 [] d.interfaces
          ++ report (d.enabled && is_empty d.interfaces) docker_empty)

  unfoldable pub is_label_char : ℕ → Bool
  is_label_char c =
      (leb b'a' c && leb c b'z')
      || (leb b'A' c && leb c b'Z')
      || (leb b'0' c && leb c b'9')
      || c == b'-'

  unfoldable pub is_label : Text → Bool
  unfolding is_label_char
  is_label l =
      not (is_empty l)
      && leb (byte_len l) 63
      && all is_label_char l
      && not (has_prefix l (codes "-"))
      && not (has_suffix l (codes "-"))

  -- `isHostname`
  unfoldable pub is_hostname : Text → Bool
  unfolding is_label
  is_hostname host =
      let h = trim_suffix b'.' host in
      not (is_empty h)
      && leb (byte_len h) 253
      && not (contains h (codes ".."))
      && not (is_parsed (ip.parse_addr h))
      && all is_label (split b'.' h)

  unfoldable pub validate_host : ℕ → Text → List ValidationError
  validate_host i h = report (not (is_hostname h)) (bad_host i)

  unfoldable pub same_host : Text → Text → Bool
  same_host a b = eqb (to_lower lower a) (to_lower lower b)

  -- `validateIPList`: an entry that does not parse is not looked at further.
  unfoldable pub validate_ips : Bool → ℕ → List Text → List WhitelistEntry → List ValidationError
  unfolding parse_addr_or_prefix
  validate_ips want6 i seen [] = []
  validate_ips want6 i seen (entry ∷ rest) =
      let skipped = validate_ips want6 (suc i) seen rest in
      elim (parse_addr_or_prefix ip entry.value) [
        | none ↦ bad_ip want6 i ∷ skipped
        | some p ↦
            report (not (if want6 then p.is6 else not p.is6)) (wrong_family want6 i)
            ++ (report (any is_control entry.comment) (bad_ip_comment want6 i)
                ++ (report (any (eqb p.canonical) seen) (ip_duplicate want6 i)
                    ++ validate_ips want6 (suc i) (p.canonical ∷ seen) rest))
      ]

  unfoldable pub validate_rate : Text → Option RateLimit → List ValidationError
  validate_rate mode none = report (eqb mode (codes "whitelist-rate-limit")) rate_limit_required
  validate_rate mode (some r) =
      report (not (ltb_ℤ (pos 0) r.connections)) bad_connections
      ++ (report
            (not (eqb_ℤ r.per (pos 1_000_000_000))
              && not (eqb_ℤ r.per (pos 60_000_000_000))
              && not (eqb_ℤ r.per (pos 3_600_000_000_000)))
            bad_per
          ++ report (not (eqb mode (codes "whitelist-rate-limit"))) rate_limit_unused)

  unfoldable pub is_mode : Text → Bool
  is_mode m =
      eqb m (codes "open") || eqb m (codes "whitelist-only") || eqb m (codes "whitelist-rate-limit")

  unfoldable pub is_covered : Ssh → Bool
  is_covered s =
      not (is_empty s.ipv4)
      || not (is_empty s.ipv6)
      || (s.ddns.enabled && not (is_empty s.ddns.hosts))

  -- `validateSSH`
  unfoldable pub validate_ssh : Ssh → List ValidationError
  unfolding validate_rate validate_ips validate_host same_host is_mode is_covered
  validate_ssh s =
      report (not (is_mode s.mode)) bad_mode
      ++ (validate_rate s.mode s.rate_limit
          ++ (report (not (eqb s.mode (codes "open")) && not (is_covered s)) no_coverage
              ++ (validate_ips false 0 [] s.ipv4
                  ++ (validate_ips true 0 [] s.ipv6
                      ++ (each validate_host 0 s.ddns.hosts
                          ++ (duplicates same_host host_duplicate 0 [] s.ddns.hosts
                              ++ (report (s.ddns.enabled && is_empty s.ddns.hosts) ddns_no_hosts
                                  ++ (report (not (ltb_ℤ (pos 0) s.ddns.ttl)) bad_ttl
                                      ++ (report (not (ltb_ℤ (pos 0) s.ddns.refresh_interval))
                                            bad_refresh_interval
                                          ++ report
                                              (not (eqb_ℤ s.ddns.ipv6_prefix_len (pos 56))
                                                && not (eqb_ℤ s.ddns.ipv6_prefix_len (pos 64)))
                                              bad_prefix_len)))))))))

  -- `Validate`
  unfoldable pub validate : Config → List ValidationError
  unfolding validate_ports validate_ssh validate_trusted validate_docker
  validate c =
      report (not (eqb_ℤ c.version (pos 1))) bad_version
      ++ (report (not (is_empty c.wan_interface) && not (is_interface_name c.wan_interface))
            bad_wan_interface
          ++ (validate_ports c.open_ports
              ++ (validate_ssh c.ssh ++ (validate_trusted c.trusted ++ validate_docker c.docker))))
