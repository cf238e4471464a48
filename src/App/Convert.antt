-- ===== src/App/Convert.antt =====
-- internal/app/service_impl.go: the configuration in the form of each component, and back.
use cnftctl.Base.{
  ℕ, ◌-◌, ◌%◌, List, [], ◌∷◌, ◌++◌, Bool, true, false, Text, map, Result, ok, err, if◌then◌else◌,
  ◌==◌,
}
use cnftctl.Base.Int.{ℤ, pos, negsuc, to_ℕ, eqb_ℤ}
use cnftctl.Config
use cnftctl.Ports
use cnftctl.Whitelist
use cnftctl.Ddns
use cnftctl.Features

-- `uint16(n)`
unfoldable pub uint16 : ℤ → ℕ
uint16 (pos n) = n % 65536
uint16 (negsuc n) = 65535 - n % 65536

unfoldable pub port_entry : Config.OpenPort → Ports.Entry
unfolding uint16
port_entry p = record {
  protocol = p.protocol;
  start = uint16 p.port;
  last = uint16 (if eqb_ℤ p.end_port (pos 0) then p.port else p.end_port);
  comment = p.comment;
}

-- `portEntries`
abbrev pub port_entries : List Config.OpenPort → List Ports.Entry
port_entries ps = map port_entry ps

-- `portsConfig`
unfoldable pub ports_config : Config.Config → Ports.Config
unfolding port_entry
ports_config cfg = record {
  open_ports = port_entries cfg.open_ports;
  docker_enabled = cfg.docker.enabled;
}

unfoldable pub open_port_of : Ports.Entry → Config.OpenPort
open_port_of p = record {
  protocol = p.protocol;
  port = pos p.start;
  end_port = if p.last == p.start then pos 0 else pos p.last;
  comment = p.comment;
}

-- `setPortsConfig`
unfoldable pub set_ports_config : Config.Config → Ports.Config → Config.Config
unfolding open_port_of
set_ports_config cfg pc = record cfg { open_ports = map open_port_of (Ports.list pc) }

-- `whitelistValues`
abbrev pub whitelist_values : List Config.WhitelistEntry → List Text
whitelist_values entries = map (λ entry. entry.value) entries

-- `featuresConfig`; the override of the hardening is no part of a configuration.
unfoldable pub features_config : Config.Config → Features.Config
features_config cfg = record {
  ssh = record {
    mode = cfg.ssh.mode;
    static_whitelist = whitelist_values cfg.ssh.ipv4 ++ whitelist_values cfg.ssh.ipv6;
    ddns_enabled = cfg.ssh.ddns.enabled;
    ddns_hosts = cfg.ssh.ddns.hosts;
    hardening_override = false;
  };
  trusted = record { enabled = cfg.trusted.enabled; interfaces = cfg.trusted.interfaces };
  docker_enabled = cfg.docker.enabled;
}

-- `ddnsConfig`: in a valid configuration neither number is negative.
unfoldable pub ddns_config : Config.Config → Ddns.Config
ddns_config cfg = record {
  enabled = cfg.ssh.ddns.enabled;
  hosts = cfg.ssh.ddns.hosts;
  ipv6_prefix_len = to_ℕ cfg.ssh.ddns.ipv6_prefix_len;
  ttl = to_ℕ cfg.ssh.ddns.ttl;
}

-- `setDDNSConfig`
unfoldable pub set_ddns_config : Config.Config → Ddns.Config → Config.Config
set_ddns_config cfg dc = record cfg {
  ssh = record (cfg.ssh) {
    ddns = record (cfg.ssh.ddns) {
      enabled = dc.enabled;
      hosts = dc.hosts;
      ipv6_prefix_len = pos dc.ipv6_prefix_len;
      ttl = pos dc.ttl;
    };
  };
}

-- `net/netip`: the texts of addresses and prefixes.
pub record Texts (ip : Whitelist.Netip) : Type 0 where
  pub addr_text : ip.Addr → Text
  pub prefix_text : ip.Prefix → Text
  pub bit_len : ip.Addr → ℕ

module _ (ip : Whitelist.Netip) (texts : Texts ip) where
  -- `prefixText`
  unfoldable pub prefix_text : ip.Prefix → Text
  prefix_text p =
      if ip.bits p == texts.bit_len (ip.addr p)
      then texts.addr_text (ip.addr p)
      else texts.prefix_text p

  abbrev pub with_entry :
      Result Whitelist.WhitelistError (Whitelist.Entry ip)
      → List (Whitelist.Entry ip)
      → List (Whitelist.Entry ip)
  with_entry (ok entry) entries = entry ∷ entries
  with_entry (err x) entries = entries

  unfoldable pub parsed_entries : List Config.WhitelistEntry → List (Whitelist.Entry ip)
  parsed_entries [] = []
  parsed_entries (v ∷ vs) =
      with_entry (Whitelist.parse_entry ip v.value v.comment) (parsed_entries vs)

  -- `whitelistEntries`
  unfoldable pub whitelist_entries : Config.Config → List (Whitelist.Entry ip)
  unfolding parsed_entries
  whitelist_entries cfg = parsed_entries (cfg.ssh.ipv4 ++ cfg.ssh.ipv6)

  abbrev pub entry_of : Whitelist.Entry ip → Config.WhitelistEntry
  entry_of entry = record { value = prefix_text entry.prefix; comment = entry.comment }

  -- The entries of one family, in their order.
  unfoldable pub family_of : Bool → List (Whitelist.Entry ip) → List Config.WhitelistEntry
  unfolding prefix_text
  family_of want4 [] = []
  family_of want4 (x ∷ xs) =
      let rest = family_of want4 xs in
      if ip.is4 (ip.addr x.prefix)
      then (if want4 then entry_of x ∷ rest else rest)
      else (if want4 then rest else entry_of x ∷ rest)

  -- `setWhitelistConfig`
  unfoldable pub set_whitelist_config : Config.Config → List (Whitelist.Entry ip) → Config.Config
  unfolding family_of
  set_whitelist_config cfg entries = record cfg {
    ssh = record (cfg.ssh) {
      ipv4 = family_of true (Whitelist.list ip entries);
      ipv6 = family_of false (Whitelist.list ip entries);
    };
  }
