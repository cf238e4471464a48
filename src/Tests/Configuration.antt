-- ===== src/Tests/Configuration.antt =====
-- The theorem on configurations, applied to one that is accepted.
use cnftctl.Base
use cnftctl.Base.{
  ℕ, List, [], ◌∷◌, Bool, true, false, none, some, Text, codes, eqb, if◌then◌else◌, ◌≡◌, refl,
}
use cnftctl.Base.Int.{pos}
use cnftctl.Config
use cnftctl.Config.{Netip}
use cnftctl.Config.Accepted.{IsAccepted, validate-IsAccepted}

abbrev pub same_rune : ℕ → ℕ
same_rune c = c

-- Only one text is an address.
abbrev pub texts : Netip
texts = record {
  parse_addr =
      λ s. if eqb s (codes "10.0.0.1") then some (record { is6 = false; canonical = s }) else none;
  parse_prefix = λ s. none;
}

abbrev pub server : Config.Config
server = record {
  version = pos 1;
  wan_interface = codes "eth0";
  open_ports =
      record { protocol = codes "tcp"; port = pos 80; end_port = pos 88; comment = codes "web" }
      ∷ record { protocol = codes "udp"; port = pos 53; end_port = pos 0; comment = [] }
      ∷ [];
  ssh = record {
    mode = codes "whitelist-rate-limit";
    rate_limit = some (record { connections = pos 4; per = pos 60_000_000_000 });
    ipv4 = record { value = codes "10.0.0.1"; comment = [] } ∷ [];
    ipv6 = [];
    ddns = record {
      enabled = true;
      hosts = codes "a.example" ∷ [];
      ttl = pos 1;
      refresh_interval = pos 1;
      ipv6_prefix_len = pos 56;
    };
  };
  trusted = record { enabled = true; interfaces = codes "wg0" ∷ []; trust_forwarding = true };
  docker = record { enabled = true; interfaces = codes "br-*" ∷ [] };
}

pub is_fine : Config.validate same_rune texts server ≡ []
unfolding Config.validate Config.validate_ports Config.validate_port Config.valid_port
    Config.is_zero Config.same_key Config.validate_ssh Config.validate_rate Config.validate_ips
    Config.parse_addr_or_prefix Config.validate_host Config.same_host Config.is_mode
    Config.is_covered Config.is_hostname Config.is_label Config.is_label_char
    Config.validate_trusted Config.validate_interface Config.is_interface_name
    Config.is_interface_char Config.validate_docker Config.validate_pattern Config.is_docker_pattern
    Base.eqb Base.byte_len Base.is_control Base.to_lower Base.lower_rune Base.trim_suffix
    Base.contains Base.has_prefix Base.has_suffix Base.split Base.split_from
is_fine = refl

validate-IsAccepted_example : IsAccepted same_rune texts server
validate-IsAccepted_example = validate-IsAccepted same_rune texts server is_fine
