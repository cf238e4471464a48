-- ===== src/Tests/Settings.antt =====
-- The theorems on settings, applied to small configurations.
use cnftctl.Base
use cnftctl.Base.{
  ℕ, List, [], ◌∷◌, Bool, true, false, Option, none, some, Text, codes, eqb, leb, ltb, ◌==◌, Result,
  ok, err, ◌≡◌, ◌↔◌, refl, not, ◌≤◌, arith, is_empty, Bool-cases, inl, inr,
}
use cnftctl.Ports
use cnftctl.Ports.Valid.{IsPort, parse_entry-IsPort}
use cnftctl.Ports.Formatted.{parse_entry-format_port}
use cnftctl.Ports.Same.{IsListed}
use cnftctl.Ports.Listed.{IsDistinct, open_port-find_same, close_port-find_same, close_port_strict}
use cnftctl.Features
use cnftctl.Features.Hardening.{IsReachable, set_ssh_mode-IsReachable}
use cnftctl.Features.Trusted.{
  count, IsAdded, IsRemoved, enable_trusted-IsAdded, disable_trusted-IsRemoved,
}
use cnftctl.Features.Trusted
use cnftctl.Ddns
use cnftctl.Ddns.{Netip, Resolver}
use cnftctl.Ddns.Refreshed.{AllAnswered, refresh-AllAnswered}

abbrev same_rune : ℕ → ℕ
same_rune c = c

abbrev web : Ports.Entry
web = record { protocol = codes "tcp"; start = 80; last = 88; comment = [] }

abbrev dns : Ports.Entry
dns = record { protocol = codes "udp"; start = 53; last = 53; comment = [] }

abbrev only_dns : Ports.Config
only_dns = record { open_ports = dns ∷ []; docker_enabled = false }

abbrev both : Ports.Config
both = record { open_ports = web ∷ dns ∷ []; docker_enabled = false }

parsed : Ports.parse_entry same_rune (codes " TCP") (codes "80-88") [] ≡ ok web
unfolding Ports.parse_entry Ports.parse_port_spec Ports.parse_parts Ports.parse_port Ports.port_of
    Base.trim_space Base.trim_left Base.is_space Base.to_lower Base.lower_rune Base.eqb Base.split
    Base.split_from Base.atoi Base.digits Base.digits_from Base.in_range
parsed = refl

parse_entry-IsPort_example : IsPort web
parse_entry-IsPort_example = parse_entry-IsPort same_rune (codes " TCP") (codes "80-88") [] parsed

web-IsPort : IsPort web
web-IsPort = record {
  protocol = inl refl;
  low = omega arith;
  ordered = omega arith;
  high = omega arith;
  comment = refl;
}

trim_space_nil : Base.trim_space [] ≡ []
unfolding Base.trim_space Base.trim_left
trim_space_nil = refl

parse_entry-format_port_example :
    Ports.parse_entry same_rune (codes "tcp") (Ports.format_port web) [] ≡ ok web
parse_entry-format_port_example = parse_entry-format_port same_rune web web-IsPort trim_space_nil

opened :
    Ports.open_port same_rune (some only_dns) (codes " TCP") (codes "80-88") []
    ≡ ok (
      record { open_ports = dns ∷ web ∷ []; docker_enabled = false },
      Ports.reply same_rune true web
          (record { open_ports = dns ∷ web ∷ []; docker_enabled = false }),
    )
unfolding Ports.open_port Ports.open_entry Ports.find_same Ports.same_port Base.eqb
opened = rw parsed refl

abbrev with_web : Ports.Config
with_web = record { open_ports = dns ∷ web ∷ []; docker_enabled = false }

open_port-find_same_example :
    IsDistinct (dns ∷ web ∷ [])
    × (Ports.find_same web (dns ∷ web ∷ []) ≡ some web)
    × ((f : Ports.Entry)
        → Ports.same_port web f ≡ false
        → Ports.find_same f (dns ∷ web ∷ []) ≡ Ports.find_same f (dns ∷ []))
unfolding Ports.find_same
open_port-find_same_example =
    open_port-find_same same_rune only_dns (codes " TCP") (codes "80-88") [] parsed opened
      (refl, tt)

two_ports : IsDistinct (web ∷ dns ∷ [])
unfolding Ports.find_same Ports.same_port Base.eqb
two_ports = (refl, (refl, tt))

closed :
    Ports.close_port same_rune (some both) (codes " TCP") (codes "80-88") true
    ≡ ok (only_dns, Ports.reply same_rune true web only_dns)
unfolding Ports.close_port Ports.close_entry Ports.take_out Ports.same_port Base.eqb
closed = rw parsed refl

close_port-find_same_example :
    IsDistinct (dns ∷ [])
    × (Ports.find_same web (dns ∷ []) ≡ none)
    × ((f : Ports.Entry)
        → Ports.same_port web f ≡ false
        → Ports.find_same f (dns ∷ []) ≡ Ports.find_same f (web ∷ dns ∷ []))
close_port-find_same_example =
    close_port-find_same same_rune both (codes " TCP") (codes "80-88") true parsed closed two_ports

close_port_strict_example :
    (Ports.close_port same_rune (some only_dns) (codes " TCP") (codes "80-88") true
      ≡ err Ports.PortError.not_open)
    ↔ ((true ≡ true) × (¬ IsListed web (dns ∷ [])))
close_port_strict_example =
    close_port_strict same_rune only_dns (codes " TCP") (codes "80-88") true parsed

abbrev ssh : Features.SshConfig
ssh = record {
  mode = Features.mode_open;
  static_whitelist = [];
  ddns_enabled = true;
  ddns_hosts = codes "home.example.org" ∷ [];
  hardening_override = false;
}

abbrev features : List Text → Features.Config
features names = record {
  ssh = ssh;
  trusted = record { enabled = true; interfaces = names };
  docker_enabled = false;
}

set_ssh_mode-IsReachable_example :
    ((r : Features.Reply) × (Features.set_ssh_mode
          (some (features []))
          Features.mode_whitelist_only
          false
        ≡ ok (
          record (features []) {
            ssh = record ssh { mode = Features.mode_whitelist_only; hardening_override = false };
          },
          r,
        )))
    ↔ IsReachable (record ssh { mode = Features.mode_whitelist_only; hardening_override = false })
set_ssh_mode-IsReachable_example =
    set_ssh_mode-IsReachable (features []) Features.mode_whitelist_only false

abbrev wg : Text
wg = codes "wg0"

abbrev tail : Text
tail = codes "ts0"

one_name : Trusted.IsDistinct (wg ∷ [])
one_name f = elim (Bool-cases (eqb wg f)) [
  | inl h ↦ rw h (omega arith)
  | inr h ↦ rw h (omega arith)
]

enabled :
    Features.enable_trusted (some (features (wg ∷ []))) tail
    ≡ ok (
      features (tail ∷ wg ∷ []),
      record { changed = true; warnings = Features.Warning.trusted_full_trust tail ∷ [] },
    )
unfolding Features.enable_trusted Features.is_listed Features.is_interface
    Features.is_interface_char Base.eqb Base.sort Base.insert_sorted Base.leq_text
enabled = refl

enable_trusted-IsAdded_example : IsAdded tail (wg ∷ []) (tail ∷ wg ∷ []) × (true ≡ true)
enable_trusted-IsAdded_example = enable_trusted-IsAdded (features (wg ∷ [])) tail enabled one_name

disabled :
    Features.disable_trusted (some (features (wg ∷ []))) wg
    ≡ ok (
      record (features []) { trusted = record { enabled = false; interfaces = [] } },
      record { changed = true; warnings = [] },
    )
unfolding Features.disable_trusted Features.is_listed Features.without Features.is_interface
    Features.is_interface_char Base.eqb
disabled = refl

disable_trusted-IsRemoved_example :
    IsRemoved wg (wg ∷ []) [] × (false ≡ true → is_empty {A = Text} [] ≡ false)
disable_trusted-IsRemoved_example =
    disable_trusted-IsRemoved (features (wg ∷ [])) wg disabled one_name (λ _. refl)

-- Addresses as numbers: those below 100 are IPv4.
abbrev numbers : Netip
numbers = record {
  Addr = ℕ;
  Prefix = ℕ;
  is4 = λ a. ltb a 100;
  is6 = λ a. leb 100 a;
  unmap = λ a. a;
  masked = λ a n. a;
  same_addr = λ a b. a == b;
  same_prefix = λ a b. a == b;
  leq_addr = leb;
  leq_prefix = leb;
}

abbrev resolver : Resolver numbers
resolver = record {
  lookup_a = λ i h. record { addrs = 7 ∷ []; error = none };
  lookup_aaaa = λ i h. record { addrs = 107 ∷ []; error = none };
}

abbrev home : Ddns.Config
home = record { enabled = true; hosts = codes "ab.example" ∷ []; ipv6_prefix_len = 0; ttl = 0 }

refreshed :
    (Ddns.refresh numbers same_rune resolver (λ p. true) home).0
    ≡ record { sets = record { ipv4 = 7 ∷ []; ipv6 = 107 ∷ [] }; ttl = 3_600_000_000_000 } ∷ []
unfolding Ddns.refresh Ddns.push Ddns.resolve Ddns.resolve_hosts Ddns.resolve_host Ddns.add_ipv4
    Ddns.add_ipv6 Ddns.is_usable Ddns.derive_ipv6_prefix Ddns.ensure_defaults Ddns.normalize_host
    Ddns.is_label Ddns.is_host_char Base.trim_space Base.trim_left Base.is_space Base.trim_suffix
    Base.to_lower Base.lower_rune Base.contains_any Base.split Base.split_from Base.byte_len
    Base.has_prefix Base.has_suffix Base.sort Base.insert_sorted
refreshed = refl

refresh-AllAnswered_example :
    (true ≡ true)
    × (Path (List (Ddns.Push numbers)) [] [])
    × AllAnswered numbers same_rune resolver
        (Ddns.ensure_defaults home).ipv6_prefix_len
        0
        home.hosts
    × (3_600_000_000_000 ≡ (Ddns.ensure_defaults home).ttl)
    × (false ≡ false)
    × (Ddns.resolve numbers same_rune resolver (Ddns.ensure_defaults home)
        ≡ ok (record { ipv4 = 7 ∷ []; ipv6 = 107 ∷ [] }))
refresh-AllAnswered_example =
    refresh-AllAnswered numbers same_rune resolver (λ p. true) home refreshed
