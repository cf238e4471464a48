-- ===== src/Config/File.antt =====
-- internal/config/config.go: the canonical form of a configuration, and the file that holds it.
-- `gopkg.in/yaml.v3` at configurations is the parameter `Yaml`.
use cnftctl.Base.{
  ℕ, [], ◌∷◌, Bool, false, Option, none, some, Text, codes, is_empty, map, to_lower, trim_space,
  trim_suffix, dir, Result, ok, err, if◌then◌else◌,
}
use cnftctl.Base.Int.{pos}
use cnftctl.Host.{
  Env, M, Error, ◌>>=◌, ◌>>◌, decode_failed, message, give, deferring, perform, ask_text, open_file,
  read_all, close, mkdir_all, create_temp, rename, remove,
}
use cnftctl.Durable.{fill_temp, sync_dir}
use cnftctl.Config.{
  OpenPort, WhitelistEntry, Ssh, Config, ParsedIp, Netip, parse_addr_or_prefix, validate,
}

-- `decode` reads a document over a configuration, and refuses unknown fields.
pub record Yaml : Type 0 where
  pub encode : Config → Option Text
  pub decode : Config → Text → Option Config

-- `Default`
abbrev pub default : Config
default = record {
  version = pos 1;
  wan_interface = [];
  open_ports = [];
  ssh = record {
    mode = codes "open";
    rate_limit = none;
    ipv4 = [];
    ipv6 = [];
    ddns = record {
      enabled = false;
      hosts = [];
      ttl = pos 3_600_000_000_000;
      refresh_interval = pos 300_000_000_000;
      ipv6_prefix_len = pos 56;
    };
  };
  trusted = record { enabled = false; interfaces = []; trust_forwarding = false };
  docker = record { enabled = false; interfaces = codes "docker0" ∷ codes "br-*" ∷ [] };
}

abbrev pub canonical_or : Text → Option ParsedIp → Text
canonical_or value none = value
canonical_or value (some p) = p.canonical

-- `canonicalIP`
unfoldable pub canonical_ip : Netip → Text → Text
canonical_ip ip value = canonical_or value (parse_addr_or_prefix ip value)

unfoldable pub canonical_entry : Netip → WhitelistEntry → WhitelistEntry
unfolding canonical_ip
canonical_entry ip entry = record {
  value = canonical_ip ip entry.value;
  comment = trim_space entry.comment;
}

unfoldable pub canonical_port : (ℕ → ℕ) → OpenPort → OpenPort
canonical_port lower p = record p {
  protocol = to_lower lower p.protocol;
  comment = trim_space p.comment;
}

unfoldable pub canonical_host : (ℕ → ℕ) → Text → Text
canonical_host lower host = to_lower lower (trim_suffix b'.' host)

abbrev pub canonical_ssh : (ℕ → ℕ) → Netip → Ssh → Ssh
canonical_ssh lower ip s = record s {
  ipv4 = map (canonical_entry ip) s.ipv4;
  ipv6 = map (canonical_entry ip) s.ipv6;
  ddns = record (s.ddns) { hosts = map (canonical_host lower) s.ddns.hosts };
}

-- `canonicalize`
unfoldable pub canonicalize : (ℕ → ℕ) → Netip → Config → Config
unfolding canonical_port canonical_entry canonical_host
canonicalize lower ip c = record c {
  open_ports = map (canonical_port lower) c.open_ports;
  ssh = canonical_ssh lower ip c.ssh;
}

module _ (e : Env) (ip : Netip) (y : Yaml) where
  abbrev pub is_accepted : Config → Bool
  is_accepted c = is_empty (validate e.lower ip c)

  abbrev pub accepted : Config → Result Error Config
  accepted c = if is_accepted c then ok c else err (message "configuration is not valid")

  abbrev pub encoded : Option Text → Result Error Text
  encoded none = err decode_failed
  encoded (some text) = ok text

  -- `Save`: the text that is written to its writer.
  unfoldable pub save : Config → Result Error Text
  unfolding canonicalize
  save cfg =
      let c = canonicalize e.lower ip cfg in
      if is_accepted c then encoded (y.encode c) else err (message "configuration is not valid")

  abbrev pub loaded : Option Config → Result Error Config
  loaded none = err decode_failed
  loaded (some c) = accepted (canonicalize e.lower ip c)

  -- `Load`
  unfoldable pub load : Text → Result Error Config
  unfolding canonicalize
  load text = loaded (y.decode default text)

  -- `LoadFile`
  unfoldable pub load_file : Text → M Config
  unfolding load
  load_file path = do
    perform e (open_file path)
    deferring (do text ← ask_text e (read_all path); give (load text)) (perform e (close path))

  unfoldable pub put_text : Text → ℕ → Text → M (Unit {0})
  put_text path mode text = do
    perform e (mkdir_all (dir path) 0o755)
    tmp ← ask_text e (create_temp (dir path) (codes ".config-*"))
    deferring (do fill_temp e tmp text mode; perform e (rename tmp path); sync_dir e (dir path))
        (perform e (remove tmp))

  -- `SaveFile`
  unfoldable pub save_file : Text → Config → ℕ → M (Unit {0})
  unfolding save put_text
  save_file path cfg mode = do text ← give (save cfg); put_text path mode text
