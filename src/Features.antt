-- ===== src/Features.antt =====
-- internal/features/features.go: the mode of SSH, the trusted interfaces, the Docker integration.
pub mod Hardening
pub mod Trusted
use cnftctl.Base.{
  ℕ, List, [], ◌∷◌, ◌++◌, Bool, true, false, ◌||◌, ◌&&◌, not, Option, none, some, Text, codes, eqb,
  is_empty, length, all, leb, ltb, leq_text, sort, Result, ok, err, if◌then◌else◌, ◌==◌,
}

pub data FeatureError : Type 0 where
  nil_config unsupported_mode no_coverage bad_interface : FeatureError

abbrev pub mode_open : Text
mode_open = codes "open"

abbrev pub mode_whitelist_only : Text
mode_whitelist_only = codes "whitelist-only"

abbrev pub mode_rate_limit : Text
mode_rate_limit = codes "whitelist-rate-limit"

pub record SshConfig : Type 0 where
  pub mode : Text
  pub static_whitelist : List Text
  pub ddns_enabled : Bool
  pub ddns_hosts : List Text
  pub hardening_override : Bool

pub record TrustedInterfaces : Type 0 where
  pub enabled : Bool
  pub interfaces : List Text

pub record Config : Type 0 where
  pub ssh : SshConfig
  pub trusted : TrustedInterfaces
  pub docker_enabled : Bool

pub data Warning : Type 0 where
  ssh_hardened docker_published : Warning
  trusted_full_trust : Text → Warning

pub record Reply : Type 0 where
  pub changed : Bool
  pub warnings : List Warning

-- `^[A-Za-z0-9_.:-]{1,15}$`
unfoldable pub is_interface_char : ℕ → Bool
is_interface_char c =
    (leb b'A' c && leb c b'Z')
    || (leb b'a' c && leb c b'z')
    || (leb b'0' c && leb c b'9')
    || c == b'_'
    || c == b'.'
    || c == b':'
    || c == b'-'

unfoldable pub is_interface : Text → Bool
unfolding is_interface_char
is_interface s = leb 1 (length s) && leb (length s) 15 && all is_interface_char s

-- `hasWhitelistCoverage`
unfoldable pub has_coverage : SshConfig → Bool
has_coverage c =
    not (is_empty c.static_whitelist) || (c.ddns_enabled && not (is_empty c.ddns_hosts))

unfoldable pub is_mode : Text → Bool
is_mode m = eqb m mode_open || eqb m mode_whitelist_only || eqb m mode_rate_limit

abbrev pub same_flag : Bool → Bool → Bool
same_flag true b = b
same_flag false b = not b

-- The result of a change of the mode.
abbrev pub mode_reply : Config → Text → Bool → Reply
mode_reply cfg mode override = record {
  changed = not (eqb cfg.ssh.mode mode) || not (same_flag cfg.ssh.hardening_override override);
  warnings = if eqb mode mode_open then [] else ssh_hardened ∷ [];
}

-- `SetSSHMode`
unfoldable pub set_ssh_mode : Option Config → Text → Bool → Result FeatureError (Config × Reply)
unfolding has_coverage is_mode
set_ssh_mode none mode override = err nil_config
set_ssh_mode (some cfg) mode override =
    if not (is_mode mode)
    then err unsupported_mode
    else if not (eqb mode mode_open) && not override && not (has_coverage cfg.ssh)
    then err no_coverage
    else ok (
      record cfg { ssh = record (cfg.ssh) { mode = mode; hardening_override = override } },
      mode_reply cfg mode override,
    )

unfoldable pub is_listed : Text → List Text → Bool
is_listed name [] = false
is_listed name (x ∷ xs) = eqb x name || is_listed name xs

-- The list without its first entry of this name.
unfoldable pub without : Text → List Text → List Text
without name [] = []
without name (x ∷ xs) = let rest = without name xs in if eqb x name then xs else x ∷ rest

-- `EnableTrustedInterface`
unfoldable pub enable_trusted : Option Config → Text → Result FeatureError (Config × Reply)
enable_trusted none name = err nil_config
enable_trusted (some cfg) name =
    let listed = is_listed name cfg.trusted.interfaces in
    let names =
      if listed
      then cfg.trusted.interfaces
      else sort leq_text (cfg.trusted.interfaces ++ name ∷ []) in
    if not (is_interface name)
    then err bad_interface
    else ok (
      record cfg { trusted = record { enabled = true; interfaces = names } },
      record { changed = not listed; warnings = trusted_full_trust name ∷ [] },
    )

-- `DisableTrustedInterface`
unfoldable pub disable_trusted : Option Config → Text → Result FeatureError (Config × Reply)
disable_trusted none name = err nil_config
disable_trusted (some cfg) name =
    let names = without name cfg.trusted.interfaces in
    if not (is_interface name)
    then err bad_interface
    else if is_listed name cfg.trusted.interfaces
    then ok (
      record cfg { trusted = record { enabled = not (is_empty names); interfaces = names } },
      record { changed = true; warnings = [] },
    )
    else ok (cfg, record { changed = false; warnings = [] })

-- `EnableDocker`
unfoldable pub enable_docker : Option Config → Result FeatureError (Config × Reply)
enable_docker none = err nil_config
enable_docker (some cfg) = ok (
  record cfg { docker_enabled = true },
  record { changed = not cfg.docker_enabled; warnings = docker_published ∷ [] },
)

-- `DisableDocker`
unfoldable pub disable_docker : Option Config → Result FeatureError (Config × Reply)
disable_docker none = err nil_config
disable_docker (some cfg) =
    ok (
      record cfg { docker_enabled = false },
      record { changed = cfg.docker_enabled; warnings = [] },
    )
