-- ===== src/Config/Model.antt =====
-- The configuration of internal/config/config.go, and its validation errors.
use cnftctl.Base.{ℕ, List, Bool, Option, Text}
use cnftctl.Base.Int.{ℤ}

pub record OpenPort : Type 0 where
  pub protocol : Text
  pub port : ℤ
  pub end_port : ℤ
  pub comment : Text

-- Durations are numbers of nanoseconds.
pub record RateLimit : Type 0 where
  pub connections : ℤ
  pub per : ℤ

pub record WhitelistEntry : Type 0 where
  pub value : Text
  pub comment : Text

pub record DdnsWhitelist : Type 0 where
  pub enabled : Bool
  pub hosts : List Text
  pub ttl : ℤ
  pub refresh_interval : ℤ
  pub ipv6_prefix_len : ℤ

pub record Ssh : Type 0 where
  pub mode : Text
  pub rate_limit : Option RateLimit
  pub ipv4 : List WhitelistEntry
  pub ipv6 : List WhitelistEntry
  pub ddns : DdnsWhitelist

pub record TrustedInterfaces : Type 0 where
  pub enabled : Bool
  pub interfaces : List Text
  pub trust_forwarding : Bool

pub record Docker : Type 0 where
  pub enabled : Bool
  pub interfaces : List Text

pub record Config : Type 0 where
  pub version : ℤ
  pub wan_interface : Text
  pub open_ports : List OpenPort
  pub ssh : Ssh
  pub trusted : TrustedInterfaces
  pub docker : Docker

-- `ValidationError`: the field, with the index of an element, and the kind of the message.
pub data ValidationError : Type 0 where
  bad_version bad_wan_interface bad_mode bad_connections bad_per rate_limit_required
        rate_limit_unused :
      ValidationError
  no_coverage ddns_no_hosts bad_ttl bad_refresh_interval bad_prefix_len : ValidationError
  trusted_empty forwarding_untrusted docker_empty : ValidationError
  bad_protocol bad_port bad_end_port end_before_port bad_port_comment : ℕ → ValidationError
  port_duplicate host_duplicate trusted_duplicate docker_duplicate : ℕ → ValidationError
  bad_host bad_trusted bad_docker : ℕ → ValidationError
  bad_ip wrong_family bad_ip_comment ip_duplicate : Bool → ℕ → ValidationError
