-- ===== src/Apply/Model.antt =====
-- The data of internal/apply: files, manifests, transactions, the ownership record, the options.
use cnftctl.Base.{ℕ, List, Bool, Option, Text, codes}
use cnftctl.Base.Int.{ℤ}

abbrev pub state_root : Text
state_root = codes "/var/lib/cnftctl"

abbrev pub generation_root : Text
generation_root = codes "/var/lib/cnftctl/generations"

abbrev pub transaction_root : Text
transaction_root = codes "/var/lib/cnftctl/transactions"

abbrev pub active_selector : Text
active_selector = codes "/var/lib/cnftctl/active"

abbrev pub ownership_path : Text
ownership_path = codes "/var/lib/cnftctl/ownership.json"

abbrev pub run_root : Text
run_root = codes "/run/cnftctl"

abbrev pub ownership_marker : Text
ownership_marker = codes "cnftctl-owned:inet-hostfw:v1"

abbrev pub generation_placeholder : Text
generation_placeholder = codes "/var/lib/cnftctl/generations/{generation}"

-- 120 s in nanoseconds.
abbrev pub default_rollback_timeout : ℕ
default_rollback_timeout = 120_000_000_000

pub data Phase : Type 0 where
  prepared armed activating activated confirmed rolled_back : Phase

pub record File : Type 0 where
  pub path : Text
  pub mode : ℕ
  pub content : Text

pub record ManifestEntry : Type 0 where
  pub path : Text
  pub mode : ℕ
  pub sha256 : Text
  pub size : ℕ

pub record Manifest : Type 0 where
  pub version : ℕ
  pub files : List ManifestEntry
  pub ddns_desired : Bool

pub record SshOverrideAudit : Type 0 where
  pub acknowledged : Bool
  pub reason : Text
  pub source : Text
  pub context : Text

pub record Transaction : Type 0 where
  pub id : Text
  pub phase : Phase
  pub started_at : ℕ
  pub rollback_deadline : ℕ
  pub generation : Text
  pub previous_generation : Text
  pub fresh_install : Bool
  pub firewall_was_enabled : Bool
  pub confirmed : Bool
  pub rolled_back : Bool
  pub ssh_override : Option SshOverrideAudit

-- `ownership`
pub record Ownership : Type 0 where
  pub marker : Text
  pub generation : Text

-- `action` is "create" or "update".
pub data Action : Type 0 where
  create update : Action

pub record Change : Type 0 where
  pub path : Text
  pub action : Action
  pub before : Text
  pub after : Text

pub record Plan : Type 0 where
  pub changes : List Change
  pub would_load_nftables : Bool
  pub generation : Text

pub record Options : Type 0 where
  pub root : Text
  pub run_root : Text
  pub files : List File
  pub nft_config_path : Text
  pub dry_run : Bool
  pub require_root : Bool
  pub rollback_timeout : ℤ
  pub ssh_override_acknowledged : Bool
  pub ssh_override_reason : Text
  pub ssh_override_source : Text
  pub ssh_override_context : Text
  pub ddns_desired : Bool

-- `encoding/json` at the three types that are stored, and `crypto/sha256` in hexadecimal.
pub record Codec : Type 0 where
  pub encode_transaction : Transaction → Text
  pub decode_transaction : Text → Option Transaction
  pub encode_ownership : Ownership → Text
  pub decode_ownership : Text → Option Ownership
  pub encode_manifest : Manifest → Text
  pub encode_manifest_indent : Manifest → Text
  pub decode_manifest : Text → Option Manifest
  pub sha256_hex : Text → Text
