-- ===== src/Tests/Machine.antt =====
-- A machine, the parameters of the model and inputs on which the theorems are applied.
use cnftctl.Base.{[], ◌∷◌, ◌++◌, Bool, true, false, none, some, Text, codes, Result, ok}
use cnftctl.Base.Int.{pos}
use cnftctl.Host.{Call, OsError, Env, read_link, read_file}
use cnftctl.Apply.Model.{Phase, Transaction, Options, Codec, ownership_marker}
use cnftctl.Apply.Manifest.{marker_prefix}

-- 32 hexadecimal digits, and 64 of them.
abbrev pub id_text : Text
id_text = codes "0123456789abcdef0123456789abcdef"

abbrev pub old_generation : Text
old_generation = codes "aaaaaaaaaaaaaaaaaaaaaaaaaaaaaaaabbbbbbbbbbbbbbbbbbbbbbbbbbbbbbbb"

abbrev pub new_generation : Text
new_generation = codes "ccccccccccccccccccccccccccccccccdddddddddddddddddddddddddddddddd"

abbrev pub update : Transaction
update = record {
  id = id_text;
  phase = Phase.activated;
  started_at = 5;
  rollback_deadline = 120_000_000_005;
  generation = new_generation;
  previous_generation = old_generation;
  fresh_install = false;
  firewall_was_enabled = true;
  confirmed = false;
  rolled_back = false;
  ssh_override = none;
}

-- The machine holds the generation `g` everywhere, and every call succeeds.
abbrev pub content_at : Text → Call → Result OsError Text
content_at g (read_link path) = ok (codes "generations/" ++ g)
content_at g (read_file path) = ok []
content_at g _ = ok (codes "/tmp/x")

abbrev pub machine : Text → Env
machine g = record {
  answer = λ t c. ok tt;
  info = λ t c. ok (record {
    is_dir = true;
    is_regular = true;
    is_symlink = false;
    perm = 0o755;
    size = 1;
    owner = some (0, 0);
  });
  content = λ t c. content_at g c;
  entries = λ t d. ok [];
  command = λ t name args. record { stdout = marker_prefix ++ g; stderr = []; failed = false };
  clock = λ t. 7;
  random_id = λ t. id_text;
  euid = λ t. 0;
  lower = λ c. c;
}

abbrev pub codec : Text → Codec
codec g = record {
  encode_transaction = λ tx. tx.id;
  decode_transaction = λ s. some update;
  encode_ownership = λ o. o.generation;
  decode_ownership = λ s. some (record { marker = ownership_marker; generation = g });
  encode_manifest = λ m. [];
  encode_manifest_indent = λ m. [];
  decode_manifest = λ s. some (record { version = 1; files = []; ddns_desired = false });
  sha256_hex = λ s. new_generation;
}

abbrev pub options : Bool → Options
options dry = record {
  root = codes "/mnt";
  run_root = [];
  files = record { path = codes "/x/firewall.nft"; mode = 0o644; content = codes "table" } ∷ [];
  nft_config_path = [];
  dry_run = dry;
  require_root = true;
  rollback_timeout = pos 0;
  ssh_override_acknowledged = false;
  ssh_override_reason = [];
  ssh_override_source = [];
  ssh_override_context = [];
  ddns_desired = false;
}
