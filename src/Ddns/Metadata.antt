-- ===== src/Ddns/Metadata.antt =====
-- internal/ddns/ddns.go: the record of the attempts to refresh, kept in ddns-runtime.json.
-- `encoding/json` is the parameter `Json`; the texts of addresses and SHA-256 in hexadecimal are
-- the parameter `Digest`. A time is a number of nanoseconds, `none` the zero `time.Time`.
use cnftctl.Base.{
  ℕ, ◌+◌, ◌%◌, ◌^◌, [], ◌∷◌, ◌++◌, Bool, false, not, Option, none, some, Text, codes, length, map,
  join, sort, leq_text, ltb, dir, Result, ok, err, if◌then◌else◌,
}
use cnftctl.Host.{
  Env, M, Error, ◌>>=◌, ◌>>◌, return, try, give, deferring, decode_failed, perform, ask_text,
  read_file, mkdir_all, create_temp, rename, remove,
}
use cnftctl.Durable.{fill_temp, sync_dir, decoded}
use cnftctl.Ddns.{Netip, DdnsError, Resolved, dns_error, lookup_failed}

-- `ErrorSummary` is the text of an error: here it is the error.
pub record Metadata : Type 0 where
  pub attempts : ℕ
  pub last_attempt : Option ℕ
  pub last_success : Option ℕ
  pub error_code : Text
  pub error_summary : Option DdnsError
  pub ipv4_count : ℕ
  pub ipv6_count : ℕ
  pub content_hash : Text
  pub expires_at : Option ℕ

pub record Json : Type 0 where
  pub encode : Metadata → Option Text
  pub decode : Text → Option Metadata

-- `errorCode`
unfoldable pub error_code : DdnsError → Text
error_code (lookup_failed (dns_error timeout temporary not_found s)) =
    if timeout
    then codes "dns_timeout"
    else if temporary
    then codes "dns_temporary"
    else if not_found
    then codes "dns_not_found"
    else codes "dns_error"
error_code _ = codes "refresh_error"

module _ (ip : Netip) where
  pub record Digest : Type 0 where
    pub addr_text : ip.Addr → Text
    pub prefix_text : ip.Prefix → Text
    pub sum : Text → Text

  -- `resultHash`
  unfoldable pub result_hash : Digest → Resolved ip → Text
  result_hash d x = d.sum (
      join (codes "\n") (
        sort leq_text (
          map (λ a. codes "4:" ++ d.addr_text a) x.ipv4
          ++ map (λ p. codes "6:" ++ d.prefix_text p) x.ipv6)))

  -- The metadata after an attempt, `RecordAttempt` without the file.
  unfoldable pub recorded : Digest → Metadata → Result DdnsError (Resolved ip) → ℕ → ℕ → Metadata
  unfolding result_hash error_code
  recorded d previous (err x) ttl now = record previous {
    attempts = (previous.attempts + 1) % 2 ^ 64;
    last_attempt = some now;
    error_code = error_code x;
    error_summary = some x;
  }
  recorded d previous (ok x) ttl now = record {
    attempts = (previous.attempts + 1) % 2 ^ 64;
    last_attempt = some now;
    last_success = some now;
    error_code = [];
    error_summary = none;
    ipv4_count = length x.ipv4;
    ipv6_count = length x.ipv6;
    content_hash = result_hash d x;
    expires_at = some (now + ttl);
  }

-- `status.Stale`, from the metadata and the time.
unfoldable pub is_stale : ℕ → Result Error Metadata → Bool
is_stale now (err x) = false
is_stale now (ok m) = expired m.expires_at
  where
    expired : Option ℕ → Bool
    expired none = false
    expired (some t) = not (ltb now t)

module _ (e : Env) (j : Json) where
  abbrev pub encoded : Option Text → Result Error Text
  encoded none = err decode_failed
  encoded (some text) = ok text

  -- `LoadMetadata`
  unfoldable pub load_metadata : Text → M Metadata
  load_metadata path = do text ← ask_text e (read_file path); decoded e (j.decode text)

  unfoldable pub replace_metadata : Text → Text → M (Unit {0})
  replace_metadata path text = do
    perform e (mkdir_all (dir path) 0o700)
    tmp ← ask_text e (create_temp (dir path) (codes ".ddns-runtime-*"))
    deferring (do fill_temp e tmp text 0o600; perform e (rename tmp path); sync_dir e (dir path))
        (perform e (remove tmp))

  -- `SaveMetadata`
  unfoldable pub save_metadata : Text → Metadata → M (Unit {0})
  unfolding replace_metadata
  save_metadata path m = do
    text ← give (encoded (j.encode m))
    replace_metadata path (text ++ (b'\n' ∷ []))

  -- `RecordAttempt`
  unfoldable pub record_attempt :
      (ip : Netip)
      → Digest ip
      → Text
      → Metadata
      → Result DdnsError (Resolved ip)
      → ℕ
      → ℕ
      → M Metadata
  unfolding recorded save_metadata
  record_attempt ip d path previous r ttl now = do
    let m = recorded ip d previous r ttl now
    save_metadata path m
    return m

  -- The part of `StatusOf` that reads the metadata.
  unfoldable pub metadata_status : Text → M (Result Error Metadata × Bool)
  unfolding load_metadata is_stale
  metadata_status path = do
    m ← try (load_metadata path)
    now ← λ t. (ok (e.clock t), t)
    return (m, is_stale now m)
