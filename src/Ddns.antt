-- ===== src/Ddns.antt =====
-- internal/ddns/ddns.go: the host list, and what is resolved and handed to the runtime sets.
-- `net/netip` is the parameter `Netip`. A resolver is a function of the lookups made before and of
-- the host; like Go's it may give addresses beside an error. The prefix length and the lifetime are
-- natural numbers: a negative one is not modelled.
pub mod Refreshed
pub mod Metadata
pub mod History
pub mod Stored
use cnftctl.Base.{
  ℕ, zero, suc, ◌+◌, List, [], ◌∷◌, ◌++◌, Bool, true, false, ◌||◌, ◌&&◌, not, Option, none, some,
  Text, codes, eqb, is_empty, length, all, any, leb, ltb, leq_text, sort, trim_space, trim_suffix,
  to_lower, contains_any, split, has_prefix, has_suffix, byte_len, Result, ok, err, if◌then◌else◌,
  ◌==◌, ◌>>=◌,
}

pub record Netip : Type 1 where
  pub Addr : Type 0
  pub Prefix : Type 0
  pub is4 : Addr → Bool
  pub is6 : Addr → Bool
  pub unmap : Addr → Addr
  -- `PrefixFrom(addr, n).Masked()`
  pub masked : Addr → ℕ → Prefix
  pub same_addr : Addr → Addr → Bool
  pub same_prefix : Prefix → Prefix → Bool
  -- `not (b < a)` in the orders of `Resolve`
  pub leq_addr : Addr → Addr → Bool
  pub leq_prefix : Prefix → Prefix → Bool

-- The errors of `net` that the program tells apart.
pub data LookupError : Type 0 where
  addr_error : Text → LookupError
  dns_error : (is_timeout is_temporary is_not_found : Bool) → Text → LookupError
  other_error : LookupError

pub data DdnsError : Type 0 where
  nil_config host_required bad_host bad_prefix_len disabled no_hosts no_usable runtime_failed :
      DdnsError
  lookup_failed : LookupError → DdnsError

-- A duration is a number of nanoseconds.
pub record Config : Type 0 where
  pub enabled : Bool
  pub hosts : List Text
  pub ipv6_prefix_len : ℕ
  pub ttl : ℕ

-- `ensureDefaults`
unfoldable pub ensure_defaults : Config → Config
ensure_defaults cfg = record cfg {
  ipv6_prefix_len = if cfg.ipv6_prefix_len == 0 then 56 else cfg.ipv6_prefix_len;
  ttl = if cfg.ttl == 0 then 3_600_000_000_000 else cfg.ttl;
}

unfoldable pub is_host_char : ℕ → Bool
is_host_char c = (leb b'a' c && leb c b'z') || (leb b'0' c && leb c b'9') || c == b'-'

unfoldable pub is_label : Text → Bool
unfolding is_host_char
is_label l =
    not (is_empty l)
    && leb (byte_len l) 63
    && not (has_prefix l (codes "-"))
    && not (has_suffix l (codes "-"))
    && all is_host_char l

-- `normalizeHost`
unfoldable pub normalize_host : (ℕ → ℕ) → Text → Result DdnsError Text
unfolding is_label
normalize_host lower host =
    let h = trim_space (trim_suffix b'.' (to_lower lower host)) in
    if is_empty h
    then err host_required
    else if contains_any h (codes " /:")
        || ltb (length (split b'.' h)) 2
        || not (all is_label (split b'.' h))
    then err bad_host
    else ok h

-- `Enable`
unfoldable pub enable : Option Config → Result DdnsError (Config × Bool)
unfolding ensure_defaults
enable none = err nil_config
enable (some cfg) = ok (record (ensure_defaults cfg) { enabled = true }, not cfg.enabled)

unfoldable pub is_host : Text → List Text → Bool
is_host h [] = false
is_host h (x ∷ xs) = eqb x h || is_host h xs

unfoldable pub without : Text → List Text → List Text
without h [] = []
without h (x ∷ xs) = let rest = without h xs in if eqb x h then xs else x ∷ rest

-- `AddHost`
unfoldable pub add_host : (ℕ → ℕ) → Option Config → Text → Result DdnsError (Config × Bool)
unfolding is_host ensure_defaults
add_host lower none host = err nil_config
add_host lower (some cfg) host = do
  h ← normalize_host lower host
  if is_host h cfg.hosts
      then ok (cfg, false)
      else ok (ensure_defaults (record cfg { hosts = sort leq_text (cfg.hosts ++ h ∷ []) }), true)

-- `RemoveHost`
unfoldable pub remove_host : (ℕ → ℕ) → Option Config → Text → Result DdnsError (Config × Bool)
unfolding is_host without
remove_host lower none host = err nil_config
remove_host lower (some cfg) host = do
  h ← normalize_host lower host
  if is_host h cfg.hosts
      then ok (record cfg { hosts = without h cfg.hosts }, true)
      else ok (cfg, false)

-- `Disable`
unfoldable pub disable : Option Config → Result DdnsError (Config × Bool)
disable none = err nil_config
disable (some cfg) = ok (record cfg { enabled = false }, cfg.enabled)

-- `SetIPv6PrefixLen`
unfoldable pub set_prefix_len : Option Config → ℕ → Result DdnsError (Config × Bool)
set_prefix_len none n = err nil_config
set_prefix_len (some cfg) n =
    if not (n == 56) && not (n == 64)
    then err bad_prefix_len
    else ok (record cfg { ipv6_prefix_len = n }, not (cfg.ipv6_prefix_len == n))

-- `isAuthoritativeNoData`
unfoldable pub is_no_data : LookupError → Bool
is_no_data (addr_error s) = eqb s (codes "no suitable address found")
is_no_data (dns_error timeout temporary not_found s) =
    not (timeout || temporary) && (not_found || eqb s (codes "no suitable address found"))
is_no_data other_error = false

module _ (ip : Netip) where
  pub record Answer : Type 0 where
    pub addrs : List ip.Addr
    pub error : Option LookupError

  pub record Resolver : Type 0 where
    pub lookup_a : ℕ → Text → Answer
    pub lookup_aaaa : ℕ → Text → Answer

  -- `RefreshResult`
  pub record Resolved : Type 0 where
    pub ipv4 : List ip.Addr
    pub ipv6 : List ip.Prefix

  -- `DeriveIPv6Prefix`
  unfoldable pub derive_ipv6_prefix : ip.Addr → ℕ → Option ip.Prefix
  derive_ipv6_prefix a n =
      let b = ip.unmap a in
      if not (n == 56) && not (n == 64)
      then none
      else if not (ip.is6 b) || ip.is4 b
      then none
      else some (ip.masked b n)

  abbrev pub is_fatal : Option LookupError → Bool
  is_fatal none = false
  is_fatal (some x) = not (is_no_data x)

  abbrev pub error_of : Option LookupError → DdnsError
  error_of none = DdnsError.no_usable
  error_of (some x) = lookup_failed x

  -- Append what is not there yet; the map of what was seen holds what was appended.
  abbrev pub add_new {ℓ} : {A : Type ℓ} → (A → A → Bool) → List A → A → List A
  add_new same xs a = if any (same a) xs then xs else xs ++ a ∷ []

  unfoldable pub add_ipv4 : List ip.Addr → List ip.Addr → List ip.Addr
  add_ipv4 found [] = found
  add_ipv4 found (a ∷ addrs) =
      add_ipv4 (if ip.is4 a then add_new ip.same_addr found (ip.unmap a) else found) addrs

  abbrev pub add_prefix : List ip.Prefix → Option ip.Prefix → List ip.Prefix
  add_prefix found none = found
  add_prefix found (some p) = add_new ip.same_prefix found p

  unfoldable pub add_ipv6 : ℕ → List ip.Prefix → List ip.Addr → List ip.Prefix
  unfolding derive_ipv6_prefix
  add_ipv6 n found [] = found
  add_ipv6 n found (a ∷ addrs) = add_ipv6 n (add_prefix found (derive_ipv6_prefix a n)) addrs

  abbrev pub is_derived : Option ip.Prefix → Bool
  is_derived none = false
  is_derived (some p) = true

  -- `usable != 0`
  unfoldable pub is_usable : ℕ → List ip.Addr → List ip.Addr → Bool
  unfolding derive_ipv6_prefix
  is_usable n addrs4 addrs6 =
      any (λ a. ip.is4 (ip.unmap a)) addrs4 || any (λ a. is_derived (derive_ipv6_prefix a n)) addrs6

  -- The body of the loop, for the `i`-th host.
  unfoldable pub resolve_host :
      (ℕ → ℕ) → Resolver → ℕ → ℕ → Text → Resolved → Result DdnsError Resolved
  unfolding add_ipv4 add_ipv6 is_usable
  resolve_host lower r n i host found = do
    h ← normalize_host lower host
    let a = r.lookup_a i h
    let aaaa = r.lookup_aaaa i h
    if is_fatal a.error
        then err (error_of a.error)
        else if is_fatal aaaa.error
        then err (error_of aaaa.error)
        else if not (is_usable n a.addrs aaaa.addrs)
        then err no_usable
        else ok
            (record { ipv4 = add_ipv4 found.ipv4 a.addrs; ipv6 = add_ipv6 n found.ipv6 aaaa.addrs })

  unfoldable pub resolve_hosts :
      (ℕ → ℕ) → Resolver → ℕ → ℕ → List Text → Resolved → Result DdnsError Resolved
  unfolding resolve_host
  resolve_hosts lower r n i [] found = ok found
  resolve_hosts lower r n i (host ∷ hosts) found = do
    next ← resolve_host lower r n i host found
    resolve_hosts lower r n (suc i) hosts next

  abbrev pub sorted : Resolved → Resolved
  sorted x = record { ipv4 = sort ip.leq_addr x.ipv4; ipv6 = sort ip.leq_prefix x.ipv6 }

  -- `Resolve`
  unfoldable pub resolve : (ℕ → ℕ) → Resolver → Config → Result DdnsError Resolved
  unfolding resolve_hosts ensure_defaults
  resolve lower r cfg = do
    found ←
        resolve_hosts lower r (ensure_defaults cfg).ipv6_prefix_len 0 cfg.hosts
          (record { ipv4 = []; ipv6 = [] })
    ok (sorted found)

  -- A call of `RuntimeSet.Refresh`.
  pub record Push : Type 0 where
    pub sets : Resolved
    pub ttl : ℕ

  abbrev pub is_nothing : Resolved → Bool
  is_nothing x = is_empty x.ipv4 && is_empty x.ipv6

  abbrev pub pushed : Bool → Resolved → Result DdnsError Resolved
  pushed true x = ok x
  pushed false x = err runtime_failed

  unfoldable pub push :
      (Push → Bool) → ℕ → Result DdnsError Resolved → List Push × Result DdnsError Resolved
  push runtime ttl (err x) = ([], err x)
  push runtime ttl (ok found) =
      let p : Push = record { sets = found; ttl = ttl } in
      if is_nothing found then ([], err no_usable) else (p ∷ [], pushed (runtime p) found)

  -- `Refresh`: the calls of the runtime set, and the result.
  unfoldable pub refresh :
      (ℕ → ℕ) → Resolver → (Push → Bool) → Config → List Push × Result DdnsError Resolved
  unfolding push resolve
  refresh lower r runtime cfg =
      if not cfg.enabled
      then ([], err disabled)
      else if is_empty cfg.hosts
      then ([], err no_hosts)
      else push runtime (ensure_defaults cfg).ttl (resolve lower r (ensure_defaults cfg))
