-- ===== src/Whitelist.antt =====
-- internal/whitelist/whitelist.go: the static list of addresses that may reach SSH. `net/netip` is
-- the parameter `Netip`.
pub mod RoundTrip
use cnftctl.Base.{
  ℕ, List, [], ◌∷◌, ◌++◌, Bool, true, false, ◌||◌, ◌&&◌, not, Option, none, some, Text, codes,
  is_empty, any, trim_space, is_control, contains, contains_any, leb, ltb, sort, Result, ok, err,
  if◌then◌else◌, ◌==◌, ◌>>=◌,
}

pub data WhitelistError : Type 0 where
  nil_config entry_required bad_entry bad_comment bad_prefix bad_address : WhitelistError

pub record Netip : Type 1 where
  pub Addr : Type 0
  pub Prefix : Type 0
  pub parse_addr : Text → Option Addr
  pub parse_prefix : Text → Option Prefix
  pub masked : Prefix → Prefix
  -- `PrefixFrom(addr, addr.BitLen())`
  pub single : Addr → Prefix
  pub same_prefix : Prefix → Prefix → Bool
  pub addr : Prefix → Addr
  pub bits : Prefix → ℕ
  pub is4 : Addr → Bool
  pub is6 : Addr → Bool
  -- `a.Compare(b) < 0`
  pub less : Addr → Addr → Bool

module _ (ip : Netip) where
  pub record Entry : Type 0 where
    pub prefix : ip.Prefix
    pub comment : Text

  -- `Result`; the one warning there is is present or not.
  pub record Reply : Type 0 where
    pub changed : Bool
    pub entry : Entry
    pub entries : List Entry
    pub broad : Bool

  -- `broadWarnings`
  unfoldable pub is_broad : ip.Prefix → Bool
  is_broad p =
      (ip.is4 (ip.addr p) && leb (ip.bits p) 24) || (ip.is6 (ip.addr p) && leb (ip.bits p) 64)

  -- The order of `List`: `not (less b a)`, IPv4 before IPv6.
  unfoldable pub entry_leq : Entry → Entry → Bool
  entry_leq x y =
      let a = ip.addr x.prefix in
      let b = ip.addr y.prefix in
      if ip.is4 a && not (ip.is4 b)
      then true
      else if not (ip.is4 a) && ip.is4 b
      then false
      else if ip.less a b
      then true
      else if ip.less b a
      then false
      else leb (ip.bits x.prefix) (ip.bits y.prefix)

  unfoldable pub list : List Entry → List Entry
  unfolding entry_leq
  list entries = sort entry_leq entries

  abbrev pub with_prefix : WhitelistError → Text → Option ip.Prefix → Result WhitelistError Entry
  with_prefix x comment none = err x
  with_prefix x comment (some p) = ok (record { prefix = p; comment = comment })

  abbrev pub prefix_of : Text → Option ip.Prefix
  prefix_of value = elim (ip.parse_prefix value) [ none ↦ none | some p ↦ some (ip.masked p) ]

  abbrev pub address_of : Text → Option ip.Prefix
  address_of value = elim (ip.parse_addr value) [ none ↦ none | some a ↦ some (ip.single a) ]

  -- `ParseEntry`
  unfoldable pub parse_entry : Text → Text → Result WhitelistError Entry
  parse_entry value comment =
      let v = trim_space value in
      let c = trim_space comment in
      if is_empty v
      then err entry_required
      else if contains_any v (32 ∷ 9 ∷ 13 ∷ 10 ∷ [])
      then err bad_entry
      else if any is_control c
      then err bad_comment
      else if contains v (codes "/")
      then with_prefix bad_prefix c (prefix_of v)
      else with_prefix bad_address c (address_of v)

  unfoldable pub find_prefix : ip.Prefix → List Entry → Option Entry
  find_prefix p [] = none
  find_prefix p (x ∷ xs) =
      let rest = find_prefix p xs in if ip.same_prefix x.prefix p then some x else rest

  abbrev pub kept : Entry → Option (Entry × List Entry) → Option (Entry × List Entry)
  kept x none = none
  kept x (some (found, others)) = some (found, x ∷ others)

  -- The first entry of this prefix, and the list without it.
  unfoldable pub take_prefix : ip.Prefix → List Entry → Option (Entry × List Entry)
  take_prefix p [] = none
  take_prefix p (x ∷ xs) =
      let rest = kept x (take_prefix p xs) in
      if ip.same_prefix x.prefix p then some (x, xs) else rest

  abbrev pub added : List Entry → Entry → Option Entry → List Entry × Reply
  added entries e (some existing) = (
    entries,
    record { changed = false; entry = existing; entries = list entries; broad = is_broad e.prefix },
  )
  added entries e none =
      let grown = entries ++ e ∷ [] in
      (grown, record { changed = true; entry = e; entries = list grown; broad = is_broad e.prefix })

  -- `Add`; a configuration is its list `Static`, a nil one is `none`.
  unfoldable pub add :
      Option (List Entry) → Text → Text → Result WhitelistError (List Entry × Reply)
  unfolding find_prefix
  add none value comment = err nil_config
  add (some entries) value comment = do
    e ← parse_entry value comment
    ok (added entries e (find_prefix e.prefix entries))

  abbrev pub removed : List Entry → Entry → Option (Entry × List Entry) → List Entry × Reply
  removed entries e none =
      (entries, record { changed = false; entry = e; entries = list entries; broad = false })
  removed entries e (some (existing, others)) =
      (others, record { changed = true; entry = existing; entries = list others; broad = false })

  -- `Remove`
  unfoldable pub remove : Option (List Entry) → Text → Result WhitelistError (List Entry × Reply)
  unfolding take_prefix
  remove none value = err nil_config
  remove (some entries) value = do
    e ← parse_entry value []
    ok (removed entries e (take_prefix e.prefix entries))
