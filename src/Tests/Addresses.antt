-- ===== src/Tests/Addresses.antt =====
-- The theorems on the static whitelist and on sets, applied to small inputs.
use cnftctl.Base
use cnftctl.Base.{
  ℕ, List, [], ◌∷◌, Bool, true, false, some, none, Text, codes, Result, ok, err, ◌≡◌, refl, leb,
  ltb, ◌==◌, ◌||◌, arith, ==_iff,
}
use cnftctl.Host.{message}
use cnftctl.Nft.{SetReplacement, is_bad_identifier, replace_sets}
use cnftctl.Nft.Refused.{is_any_bad, replace_sets_refused}
use cnftctl.Tests.Machine.{machine}
use cnftctl.Whitelist
use cnftctl.Whitelist.{Netip}
use cnftctl.Whitelist.RoundTrip.{remove-add}

-- A network of numbers below ten; a prefix is an address.
abbrev pub digits : Netip
digits = record {
  Addr = ℕ;
  Prefix = ℕ;
  parse_addr = λ s. some 7;
  parse_prefix = λ s. some 8;
  masked = λ p. p;
  single = λ a. a;
  same_prefix = λ a b. a == b;
  addr = λ p. p;
  bits = λ p. 32;
  is4 = λ a. true;
  is6 = λ a. false;
  less = ltb;
}

abbrev old : Whitelist.Entry digits
old = record { prefix = 3; comment = codes "office" }

abbrev fresh : Whitelist.Entry digits
fresh = record { prefix = 7; comment = codes "home" }

grown :
    Whitelist.add digits (some (old ∷ [])) (codes " 0.0.0.7") (codes "home ")
    ≡ ok (
      old ∷ fresh ∷ [],
      record { changed = true; entry = fresh; entries = old ∷ fresh ∷ []; broad = false },
    )
unfolding Whitelist.add Whitelist.parse_entry Whitelist.find_prefix Whitelist.list
    Whitelist.entry_leq Whitelist.is_broad Base.trim_space Base.trim_left Base.is_space
    Base.contains_any Base.is_control Base.contains Base.has_prefix Base.sort Base.insert_sorted
grown = refl

remove-add_example :
    Whitelist.remove digits (some (old ∷ fresh ∷ [])) (codes " 0.0.0.7")
    ≡ ok (
      old ∷ [],
      record {
        changed = true;
        entry = fresh;
        entries = Whitelist.list digits (old ∷ []);
        broad = false;
      },
    )
remove-add_example =
    remove-add digits (old ∷ []) (codes " 0.0.0.7") (codes "home ") (λ p. (==_iff p p).1 refl) grown
      refl

abbrev broken : List SetReplacement
broken =
    record { name = codes "ssh_v4"; elements = [] }
    ∷ record { name = codes "a;b"; elements = [] }
    ∷ []

is_broken :
    (is_bad_identifier (codes "inet") || is_bad_identifier (codes "hostfw") || is_any_bad broken)
    ≡ true
unfolding is_bad_identifier Base.contains_any
is_broken = refl

replace_sets_refused_example :
    replace_sets (machine []) (codes "inet") (codes "hostfw") broken []
    ≡ (err (message "invalid nft set identifier"), [])
replace_sets_refused_example =
    replace_sets_refused (machine []) (codes "inet") (codes "hostfw") broken [] is_broken
