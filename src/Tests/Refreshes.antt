-- ===== src/Tests/Refreshes.antt =====
-- The theorems on the metadata of the refreshes, applied to two attempts.
use cnftctl.Base.{
  ℕ, List, [], ◌∷◌, ◌++◌, true, false, some, Text, codes, leb, ltb, ◌==◌, ok, err, ◌≡◌, ◌↔◌, refl,
}
use cnftctl.Host.Guard.{IsGuarded}
use cnftctl.Durable.Flushed.{NeedFlushed}
use cnftctl.Ddns.{Netip, dns_error, lookup_failed}
use cnftctl.Ddns.Metadata.{Metadata, Json, Digest, is_stale, save_metadata}
use cnftctl.Ddns.History.{
  Attempt, IsSummary, IsExpired, fresh, after, last_success, after-IsSummary,
}
use cnftctl.Ddns.Stored.{save_metadata-IsGuarded}
use cnftctl.Tests.Machine.{machine, old_generation}

-- Addresses below 100 are those of IPv4.
abbrev numbers : Netip
numbers = record {
  Addr = ℕ;
  Prefix = ℕ;
  is4 = λ a. ltb a 100;
  is6 = λ a. leb 100 a;
  unmap = λ a. a;
  masked = λ a n. a;
  same_addr = λ a b. a == b;
  same_prefix = λ a b. a == b;
  leq_addr = leb;
  leq_prefix = leb;
}

abbrev digest : Digest numbers
digest = record { addr_text = λ a. a ∷ []; prefix_text = λ p. p ∷ []; sum = λ s. s }

-- A timeout at 20, after a success at 10.
abbrev attempts : List (Attempt numbers)
attempts =
    record {
      result = err (lookup_failed (dns_error true false false (codes "timeout")));
      ttl = 5;
      at = 20;
    }
    ∷ record { result = ok (record { ipv4 = 7 ∷ []; ipv6 = [] }); ttl = 5; at = 10 }
    ∷ []

after-IsSummary_example :
    IsSummary numbers digest attempts (after numbers digest attempts)
    × ((now : ℕ)
        → (is_stale now (ok (after numbers digest attempts)) ≡ true)
          ↔ IsExpired numbers digest now (last_success numbers attempts))
after-IsSummary_example = after-IsSummary numbers digest attempts

abbrev json : Json
json = record { encode = λ m. some m.error_code; decode = λ s. some (fresh numbers digest) }

abbrev stored : Metadata
stored = record (fresh numbers digest) { error_code = codes "dns_timeout" }

abbrev path : Text
path = codes "/var/lib/cnftctl/ddns-runtime.json"

save_metadata-IsGuarded_example :
    IsGuarded
      (NeedFlushed (codes "dns_timeout" ++ (b'\n' ∷ [])))
      (save_metadata (machine old_generation) json path stored []).1
save_metadata-IsGuarded_example =
    save_metadata-IsGuarded (machine old_generation) json path stored (codes "dns_timeout") refl
