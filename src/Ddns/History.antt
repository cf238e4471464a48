-- ===== src/Ddns/History.antt =====
-- The metadata of the refreshes, against the whole history of the attempts, newest first.
use cnftctl.Base.{
  ℕ, suc, ◌+◌, ◌%◌, ◌^◌, ◌≤◌, List, [], ◌∷◌, true, Option, none, some, Text, length, Result, ok,
  err, ◌≡◌, ◌↔◌, refl, ◌∙◌, arith,
}
use cnftctl.Ddns.{Netip, DdnsError, Resolved}
use cnftctl.Ddns.Metadata.{Metadata, Digest, error_code, result_hash, recorded, is_stale}

module _ (ip : Netip) where
  pub record Attempt : Type 0 where
    pub result : Result DdnsError (Resolved ip)
    pub ttl : ℕ
    pub at : ℕ

  pub record Success : Type 0 where
    pub found : Resolved ip
    pub until : ℕ
    pub since : ℕ

  succeeded_or : Option Success → Result DdnsError (Resolved ip) → ℕ → ℕ → Option Success
  succeeded_or earlier (ok x) ttl at = some (record { found = x; until = at + ttl; since = at })
  succeeded_or earlier (err x) ttl at = earlier

  -- The newest attempt that succeeded.
  unfoldable pub last_success : List Attempt → Option Success
  unfolding succeeded_or
  last_success [] = none
  last_success (a ∷ h) = succeeded_or (last_success h) a.result a.ttl a.at

  abbrev pub code_of : Result DdnsError (Resolved ip) → Text
  code_of (ok x) = []
  code_of (err x) = error_code x

  abbrev pub newest_code : List Attempt → Text
  newest_code [] = []
  newest_code (a ∷ h) = code_of a.result

  abbrev pub newest_time : List Attempt → Option ℕ
  newest_time [] = none
  newest_time (a ∷ h) = some a.at

  module _ (d : Digest ip) where
    -- What the metadata says of a success.
    abbrev pub Tells : Metadata → Option Success → Type 0
    Tells m none = (m.last_success ≡ none) × (m.expires_at ≡ none)
    Tells m (some s) =
        (m.last_success ≡ some s.since)
        × (m.expires_at ≡ some s.until)
        × (m.ipv4_count ≡ length s.found.ipv4)
        × (m.ipv6_count ≡ length s.found.ipv6)
        × (m.content_hash ≡ result_hash ip d s.found)

    pub record IsSummary (h : List Attempt) (m : Metadata) : Type 0 where
      pub attempts : m.attempts ≡ length h % 2 ^ 64
      pub newest : m.last_attempt ≡ newest_time h
      pub code : m.error_code ≡ newest_code h
      pub success : Tells m (last_success h)

    -- The metadata before any attempt.
    abbrev pub fresh : Metadata
    fresh = record {
      attempts = 0;
      last_attempt = none;
      last_success = none;
      error_code = [];
      error_summary = none;
      ipv4_count = 0;
      ipv6_count = 0;
      content_hash = [];
      expires_at = none;
    }

    unfoldable pub after : List Attempt → Metadata
    unfolding recorded
    after [] = fresh
    after (a ∷ h) = recorded ip d (after h) a.result a.ttl a.at

    counted : (n k : ℕ) → k ≡ n % 2 ^ 64 → (k + 1) % 2 ^ 64 ≡ suc n % 2 ^ 64
    counted n k h = omega arith

    kept :
        (m m' : Metadata) (s : Option Success)
        → m'.last_success ≡ m.last_success
        → m'.expires_at ≡ m.expires_at
        → m'.ipv4_count ≡ m.ipv4_count
        → m'.ipv6_count ≡ m.ipv6_count
        → m'.content_hash ≡ m.content_hash
        → Tells m s
        → Tells m' s
    kept m m' none p q r s u t = (p ∙ t.0, q ∙ t.1)
    kept m m' (some x) p q r s u t = (p ∙ t.0, q ∙ t.1, r ∙ t.2, s ∙ t.3, u ∙ t.4)

    recorded-IsSummary :
        (h : List Attempt) (m : Metadata) (r : Result DdnsError (Resolved ip)) (ttl at : ℕ)
        → IsSummary h m
        → IsSummary (record { result = r; ttl = ttl; at = at } ∷ h) (recorded ip d m r ttl at)
    unfolding recorded last_success succeeded_or
    recorded-IsSummary h m (ok x) ttl at s = record {
      attempts = counted (length h) m.attempts s.attempts;
      newest = refl;
      code = refl;
      success = (refl, refl, refl, refl, refl);
    }
    recorded-IsSummary h m (err x) ttl at s = record {
      attempts = counted (length h) m.attempts s.attempts;
      newest = refl;
      code = refl;
      success =
          kept m (recorded ip d m (err x) ttl at) (last_success h) refl refl refl refl refl
            s.success;
    }

    summarised : (h : List Attempt) → IsSummary h (after h)
    unfolding after last_success
    summarised [] = record { attempts = refl; newest = refl; code = refl; success = (refl, refl) }
    summarised (a ∷ h) = recorded-IsSummary h (after h) a.result a.ttl a.at (summarised h)

    abbrev pub IsExpired : ℕ → Option Success → Type 0
    IsExpired now none = ⊥
    IsExpired now (some s) = s.until ≤ now

    is_stale_iff :
        (now : ℕ) (m : Metadata) (s : Option Success)
        → Tells m s
        → (is_stale now (ok m) ≡ true) ↔ IsExpired now s
    unfolding is_stale
    is_stale_iff now m none h = let unset = h.1 in rw unset ((λ p. cc), λ p. absurd p)
    is_stale_iff now m (some s) h = let set = h.1 in rw set ((λ p. ground arith), λ p. ground arith)

    -- Whatever attempts were recorded, from no metadata on, the metadata are the summary of them:
    -- their number in 64 bits, the time and the error code of the newest, and of the newest that
    -- succeeded its time, the time when its addresses expire, their number and their hash. The
    -- status calls them stale just when an attempt succeeded and what the newest such attempt
    -- found has expired.
    pub after-IsSummary :
        (h : List Attempt)
        → IsSummary h (after h)
          × ((now : ℕ) → (is_stale now (ok (after h)) ≡ true) ↔ IsExpired now (last_success h))
    after-IsSummary h =
        (summarised h, λ now. is_stale_iff now (after h) (last_success h) (summarised h).success)
