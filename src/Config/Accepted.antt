-- ===== src/Config/Accepted.antt =====
-- What a configuration without validation errors is like.
use cnftctl.Base.{
  ℕ, suc, ◌≤◌, List, [], ◌∷◌, ◌++◌, Bool, true, false, ◌&&◌, not, Option, none, some, Text, codes,
  eqb, eqb_iff, is_empty, any, is_control, All, ◌≡◌, ◌≢◌, ◌⊎◌, ◌↔◌, refl, inl, inr, arith,
  Bool-cases, if◌then◌else◌, ◌==◌,
}
use cnftctl.Base.Int.{ℤ, pos, negsuc, eqb_ℤ, ltb_ℤ}
use cnftctl.Config.{
  OpenPort, RateLimit, Ssh, Config, Netip, ValidationError, report, valid_port, is_zero,
  validate_port, each, duplicates, end_of, same_key, validate_ports, validate_trusted,
  validate_docker, validate_rate, is_covered, validate_ssh, validate,
}

parts {ℓ} : {A : Type ℓ} (xs ys : List A) → (xs ++ ys) ≡ [] → (xs ≡ []) × (ys ≡ [])
parts [] ys h = (refl, h)
parts (x ∷ xs) ys h = absurd (cc)

silent : (b : Bool) (x : ValidationError) → report b x ≡ [] → b ≡ false
silent true x h = absurd (cc)
silent false x h = refl

each-All {ℓ} :
    {A : Type ℓ} (Q : A → Type 0) (f : ℕ → A → List ValidationError)
    → ((i : ℕ) (a : A) → f i a ≡ [] → Q a)
    → (i : ℕ) (xs : List A) → each f i xs ≡ []
    → All Q xs
each-All Q f q i [] h = tt
each-All Q f q i (x ∷ xs) h =
    let (one, rest) = parts (f i x) (each f (suc i) xs) h in
    (q i x one, each-All Q f q (suc i) xs rest)

-- No element equals an earlier one; `seen` holds those before the list.
abbrev pub IsDistinct {ℓ} : {A : Type ℓ} → (A → A → Bool) → List A → List A → Type 0
IsDistinct same seen [] = Unit
IsDistinct same seen (a ∷ rest) = (any (same a) seen ≡ false) × IsDistinct same (a ∷ seen) rest

duplicates-IsDistinct {ℓ} :
    {A : Type ℓ} (same : A → A → Bool) (x : ℕ → ValidationError) (i : ℕ) (seen xs : List A)
    → duplicates same x i seen xs ≡ []
    → IsDistinct same seen xs
duplicates-IsDistinct same x i seen [] h = tt
duplicates-IsDistinct same x i seen (a ∷ rest) h =
    let (one, others) =
      parts (report (any (same a) seen) (x i)) (duplicates same x (suc i) (a ∷ seen) rest) h in
    (
      silent (any (same a) seen) (x i) one,
      duplicates-IsDistinct same x (suc i) (a ∷ seen) rest others,
    )

-- The ports of an entry, from the first to the last.
pub record IsOpenPort (p : OpenPort) : Type 0 where
  pub protocol : (p.protocol ≡ codes "tcp") ⊎ (p.protocol ≡ codes "udp")
  pub range :
      (a : ℕ) × (b : ℕ) × (p.port ≡ pos a) × (end_of p ≡ pos b) × (1 ≤ a) × (a ≤ b) × (b ≤ 65535)
  pub comment : any is_control p.comment ≡ false

known :
    (s : Text)
    → (not (eqb s (codes "tcp")) && not (eqb s (codes "udp"))) ≡ false
    → (s ≡ codes "tcp") ⊎ (s ≡ codes "udp")
known s h = ground (arith, eqb_iff s (codes "tcp"), eqb_iff s (codes "udp"))

in_range :
    (p e : ℤ)
    → not (valid_port p) ≡ false
    → (not (is_zero e) && not (valid_port e)) ≡ false
    → (not (is_zero e) && valid_port e && not (is_zero p) && ltb_ℤ e p) ≡ false
    → (a : ℕ) × (b : ℕ) × (p ≡ pos a)
      × ((if is_zero e then p else e) ≡ pos b)
      × (1 ≤ a)
      × (a ≤ b)
      × (b ≤ 65535)
unfolding valid_port is_zero
in_range (negsuc a) e v w o = absurd (cc)
in_range (pos a) (negsuc b) v w o = absurd (cc)
in_range (pos a) (pos b) v w o = elim (Bool-cases (b == 0)) [
  | inl zero_end ↦ (a, a, refl, rw zero_end refl, ground arith, ground arith, ground arith)
  | inr given ↦ (a, b, refl, rw given refl, ground arith, ground arith, ground arith)
]

validate_port-IsOpenPort : (i : ℕ) (p : OpenPort) → validate_port i p ≡ [] → IsOpenPort p
unfolding validate_port
validate_port-IsOpenPort i p h =
    let (h1, r1) = parts (report _ _) _ h in
    let (h2, r2) = parts (report _ _) _ r1 in
    let (h3, r3) = parts (report _ _) _ r2 in
    let (h4, h5) = parts (report _ _) _ r3 in
    record {
      protocol = known p.protocol (silent _ _ h1);
      range = in_range p.port p.end_port (silent _ _ h2) (silent _ _ h3) (silent _ _ h4);
      comment = silent _ _ h5;
    }

-- What `Validate` promises of a configuration that it accepts.
pub record IsAccepted (lower : ℕ → ℕ) (ip : Netip) (c : Config) : Type 0 where
  pub version : c.version ≡ pos 1
  pub ports : All IsOpenPort c.open_ports
  pub distinct : IsDistinct (same_key lower ip) [] c.open_ports
  pub reachable : (c.ssh.mode ≡ codes "open") ⊎ (is_covered lower ip c.ssh ≡ true)
  pub rate : (c.ssh.mode ≡ codes "whitelist-rate-limit") ↔ (c.ssh.rate_limit ≢ none)
  pub trusted : c.trusted.enabled ≡ true → is_empty c.trusted.interfaces ≡ false
  pub forwarding : c.trusted.trust_forwarding ≡ true → c.trusted.enabled ≡ true
  pub docker : c.docker.enabled ≡ true → is_empty c.docker.interfaces ≡ false

module _ (lower : ℕ → ℕ) (ip : Netip) where
  reached :
      (mode : Text) (b : Bool)
      → (not (eqb mode (codes "open")) && not b) ≡ false
      → (mode ≡ codes "open") ⊎ (b ≡ true)
  reached mode b h = ground (arith, eqb_iff mode (codes "open"))

  limits :
      (mode : Text)
      → not (eqb mode (codes "whitelist-rate-limit")) ≡ false
      → mode ≡ codes "whitelist-rate-limit"
  limits mode h = ground (arith, eqb_iff mode (codes "whitelist-rate-limit"))

  some_not_none : (r : RateLimit) → some r ≢ none
  some_not_none r e = cc

  rate_iff :
      (mode : Text) (o : Option RateLimit)
      → validate_rate lower ip mode o ≡ []
      → (mode ≡ codes "whitelist-rate-limit") ↔ (o ≢ none)
  unfolding validate_rate
  rate_iff mode none h =
      let off = silent (eqb mode (codes "whitelist-rate-limit")) _ h in
      (
        λ same. absurd (cc ((eqb_iff mode (codes "whitelist-rate-limit")).1 same, off)),
        λ some_rate. absurd (some_rate refl),
      )
  rate_iff mode (some r) h =
      let unused =
        report (not (eqb mode (codes "whitelist-rate-limit"))) ValidationError.rate_limit_unused in
      let per =
        report
          (not (eqb_ℤ r.per (pos 1_000_000_000))
            && not (eqb_ℤ r.per (pos 60_000_000_000))
            && not (eqb_ℤ r.per (pos 3_600_000_000_000)))
          ValidationError.bad_per in
      let count = report (not (ltb_ℤ (pos 0) r.connections)) ValidationError.bad_connections in
      let rest = parts count (per ++ unused) h in
      let last = parts per unused rest.1 in
      (
        λ same. λ e. some_not_none r e,
        λ _. limits mode (
            silent (not (eqb mode (codes "whitelist-rate-limit"))) ValidationError.rate_limit_unused
              last.1),
      )

  implied : (a b : Bool) → (a && b) ≡ false → a ≡ true → b ≡ false
  implied a b h k = ground arith

  needs : (a b : Bool) → (a && not b) ≡ false → a ≡ true → b ≡ true
  needs a b h k = ground arith

  version_one : (v : ℤ) → not (eqb_ℤ v (pos 1)) ≡ false → v ≡ pos 1
  version_one (pos n) h = ground arith
  version_one (negsuc n) h = absurd (cc)

  ssh-facts :
      (s : Ssh)
      → validate_ssh lower ip s ≡ []
      → ((s.mode ≡ codes "open") ⊎ (is_covered lower ip s ≡ true))
        × ((s.mode ≡ codes "whitelist-rate-limit") ↔ (s.rate_limit ≢ none))
  unfolding validate_ssh
  ssh-facts s h =
      let (h1, r1) = parts (report _ _) _ h in
      let (h2, r2) = parts (validate_rate lower ip s.mode s.rate_limit) _ r1 in
      let (h3, r3) = parts (report _ _) _ r2 in
      (reached s.mode (is_covered lower ip s) (silent _ _ h3), rate_iff s.mode s.rate_limit h2)

  -- A configuration without validation errors has version 1; its open ports are tcp or udp ranges
  -- within 1..65535 that end where they start or later and whose comments hold no control
  -- character, and no two have the same key; SSH is open or a whitelist covers it, and there is a
  -- rate limit exactly in the mode that limits the rate; trusted and Docker interfaces, where
  -- enabled, are named, and forwarding is trusted only with the trusted interfaces enabled.
  pub validate-IsAccepted : (c : Config) → validate lower ip c ≡ [] → IsAccepted lower ip c
  unfolding validate validate_ports validate_trusted validate_docker
  validate-IsAccepted c h =
      let (h1, r1) = parts (report _ _) _ h in
      let (h2, r2) = parts (report _ _) _ r1 in
      let (h3, r3) = parts (validate_ports lower ip c.open_ports) _ r2 in
      let (h4, r4) = parts (validate_ssh lower ip c.ssh) _ r3 in
      let (h5, h6) = parts (validate_trusted lower ip c.trusted) _ r4 in
      let (p1, p2) = parts (each validate_port 0 c.open_ports) _ h3 in
      let (t1, s1) = parts (each _ 0 c.trusted.interfaces) _ h5 in
      let (t2, s2) = parts (duplicates eqb _ 0 [] c.trusted.interfaces) _ s1 in
      let (t3, t4) = parts (report _ _) _ s2 in
      let (d1, u1) = parts (each _ 0 c.docker.interfaces) _ h6 in
      let (d2, d3) = parts (duplicates eqb _ 0 [] c.docker.interfaces) _ u1 in
      let ssh = ssh-facts c.ssh h4 in
      record {
        version = version_one c.version (silent _ _ h1);
        ports = each-All IsOpenPort validate_port validate_port-IsOpenPort 0 c.open_ports p1;
        distinct = duplicates-IsDistinct (same_key lower ip) _ 0 [] c.open_ports p2;
        reachable = ssh.0;
        rate = ssh.1;
        trusted = implied c.trusted.enabled _ (silent _ _ t3);
        forwarding = needs c.trusted.trust_forwarding _ (silent _ _ t4);
        docker = implied c.docker.enabled _ (silent _ _ d3);
      }
