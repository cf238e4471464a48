-- ===== src/Ports/Listed.antt =====
-- `Open` and `Close` as operations on a set of ports.
use cnftctl.Base.{
  ℕ, List, [], ◌∷◌, ◌++◌, Bool, true, false, Option, none, some, Text, eqb_iff, eqb_refl, ok, err,
  ◌≡◌, ◌↔◌, refl, sym, ◌∙◌, inl, inr, arith, Bool-cases, if◌then◌else◌, ok-injective,
}
use mathlib.Core.Path.{subst, subst₂}
use cnftctl.Ports.Same.{IsListed, take_out_iff}
use cnftctl.Ports.{
  PortError, Entry, Config, Reply, same_port, find_same, take_out, kept, parse_entry, open_entry,
  close_entry, open_port, close_port,
}

-- Two entries name the same port exactly if protocol, start and end agree.
same_port_keys :
    (a b : Entry)
    → same_port a b ≡ true
    → (a.protocol ≡ b.protocol) × (a.start ≡ b.start) × (a.last ≡ b.last)
unfolding same_port
same_port_keys a b h = ground (arith, eqb_iff a.protocol b.protocol)

same_port_refl : (a : Entry) → same_port a a ≡ true
unfolding same_port
same_port_refl a = ground (arith, eqb_refl a.protocol)

same_port_left : (a b f : Entry) → same_port a b ≡ true → same_port a f ≡ same_port b f
unfolding same_port
same_port_left a b f h = let (p, q, r) = same_port_keys a b h in rw (p, q, r) refl

same_port_sym : (a b : Entry) → same_port a b ≡ true → same_port b a ≡ true
same_port_sym a b h = sym (same_port_left a b a h) ∙ same_port_refl a

same_port_right : (a b f : Entry) → same_port a b ≡ true → same_port f a ≡ same_port f b
unfolding same_port
same_port_right a b f h = let (p, q, r) = same_port_keys a b h in rw (p, q, r) refl

-- No port is listed twice.
abbrev pub IsDistinct : List Entry → Type 0
IsDistinct [] = Unit
IsDistinct (x ∷ xs) = (find_same x xs ≡ none) × IsDistinct xs

find_same_congr :
    (a b : Entry) (xs : List Entry) → same_port a b ≡ true → find_same a xs ≡ find_same b xs
unfolding find_same
find_same_congr a b [] h = refl
find_same_congr a b (x ∷ xs) h = ground (arith, same_port_right a b x h, find_same_congr a b xs h)

find_same-snoc :
    (e f : Entry) (xs : List Entry)
    → find_same f (xs ++ e ∷ []) ≡ (elim (find_same f xs) [
      | none ↦ (if same_port e f then some e else none)
      | some x ↦ some x
    ])
unfolding find_same
find_same-snoc e f [] = refl
find_same-snoc e f (x ∷ xs) = ground (arith, find_same-snoc e f xs)

find_same-snoc_other :
    (e f : Entry) (xs : List Entry)
    → same_port e f ≡ false
    → find_same f (xs ++ e ∷ []) ≡ find_same f xs
unfolding find_same
find_same-snoc_other e f [] n = rw n refl
find_same-snoc_other e f (x ∷ xs) n = rw (find_same-snoc_other e f xs n) refl

snoc-IsDistinct :
    (e : Entry) (xs : List Entry)
    → find_same e xs ≡ none
    → IsDistinct xs
    → IsDistinct (xs ++ e ∷ [])
unfolding find_same
snoc-IsDistinct e [] h d = (refl, tt)
snoc-IsDistinct e (x ∷ xs) h (fresh, d) = elim (Bool-cases (same_port x e)) [
  | inl s ↦ absurd (cc (rw s at h))
  | inr n ↦
      let rest : find_same e xs ≡ none = rw n at h in
      let other : same_port e x ≡ false = elim (Bool-cases (same_port e x)) [
        | inl s ↦ absurd (cc (same_port_sym e x s, n))
        | inr m ↦ m
      ] in
      (rw (find_same-snoc e x xs, fresh, other) refl, snoc-IsDistinct e xs rest d)
]

-- What `take_out` takes, and what it leaves.
record IsTaken (e : Entry) (xs : List Entry) (x : Entry) (ys : List Entry) : Type 0 where
  found : find_same e xs ≡ some x
  same : same_port x e ≡ true
  others : (f : Entry) → same_port e f ≡ false → find_same f ys ≡ find_same f xs
  gone : IsDistinct xs → find_same e ys ≡ none
  distinct : IsDistinct xs → IsDistinct ys

IsTaken-here : (e z : Entry) (xs : List Entry) → same_port z e ≡ true → IsTaken e (z ∷ xs) z xs
unfolding find_same
IsTaken-here e z xs h = record {
  found = rw h refl;
  same = h;
  others = λ f n. rw (same_port_left z e f h ∙ n) refl;
  gone = λ d. sym (find_same_congr z e xs h) ∙ d.0;
  distinct = λ d. d.1;
}

-- An entry that was not the one sought keeps its place.
still_fresh :
    (e z : Entry) (xs ys : List Entry) {x : Entry}
    → same_port z e ≡ false
    → IsTaken e xs x ys
    → find_same z xs ≡ none
    → find_same z ys ≡ none
still_fresh e z xs ys n t fresh = elim (Bool-cases (same_port e z)) [
  | inl s ↦ absurd (cc (same_port_sym e z s, n))
  | inr m ↦ t.others z m ∙ fresh
]

IsTaken-later :
    (e z : Entry) (xs ys : List Entry) {x : Entry}
    → same_port z e ≡ false
    → IsTaken e xs x ys
    → IsTaken e (z ∷ xs) x (z ∷ ys)
unfolding find_same
IsTaken-later e z xs ys n t = record {
  found = rw n t.found;
  same = t.same;
  others = λ f m. rw (t.others f m) refl;
  gone = λ d. rw n (t.gone d.1);
  distinct = λ d. (still_fresh e z xs ys n t d.0, t.distinct d.1);
}

kept-eq-some :
    (z : Entry) (o : Option (Entry × List Entry)) {x : Entry} {ys : List Entry}
    → kept z o ≡ some (x, ys)
    → (rest : List Entry) × (o ≡ some (x, rest)) × (ys ≡ z ∷ rest)
kept-eq-some z none h = cc
kept-eq-some z (some (w, ws)) h = (ws, cc, cc)

take_out-IsTaken :
    (e : Entry) (xs : List Entry) {x : Entry} {ys : List Entry}
    → take_out e xs ≡ some (x, ys)
    → IsTaken e xs x ys
unfolding take_out
take_out-IsTaken e [] h = cc
take_out-IsTaken e (z ∷ xs) {x} {ys} h = elim (Bool-cases (same_port z e)) [
  | inl s ↦
      let here : some (z, xs) ≡ some (x, ys) = rw s at h in
      subst₂ (IsTaken e (z ∷ xs)) (cc here) (cc here) (IsTaken-here e z xs s)
  | inr n ↦
      let (rest, found, shape) = kept-eq-some z (take_out e xs) (rw n at h) in
      rw shape (IsTaken-later e z xs rest n (take_out-IsTaken e xs found))
]

take_out-none : (e : Entry) (xs : List Entry) → take_out e xs ≡ none → find_same e xs ≡ none
unfolding take_out find_same
take_out-none e [] h = refl
take_out-none e (z ∷ xs) h = ground (arith, take_out-none e xs)

module _ (lower : ℕ → ℕ) (cfg : Config) (protocol spec comment : Text) {e : Entry} where
  -- From a list without repetition `Open` makes one without repetition in which the parsed port
  -- is listed under the entry that it reports; every other port is listed as before.
  pub open_port-find_same :
      {out : Config × Reply}
      → parse_entry lower protocol spec comment ≡ ok e
      → open_port lower (some cfg) protocol spec comment ≡ ok out
      → IsDistinct cfg.open_ports
      → IsDistinct out.0.open_ports
        × (find_same e out.0.open_ports ≡ some out.1.entry)
        × ((f : Entry)
            → same_port e f ≡ false
            → find_same f out.0.open_ports ≡ find_same f cfg.open_ports)
  unfolding open_port
  open_port-find_same {out} parsed h d =
      let made : ok (open_entry lower cfg e (find_same e cfg.open_ports)) ≡ ok out =
        rw parsed at h in
      subst Goal (ok-injective made) (opened (find_same e cfg.open_ports) refl)
    where
      Goal : Config × Reply → Type 0
      Goal out =
          IsDistinct out.0.open_ports
          × (find_same e out.0.open_ports ≡ some out.1.entry)
          × ((f : Entry)
              → same_port e f ≡ false
              → find_same f out.0.open_ports ≡ find_same f cfg.open_ports)

      opened : (o : Option Entry) → find_same e cfg.open_ports ≡ o → Goal (open_entry lower cfg e o)
      opened none fresh = (
        snoc-IsDistinct e cfg.open_ports fresh d,
        rw (find_same-snoc e e cfg.open_ports, fresh, same_port_refl e) refl,
        λ f n. find_same-snoc_other e f cfg.open_ports n,
      )
      opened (some x) old = (d, old, λ f n. refl)

module _ (lower : ℕ → ℕ) (cfg : Config) (protocol spec : Text) (strict : Bool) {e : Entry} where
  -- From a list without repetition `Close` makes one without repetition in which the parsed port
  -- is not listed; every other port is listed as before.
  pub close_port-find_same :
      {out : Config × Reply}
      → parse_entry lower protocol spec [] ≡ ok e
      → close_port lower (some cfg) protocol spec strict ≡ ok out
      → IsDistinct cfg.open_ports
      → IsDistinct out.0.open_ports
        × (find_same e out.0.open_ports ≡ none)
        × ((f : Entry)
            → same_port e f ≡ false
            → find_same f out.0.open_ports ≡ find_same f cfg.open_ports)
  unfolding close_port
  close_port-find_same {out} parsed h d =
      closed strict (take_out e cfg.open_ports) refl (rw parsed at h)
    where
      Goal : Config × Reply → Type 0
      Goal out =
          IsDistinct out.0.open_ports
          × (find_same e out.0.open_ports ≡ none)
          × ((f : Entry)
              → same_port e f ≡ false
              → find_same f out.0.open_ports ≡ find_same f cfg.open_ports)

      closed :
          (strict : Bool) (o : Option (Entry × List Entry))
          → take_out e cfg.open_ports ≡ o
          → close_entry lower cfg e strict o ≡ ok out
          → Goal out
      closed strict (some (x, others)) taken made =
          let t = take_out-IsTaken e cfg.open_ports taken in
          subst Goal (ok-injective made) (t.distinct d, t.gone d, t.others)
      closed true none absent made = absurd (cc)
      closed false none absent made =
          subst Goal (ok-injective made) (d, take_out-none e cfg.open_ports absent, λ f n. refl)

-- `Close` refuses a port that was parsed exactly where it is strict and no entry of the list has
-- the port's protocol, start and end.
pub close_port_strict :
    (lower : ℕ → ℕ) (cfg : Config) (protocol spec : Text) (strict : Bool) {e : Entry}
    → parse_entry lower protocol spec [] ≡ ok e
    → (close_port lower (some cfg) protocol spec strict ≡ err PortError.not_open)
      ↔ ((strict ≡ true) × ¬ IsListed e cfg.open_ports)
unfolding close_port
close_port_strict lower cfg protocol spec strict {e} parsed =
    let t = take_out_iff e cfg.open_ports in
    let r = refused strict (take_out e cfg.open_ports) in
    rw parsed (λ h. let (s, o) = r.0 h in (s, t.0 o), λ (s, n). r.1 (s, t.1 n))
  where
    refused :
        (strict : Bool) (o : Option (Entry × List Entry))
        → (close_entry lower cfg e strict o ≡ err PortError.not_open)
          ↔ ((strict ≡ true) × (o ≡ none))
    refused strict (some (x, others)) = (λ h. cc, λ h. cc)
    refused true none = (λ h. (refl, refl), λ h. refl)
    refused false none = (λ h. cc, λ h. cc)
