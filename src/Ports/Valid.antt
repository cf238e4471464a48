-- ===== src/Ports/Valid.antt =====
-- What `ParseEntry` accepts.
use cnftctl.Base.{
  ℕ, ◌≤◌, List, [], ◌∷◌, false, Option, none, some, Text, codes, eqb, eqb_iff, any, is_control,
  split, is_empty, trim_space, to_lower, Result, ok, err, ◌≡◌, ◌⊎◌, inl, inr, arith, Bool-cases,
  >>=-eq-ok, ◌&&◌, not,
}
use cnftctl.Base.{atoi}
use cnftctl.Base.Int.{ℤ, pos, negsuc}
use mathlib.Core.Path.{subst}
use cnftctl.Base.{ok-injective, if◌then◌else◌}
use cnftctl.Ports.{
  PortError, bad_comment, Entry, port_of, parse_port, parse_parts, parse_port_spec, parse_entry,
}

pub record IsPort (e : Entry) : Type 0 where
  pub protocol : (e.protocol ≡ codes "tcp") ⊎ (e.protocol ≡ codes "udp")
  pub low : 1 ≤ e.start
  pub ordered : e.start ≤ e.last
  pub high : e.last ≤ 65535
  pub comment : any is_control e.comment ≡ false

port_of_bounds : (o : Option ℤ) {n : ℕ} → port_of o ≡ ok n → (1 ≤ n) × (n ≤ 65535)
unfolding port_of
port_of_bounds none h = cc
port_of_bounds (some (negsuc m)) h = cc
port_of_bounds (some (pos m)) h = ground arith

parse_port_bounds : (s : Text) {n : ℕ} → parse_port s ≡ ok n → (1 ≤ n) × (n ≤ 65535)
unfolding parse_port
parse_port_bounds s h = port_of_bounds (atoi (trim_space s)) h

abbrev IsRange : ℕ → ℕ → Type 0
IsRange a b = (1 ≤ a) × (a ≤ b) × (b ≤ 65535)

parse_parts-IsRange : (parts : List Text) {a b : ℕ} → parse_parts parts ≡ ok (a, b) → IsRange a b
unfolding parse_parts
parse_parts-IsRange [] h = cc
parse_parts-IsRange (s ∷ []) h =
    let (m, p, q) = >>=-eq-ok (parse_port s) _ h in ground (arith, parse_port_bounds s p)
parse_parts-IsRange (s ∷ t ∷ []) h =
    let (m, p, q) = >>=-eq-ok (parse_port s) _ h in
    let (n, r, u) = >>=-eq-ok (parse_port t) _ q in
    ground (arith, parse_port_bounds s p, parse_port_bounds t r)
parse_parts-IsRange (s ∷ t ∷ u ∷ rest) h = cc

parse_port_spec-IsRange : (s : Text) {a b : ℕ} → parse_port_spec s ≡ ok (a, b) → IsRange a b
unfolding parse_port_spec
parse_port_spec-IsRange s h = elim (Bool-cases (is_empty (trim_space s))) [
  | inl blank ↦ absurd (cc (rw blank at h))
  | inr full ↦ parse_parts-IsRange (split b'-' (trim_space s)) (rw full at h)
]

known_protocol :
    (p : Text)
    → (not (eqb p (codes "tcp")) && not (eqb p (codes "udp"))) ≡ false
    → (p ≡ codes "tcp") ⊎ (p ≡ codes "udp")
known_protocol p h = elim (Bool-cases (eqb p (codes "tcp"))) [
  | inl t ↦ inl ((eqb_iff p _).0 t)
  | inr n ↦ elim (Bool-cases (eqb p (codes "udp"))) [
    | inl u ↦ inr ((eqb_iff p _).0 u)
    | inr m ↦ absurd (cc (rw (n, m) at h))
  ]
]

with_comment : Text → Text → ℕ × ℕ → Result PortError Entry
with_comment p c (start, last) =
    if any is_control c
    then err bad_comment
    else ok (record { protocol = p; start = start; last = last; comment = c })

with_comment-IsPort :
    (p c : Text) (r : ℕ × ℕ) {e : Entry}
    → (p ≡ codes "tcp") ⊎ (p ≡ codes "udp")
    → IsRange r.0 r.1
    → with_comment p c r ≡ ok e
    → IsPort e
unfolding with_comment
with_comment-IsPort p c (a, b) {e} known range h = elim (Bool-cases (any is_control c)) [
  | inl bad ↦ absurd (cc (rw bad at h))
  | inr fine ↦
      let same : ok (record { protocol = p; start = a; last = b; comment = c }) ≡ ok e =
        rw fine at h in
      subst IsPort (ok-injective same) (record {
        protocol = known;
        low = range.0;
        ordered = range.1;
        high = range.2;
        comment = fine;
      })
]

-- An entry that `ParseEntry` accepts is tcp or udp with ports in 1..65535, the end not before the
-- start, and its comment holds no control character.
pub parse_entry-IsPort :
    (lower : ℕ → ℕ) (protocol spec comment : Text) {e : Entry}
    → parse_entry lower protocol spec comment ≡ ok e
    → IsPort e
unfolding parse_entry with_comment
parse_entry-IsPort lower protocol spec comment {e} h =
    let p = to_lower lower (trim_space protocol) in
    elim (Bool-cases (not (eqb p (codes "tcp")) && not (eqb p (codes "udp")))) [
      | inl bad ↦ absurd (cc (rw bad at h))
      | inr good ↦
          let (r, parsed, final) = >>=-eq-ok (parse_port_spec spec) _ (rw good at h) in
          with_comment-IsPort p (trim_space comment) r (known_protocol p good)
            (parse_port_spec-IsRange spec parsed) final
    ]
