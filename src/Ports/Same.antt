-- ===== src/Ports/Same.antt =====
-- What the searches in a list of ports find: an entry of the same protocol, start and end.
use cnftctl.Base.{
  List, [], ◌∷◌, true, Option, none, some, Exists, eqb_iff, ◌≡◌, ◌↔◌, refl, ap, inl, inr, arith,
  Bool-cases,
}
use cnftctl.Ports.{Entry, same_port, find_same, take_out, kept}

-- The two entries are of one port.
pub record IsSame (a b : Entry) : Type 0 where
  pub protocol : a.protocol ≡ b.protocol
  pub start : a.start ≡ b.start
  pub last : a.last ≡ b.last

-- An entry of the port stands in the list.
abbrev pub IsListed : Entry → List Entry → Type 0
IsListed e xs = Exists (λ x. IsSame x e) xs

same_port_keys :
    (a b : Entry)
    → same_port a b ≡ true
    → (a.protocol ≡ b.protocol) × (a.start ≡ b.start) × (a.last ≡ b.last)
unfolding same_port
same_port_keys a b h = ground (arith, eqb_iff a.protocol b.protocol)

pub same_port-IsSame : (a b : Entry) → same_port a b ≡ true → IsSame a b
same_port-IsSame a b h =
    let (p, s, l) = same_port_keys a b h in record { protocol = p; start = s; last = l }

pub IsSame-same_port : (a b : Entry) → IsSame a b → same_port a b ≡ true
unfolding same_port
IsSame-same_port a b s =
    let p = s.protocol in
    let q = s.start in let r = s.last in ground (arith, eqb_iff a.protocol b.protocol)

pub find_same-IsListed :
    (e : Entry) (xs : List Entry) {x : Entry} → find_same e xs ≡ some x → IsListed e xs
unfolding find_same
find_same-IsListed e [] h = absurd (cc)
find_same-IsListed e (z ∷ zs) h = elim (Bool-cases (same_port z e)) [
  | inl same ↦ inl (same_port-IsSame z e same)
  | inr other ↦ inr (find_same-IsListed e zs (rw other at h))
]

pub find_same-none : (e : Entry) (xs : List Entry) → find_same e xs ≡ none → ¬ IsListed e xs
unfolding find_same
find_same-none e [] h l = l
find_same-none e (z ∷ zs) h l = elim (Bool-cases (same_port z e)) [
  | inl same ↦ absurd (cc (rw same at h))
  | inr other ↦ elim l [
    | inl s ↦ absurd (cc (IsSame-same_port z e s, other))
    | inr later ↦ find_same-none e zs (rw other at h) later
  ]
]

kept-none : (z : Entry) (o : Option (Entry × List Entry)) → kept z o ≡ none → o ≡ none
kept-none z none h = refl
kept-none z (some (x, xs)) h = absurd (cc)

pub take_out_iff : (e : Entry) (xs : List Entry) → (take_out e xs ≡ none) ↔ (¬ IsListed e xs)
unfolding take_out
take_out_iff e [] = (λ h l. l, λ h. refl)
take_out_iff e (z ∷ zs) = elim (Bool-cases (same_port z e)) [
  | inl same ↦ (λ h. absurd (cc (rw same at h)), λ h. absurd (h (inl (same_port-IsSame z e same))))
  | inr other ↦ (
    λ h l. elim l [
      | inl s ↦ absurd (cc (IsSame-same_port z e s, other))
      | inr later ↦ (take_out_iff e zs).0 (kept-none z (take_out e zs) (rw other at h)) later
    ],
    λ h. rw other (ap (kept z) ((take_out_iff e zs).1 (λ l. h (inr l)))),
  )
]
