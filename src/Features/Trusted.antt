-- ===== src/Features/Trusted.antt =====
-- The trusted interfaces as a set.
use mathlib.Core.Path.{subst}
use cnftctl.Base.{
  ℕ, ◌+◌, ◌-◌, ◌≤◌, List, [], ◌∷◌, ◌++◌, Bool, true, false, not, some, Text, eqb, eqb_iff, eqb_refl,
  is_empty, leq_text, sort, insert_sorted, ok, ok-injective, ◌≡◌, ◌≢◌, ◌∙◌, sym, refl, inl, inr,
  arith, Bool-cases, if◌then◌else◌,
}
use cnftctl.Features.{
  Config, Reply, is_interface, is_listed, without, enable_trusted, disable_trusted,
}

-- How often a name is listed.
abbrev pub count : Text → List Text → ℕ
count f [] = 0
count f (x ∷ xs) = (if eqb x f then 1 else 0) + count f xs

count-insert :
    (f a : Text) (xs : List Text)
    → count f (insert_sorted leq_text a xs) ≡ (if eqb a f then 1 else 0) + count f xs
unfolding insert_sorted
count-insert f a [] = refl
count-insert f a (x ∷ xs) = ground (arith, count-insert f a xs)

count-sort : (f : Text) (xs : List Text) → count f (sort leq_text xs) ≡ count f xs
unfolding sort
count-sort f [] = refl
count-sort f (x ∷ xs) = omega (arith, count-insert f x (sort leq_text xs), count-sort f xs)

count-snoc :
    (f a : Text) (xs : List Text) → count f (xs ++ a ∷ []) ≡ count f xs + (if eqb a f then 1 else 0)
count-snoc f a [] = ground arith
count-snoc f a (x ∷ xs) = ground (arith, count-snoc f a xs)

listed-count : (a : Text) (xs : List Text) → is_listed a xs ≡ true → 1 ≤ count a xs
unfolding is_listed
listed-count a [] h = cc
listed-count a (x ∷ xs) h = ground (arith, listed-count a xs)

unlisted-count : (a : Text) (xs : List Text) → is_listed a xs ≡ false → count a xs ≡ 0
unfolding is_listed
unlisted-count a [] h = refl
unlisted-count a (x ∷ xs) h = ground (arith, unlisted-count a xs)

count-without : (a : Text) (xs : List Text) → count a (without a xs) ≡ count a xs - 1
unfolding without
count-without a [] = refl
count-without a (x ∷ xs) = ground (arith, count-without a xs)

count-without_other :
    (a f : Text) (xs : List Text) → eqb a f ≡ false → count f (without a xs) ≡ count f xs
unfolding without
count-without_other a f [] n = refl
count-without_other a f (x ∷ xs) n = elim (Bool-cases (eqb x a)) [
  | inl same ↦ rw (same, (eqb_iff x a).0 same, n) (omega arith)
  | inr other ↦ rw (other, count-without_other a f xs n) refl
]

abbrev pub IsDistinct : List Text → Type 0
IsDistinct xs = (f : Text) → count f xs ≤ 1

-- The list holds the names of the old one, `name` added or removed.
abbrev pub AgreesElsewhere : Text → List Text → List Text → Type 0
AgreesElsewhere name xs ys = (f : Text) → f ≢ name → count f xs ≡ count f ys

differs : (name f : Text) → f ≢ name → eqb name f ≡ false
differs name f n = elim (Bool-cases (eqb name f)) [
  | inl same ↦ absurd (n (sym ((eqb_iff name f).0 same)))
  | inr other ↦ other
]

-- One name more, where it was not listed.
pub record IsAdded (name : Text) (xs ys : List Text) : Type 0 where
  pub distinct : IsDistinct ys
  pub present : count name ys ≡ 1
  pub others : AgreesElsewhere name ys xs

IsAdded-new :
    (name : Text) (xs : List Text)
    → IsDistinct xs
    → is_listed name xs ≡ false
    → IsAdded name xs (sort leq_text (xs ++ name ∷ []))
IsAdded-new name xs d fresh = record {
  distinct = λ f. elim (Bool-cases (eqb name f)) [
    | inl same ↦
        rw (counts f)
          (rw (same) (ground (arith, unlisted-count name xs fresh, (eqb_iff name f).0 same)))
    | inr other ↦ rw (counts f) (rw other (omega (arith, d f)))
  ];
  present = rw (counts name) (rw (eqb_refl name) (omega (arith, unlisted-count name xs fresh)));
  others = λ f n. rw (counts f) (rw (differs name f n) (omega arith));
}
  where
    counts :
        (f : Text)
        → count f (sort leq_text (xs ++ name ∷ [])) ≡ count f xs + (if eqb name f then 1 else 0)
    counts f = count-sort f (xs ++ name ∷ []) ∙ count-snoc f name xs

IsAdded-old :
    (name : Text) (xs : List Text) → IsDistinct xs → is_listed name xs ≡ true → IsAdded name xs xs
IsAdded-old name xs d h = record {
  distinct = d;
  present = omega (arith, d name, listed-count name xs h);
  others = λ f n. refl;
}

pub record IsRemoved (name : Text) (xs ys : List Text) : Type 0 where
  pub distinct : IsDistinct ys
  pub absent : count name ys ≡ 0
  pub others : AgreesElsewhere name ys xs

removed : (name : Text) (xs : List Text) → IsDistinct xs → IsRemoved name xs (without name xs)
removed name xs d = record {
  distinct = λ f. elim (Bool-cases (eqb name f)) [
    | inl same ↦ rw (sym ((eqb_iff name f).0 same)) (omega (arith, count-without name xs, d name))
    | inr other ↦ rw (count-without_other name f xs other) (d f)
  ];
  absent = omega (arith, count-without name xs, d name);
  others = λ f n. count-without_other name f xs (differs name f n);
}

IsRemoved-unlisted :
    (name : Text) (xs : List Text)
    → IsDistinct xs
    → is_listed name xs ≡ false
    → IsRemoved name xs xs
IsRemoved-unlisted name xs d h = record {
  distinct = d;
  absent = unlisted-count name xs h;
  others = λ f n. refl;
}

module _ (cfg : Config) (name : Text) {out : Config × Reply} where
  -- From a list without repetition `EnableTrustedInterface` makes one without repetition that holds
  -- the name once and every other name as before, and trust is enabled.
  pub enable_trusted-IsAdded :
      enable_trusted (some cfg) name ≡ ok out
      → IsDistinct cfg.trusted.interfaces
      → IsAdded name cfg.trusted.interfaces out.0.trusted.interfaces
        × (out.0.trusted.enabled ≡ true)
  unfolding enable_trusted
  enable_trusted-IsAdded h d = elim (Bool-cases (is_interface name)) [
    | inr bad ↦ absurd (cc (rw bad at h))
    | inl good ↦ elim (Bool-cases (is_listed name cfg.trusted.interfaces)) [
      | inl old ↦
          subst Goal (ok-injective (rw (good, old) at h))
            (IsAdded-old name cfg.trusted.interfaces d old, refl)
      | inr new ↦
          subst Goal (ok-injective (rw (good, new) at h))
            (IsAdded-new name cfg.trusted.interfaces d new, refl)
    ]
  ]
    where
      Goal : Config × Reply → Type 0
      Goal o =
          IsAdded name cfg.trusted.interfaces o.0.trusted.interfaces × (o.0.trusted.enabled ≡ true)

  -- From a list without repetition `DisableTrustedInterface` makes one without repetition that does
  -- not hold the name and holds every other name as before. Trust that was not enabled without an
  -- interface is not enabled without one after it.
  pub disable_trusted-IsRemoved :
      disable_trusted (some cfg) name ≡ ok out
      → IsDistinct cfg.trusted.interfaces
      → (cfg.trusted.enabled ≡ true → is_empty cfg.trusted.interfaces ≡ false)
      → IsRemoved name cfg.trusted.interfaces out.0.trusted.interfaces
        × (out.0.trusted.enabled ≡ true → is_empty out.0.trusted.interfaces ≡ false)
  unfolding disable_trusted
  disable_trusted-IsRemoved h d inhabited = elim (Bool-cases (is_interface name)) [
    | inr bad ↦ absurd (cc (rw bad at h))
    | inl good ↦ elim (Bool-cases (is_listed name cfg.trusted.interfaces)) [
      | inl old ↦ subst Goal (ok-injective (rw (good, old) at h)) (
        removed name cfg.trusted.interfaces d,
        nonempty (is_empty (without name cfg.trusted.interfaces)),
      )
      | inr new ↦
          subst Goal (ok-injective (rw (good, new) at h))
            (IsRemoved-unlisted name cfg.trusted.interfaces d new, inhabited)
    ]
  ]
    where
      Goal : Config × Reply → Type 0
      Goal o =
          IsRemoved name cfg.trusted.interfaces o.0.trusted.interfaces
          × (o.0.trusted.enabled ≡ true → is_empty o.0.trusted.interfaces ≡ false)

      nonempty : (b : Bool) → not b ≡ true → b ≡ false
      nonempty true h = absurd (cc)
      nonempty false h = refl
