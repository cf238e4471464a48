-- ===== src/Whitelist/RoundTrip.antt =====
-- `Remove` undoes `Add`.
use mathlib.Core.Path.{subst}
use cnftctl.Base.{
  List, [], ◌∷◌, ◌++◌, true, false, Option, none, some, Text, codes, is_empty, any, trim_space,
  trim_left, is_control, contains, contains_any, ok, ok-injective, >>=-eq-ok, ◌≡◌, refl, ap, sym,
  ◌∙◌, inl, inr, Bool-cases,
}
use cnftctl.Whitelist.{
  WhitelistError, Netip, Entry, Reply, list, with_prefix, prefix_of, address_of, parse_entry,
  find_prefix, take_prefix, added, add, remove,
}

trim_nil : trim_space [] ≡ []
unfolding trim_space trim_left
trim_nil = refl

module _ (ip : Netip) where
  take_prefix-snoc :
      (p : ip.Prefix) (e : Entry ip) (xs : List (Entry ip))
      → find_prefix ip p xs ≡ none
      → ip.same_prefix e.prefix p ≡ true
      → take_prefix ip p (xs ++ e ∷ []) ≡ some (e, xs)
  unfolding find_prefix take_prefix
  take_prefix-snoc p e [] h s = rw s refl
  take_prefix-snoc p e (x ∷ xs) h s = elim (Bool-cases (ip.same_prefix x.prefix p)) [
    | inl here ↦ absurd (cc (rw here at h))
    | inr other ↦ rw (other, take_prefix-snoc p e xs (rw other at h) s) refl
  ]

  -- The prefix that a value stands for does not depend on the comment.
  abbrev plain : Entry ip → Entry ip
  plain e = record { prefix = e.prefix; comment = [] }

  with_prefix-plain :
      (x : WhitelistError) (c : Text) (o : Option ip.Prefix) {e : Entry ip}
      → with_prefix ip x c o ≡ ok e
      → with_prefix ip x [] o ≡ ok (plain e)
  with_prefix-plain x c none h = absurd (cc)
  with_prefix-plain x c (some p) h =
      ap (λ q. ok (record { prefix = q; comment = [] })) (ap (λ f. f.prefix) (ok-injective h))

  parse_entry-plain :
      (value comment : Text) {e : Entry ip}
      → parse_entry ip value comment ≡ ok e
      → parse_entry ip value [] ≡ ok (plain e)
  unfolding parse_entry
  parse_entry-plain value comment h =
      let v = trim_space value in
      elim (Bool-cases (is_empty v)) [
        | inl blank ↦ absurd (cc (rw blank at h))
        | inr full ↦ elim (Bool-cases (contains_any v (32 ∷ 9 ∷ 13 ∷ 10 ∷ []))) [
          | inl spaced ↦ absurd (cc (rw (full, spaced) at h))
          | inr dense ↦ elim (Bool-cases (any is_control (trim_space comment))) [
            | inl bad ↦ absurd (cc (rw (full, dense, bad) at h))
            | inr fine ↦ elim (Bool-cases (contains v (codes "/"))) [
              | inl slash ↦
                  rw (full, dense, slash, trim_nil)
                    (with_prefix-plain WhitelistError.bad_prefix (trim_space comment)
                      (prefix_of ip v) (rw (full, dense, fine, slash) at h))
              | inr bare ↦
                  rw (full, dense, bare, trim_nil)
                    (with_prefix-plain WhitelistError.bad_address (trim_space comment)
                      (address_of ip v) (rw (full, dense, fine, bare) at h))
            ]
          ]
        ]
      ]

  -- Where a prefix equals itself and `Add` has added a value, `Remove` with the value gives the
  -- list back as it was, and reports the entry that was added.
  pub remove-add :
      (entries : List (Entry ip)) (value comment : Text) {grown : List (Entry ip)} {r : Reply ip}
      → ((p : ip.Prefix) → ip.same_prefix p p ≡ true)
      → add ip (some entries) value comment ≡ ok (grown, r)
      → r.changed ≡ true
      → remove ip (some grown) value
        ≡ ok (
          entries,
          record { changed = true; entry = r.entry; entries = list ip entries; broad = false },
        )
  unfolding add remove
  remove-add entries value comment {grown} {r} same h changed =
      let (e, parsed, made) = >>=-eq-ok (parse_entry ip value comment) _ h in
      undone e (parse_entry-plain value comment parsed) (find_prefix ip e.prefix entries) refl
        (ok-injective made)
    where
      Goal : List (Entry ip) × Reply ip → Type 0
      Goal out =
          remove ip (some out.0) value
          ≡ ok (
            entries,
            record {
              changed = true;
              entry = out.1.entry;
              entries = list ip entries;
              broad = false;
            },
          )

      undone :
          (e : Entry ip)
          → parse_entry ip value [] ≡ ok (plain e)
          → (o : Option (Entry ip)) → find_prefix ip e.prefix entries ≡ o
          → added ip entries e o ≡ (grown, r)
          → Goal (grown, r)
      undone e again (some x) found made =
          absurd (cc (sym (ap (λ q. q.1.changed) made) ∙ refl, changed))
      undone e again none fresh made =
          subst Goal made
            (rw (again, take_prefix-snoc e.prefix e entries fresh (same e.prefix)) refl)
