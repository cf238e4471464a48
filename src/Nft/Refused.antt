-- ===== src/Nft/Refused.antt =====
-- What `ReplaceSets` refuses.
use cnftctl.Base.{
  List, [], ◌∷◌, Bool, true, false, ◌||◌, none, Text, err, ◌≡◌, refl, inl, inr, arith, Bool-cases,
}
use cnftctl.Host.{Env, Trace, message}
use cnftctl.Nft.{SetReplacement, is_bad_identifier, sets_batch, load_sets, replace_sets}

-- One of the names is refused.
abbrev pub is_any_bad : List SetReplacement → Bool
is_any_bad [] = false
is_any_bad (r ∷ rs) = is_bad_identifier r.name || is_any_bad rs

bad_batch :
    (family table : Text) (rs : List SetReplacement)
    → is_any_bad rs ≡ true
    → sets_batch family table rs ≡ none
unfolding sets_batch
bad_batch family table [] h = absurd (cc)
bad_batch family table (r ∷ rs) h = elim (Bool-cases (is_bad_identifier r.name)) [
  | inl bad ↦ rw bad refl
  | inr fine ↦ rw (fine, bad_batch family table rs (rw fine at h)) refl
]

-- With a family, a table or a set whose name is empty or holds one of the refused characters,
-- `ReplaceSets` fails before it makes any call.
pub replace_sets_refused :
    (e : Env) (family table : Text) (rs : List SetReplacement) (t : Trace)
    → (is_bad_identifier family || is_bad_identifier table || is_any_bad rs) ≡ true
    → replace_sets e family table rs t ≡ (err (message "invalid nft set identifier"), t)
unfolding replace_sets load_sets
replace_sets_refused e family table rs t h =
    elim (Bool-cases (is_bad_identifier family || is_bad_identifier table)) [
      | inl bad ↦ rw bad refl
      | inr fine ↦ rw (fine, bad_batch family table rs (last _ _ _ fine h)) refl
    ]
  where
    last : (a b c : Bool) → (a || b) ≡ false → (a || b || c) ≡ true → c ≡ true
    last a b c p q = ground arith
