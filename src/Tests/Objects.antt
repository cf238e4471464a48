-- ===== src/Tests/Objects.antt =====
-- A codec of objects that reads back all that it writes: a number stands before what it counts.
use cnftctl.Base.{
  ℕ, zero, suc, [], ◌∷◌, ◌++◌, false, Option, none, some, Text, length, is_empty, ◌≡◌, refl, ap,
}
use cnftctl.Docker.{Json, Object, Value, put, backend_key, nftables}
use cnftctl.Docker.Planned.{IsDocument, IsKept}

abbrev cons_text : ℕ → Option (Text × Text) → Option (Text × Text)
cons_text c none = none
cons_text c (some (s, rest)) = some (c ∷ s, rest)

unfoldable pub split_at : ℕ → Text → Option (Text × Text)
split_at zero t = some ([], t)
split_at (suc n) [] = none
split_at (suc n) (c ∷ t) = cons_text c (split_at n t)

split_at-append : (s rest : Text) → split_at (length s) (s ++ rest) ≡ some (s, rest)
unfolding split_at
split_at-append [] rest = refl
split_at-append (c ∷ s) rest = rw (split_at-append s rest) refl

abbrev tag : Value → ℕ
tag (Value.string s) = 0
tag (Value.other s) = 1

abbrev text_of : Value → Text
text_of (Value.string s) = s
text_of (Value.other s) = s

abbrev value_of : ℕ → Text → Value
value_of zero s = Value.string s
value_of (suc n) s = Value.other s

value_of-tag : (v : Value) → value_of (tag v) (text_of v) ≡ v
value_of-tag (Value.string s) = refl
value_of-tag (Value.other s) = refl

unfoldable pub encode_entries : Object → Text
encode_entries [] = []
encode_entries ((k, v) ∷ o) =
    tag v ∷ length k ∷ (k ++ (length (text_of v) ∷ (text_of v ++ encode_entries o)))

abbrev cons_entry : Text → Value → Option Object → Option Object
cons_entry k v none = none
cons_entry k v (some o) = some ((k, v) ∷ o)

-- The entry whose key was read, and those behind it.
abbrev with_value : (Text → Option Object) → ℕ → Text → Option (Text × Text) → Option Object
with_value f t k none = none
with_value f t k (some (s, rest)) = cons_entry k (value_of t s) (f rest)

abbrev with_key : (Text → Option Object) → ℕ → Option (Text × Text) → Option Object
with_key f t none = none
with_key f t (some (k, [])) = none
with_key f t (some (k, m ∷ rest)) = with_value f t k (split_at m rest)

unfoldable pub decode_entries : ℕ → Text → Option Object
unfolding split_at
decode_entries zero s = some []
decode_entries (suc n) (t ∷ l ∷ s) = with_key (λ r. decode_entries n r) t (split_at l s)
decode_entries (suc n) _ = none

decode-encode : (o : Object) → decode_entries (length o) (encode_entries o) ≡ some o
unfolding decode_entries encode_entries
decode-encode [] = refl
decode-encode ((k, v) ∷ o) =
    rw (split_at-append k (length (text_of v) ∷ (text_of v ++ encode_entries o))) (
      rw (split_at-append (text_of v) (encode_entries o))
        (rw (decode-encode o, value_of-tag v) refl))

abbrev an_object : Option Object → Option (Option Object)
an_object none = none
an_object (some o) = some (some o)

abbrev decode_counted : Text → Option (Option Object)
decode_counted [] = none
decode_counted (n ∷ s) = an_object (decode_entries n s)

abbrev pub counted : Json
counted = record { encode = λ o. length o ∷ encode_entries o; decode = λ s. decode_counted s }

counted_law : (o : Object) → counted.decode (counted.encode o) ≡ some (some o)
counted_law o = ap an_object (decode-encode o)

pub counted-IsKept :
    (o : Object) → IsDocument counted o → IsKept counted (put backend_key (Value.string nftables) o)
counted-IsKept o d =
    let after = put backend_key (Value.string nftables) o in (after, counted_law after, λ k. refl)

pub counted_full : (o : Object) → is_empty (counted.encode o) ≡ false
counted_full o = refl
