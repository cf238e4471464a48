-- ===== src/Preset/Decoded.antt =====
-- What a preset decodes to.
use cnftctl.Base.{
  ℕ, List, [], ◌∷◌, Bool, true, false, Option, none, some, Text, is_empty, trim_space, ok,
  ok-injective, ◌≡◌, refl, inl, inr, Bool-cases,
}
use mathlib.Core.Path.{subst}
use cnftctl.Config.{Config, Netip, validate, ValidationError}
use cnftctl.Config.File.{default}
use cnftctl.Preset.{Codec, checked, decode_padded, decode_raw, decode_string}

module _ (lower : ℕ → ℕ) (ip : Netip) (k : Codec) where
  empty : (xs : List ValidationError) → is_empty xs ≡ true → xs ≡ []
  empty [] h = refl
  empty (x ∷ xs) h = absurd (cc)

  checked-validate :
      (o : Option (Config × Bool)) {cfg : Config}
      → checked lower ip k o ≡ ok cfg
      → validate lower ip cfg ≡ []
  unfolding checked
  checked-validate none h = absurd (cc)
  checked-validate (some (c, true)) h = absurd (cc)
  checked-validate (some (c, false)) h = elim (Bool-cases (is_empty (validate lower ip c))) [
    | inl fine ↦ subst (λ n. validate lower ip n ≡ []) (ok-injective (rw fine at h)) (empty _ fine)
    | inr wrong ↦ absurd (cc (rw wrong at h))
  ]

  padded-validate :
      (o : Option Text) {cfg : Config}
      → decode_padded lower ip k o ≡ ok cfg
      → validate lower ip cfg ≡ []
  unfolding decode_padded
  padded-validate none h = absurd (cc)
  padded-validate (some b) h = checked-validate (k.decode default b) h

  raw-validate :
      (text : Text) (o : Option Text) {cfg : Config}
      → decode_raw lower ip k text o ≡ ok cfg
      → validate lower ip cfg ≡ []
  unfolding decode_raw
  raw-validate text none h = padded-validate (k.padded text) h
  raw-validate text (some b) h = checked-validate (k.decode default b) h

  -- A preset that decodes holds a configuration without validation errors.
  pub decode_string-validate :
      (text : Text) {cfg : Config}
      → decode_string lower ip k text ≡ ok cfg
      → validate lower ip cfg ≡ []
  unfolding decode_string
  decode_string-validate text h = raw-validate (trim_space text) (k.raw (trim_space text)) h
