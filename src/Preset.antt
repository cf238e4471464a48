-- ===== src/Preset.antt =====
-- internal/preset/preset.go: a configuration as one text. `encoding/json` and `encoding/base64` are the
-- parameter `Codec`.
pub mod Decoded
use cnftctl.Base.{
  ℕ, List, [], ◌∷◌, Bool, true, false, Option, none, some, Text, is_empty, trim_space, Result, ok,
  err, if◌then◌else◌,
}
use cnftctl.Config.{Config, Netip, validate}
use cnftctl.Config.File.{default}

pub data PresetError : Type 0 where
  bad_base64 bad_json trailing_data not_valid : PresetError

-- `decode` reads a document over a configuration, refuses unknown fields, and tells whether more
-- follows it.
pub record Codec : Type 0 where
  pub raw : Text → Option Text
  pub padded : Text → Option Text
  pub encode_raw : Text → Text
  pub marshal : Config → Option Text
  pub decode : Config → Text → Option (Config × Bool)

module _ (lower : ℕ → ℕ) (ip : Netip) (k : Codec) where
  -- `Validate`
  unfoldable pub is_valid : Config → Bool
  is_valid cfg = is_empty (validate lower ip cfg)

  unfoldable pub checked : Option (Config × Bool) → Result PresetError Config
  unfolding is_valid
  checked none = err bad_json
  checked (some (cfg, true)) = err trailing_data
  checked (some (cfg, false)) = if is_valid cfg then ok cfg else err not_valid

  -- `DecodeJSON`
  unfoldable pub decode_json : Text → Result PresetError Config
  unfolding checked
  decode_json text = checked (k.decode default text)

  unfoldable pub decode_padded : Option Text → Result PresetError Config
  unfolding decode_json
  decode_padded none = err bad_base64
  decode_padded (some b) = decode_json b

  unfoldable pub decode_raw : Text → Option Text → Result PresetError Config
  unfolding decode_padded
  decode_raw text none = decode_padded (k.padded text)
  decode_raw text (some b) = decode_json b

  -- `DecodeString`
  unfoldable pub decode_string : Text → Result PresetError Config
  unfolding decode_raw
  decode_string text = decode_raw (trim_space text) (k.raw (trim_space text))

  abbrev pub encoded : Option Text → Result PresetError Text
  encoded none = err bad_json
  encoded (some b) = ok (k.encode_raw b)

  -- `Encode`
  unfoldable pub encode : Config → Result PresetError Text
  unfolding is_valid
  encode cfg = if is_valid cfg then encoded (k.marshal cfg) else err not_valid
