-- ===== src/Tests/Policies.antt =====
-- The theorems on changes of the configuration and on presets, applied to the example server.
use cnftctl.Base
use cnftctl.Base.{
  ℕ, List, [], ◌∷◌, Bool, true, false, Option, none, some, All, Text, codes, eqb, Result, ok, err,
  ◌≡◌, ◌≢◌, ◌⊎◌, ◌↔◌, refl, inl, inr, if◌then◌else◌, trim_space,
}
use cnftctl.Config
use cnftctl.Config.{validate}
use cnftctl.Config.Accepted.{IsOpenPort, validate-IsAccepted}
use cnftctl.Config.File
use cnftctl.Config.File.{Yaml, save, canonicalize}
use cnftctl.Features
use cnftctl.Ports
use cnftctl.Preset
use cnftctl.Preset.Decoded.{decode_string-validate}
use cnftctl.App.Request.{Request}
use cnftctl.App.Convert
use cnftctl.App.Convert.{Texts}
use cnftctl.App.Change
use cnftctl.App.Change.{open_change, close_change, ssh_mode_change}
use cnftctl.App.Hardened.{ssh_mode_change-save}
use cnftctl.App.Refined.{ports_of, IsOpened, IsClosed, open_change-IsOpened, close_change-IsClosed}
use cnftctl.Tests.Machine.{machine, old_generation}
use cnftctl.Tests.Configuration.{same_rune, texts, server, is_fine}

-- Every text reads as the example configuration.
abbrev yaml : Yaml
yaml = record { encode = λ c. some (codes "config"); decode = λ c s. some server }

abbrev request : Request
request = record {
  command = codes "open";
  args = codes "tcp" ∷ codes "443" ∷ [];
  flags = (codes "root", codes "/mnt" ∷ []) ∷ [];
  environment = (codes "SSH_CONNECTION", codes "10.0.0.1 5000 10.0.0.9 22") ∷ [];
}

abbrev out : Result Change.ChangeError (Config.Config × Bool) → Config.Config × Bool
out (ok r) = r
out (err x) = (server, false)

server_ports : All IsOpenPort server.open_ports
server_ports = (validate-IsAccepted same_rune texts server is_fine).ports

abbrev opened : Config.Config × Bool
opened = out (open_change same_rune (codes "tcp") (codes "443") [] server)

is_opened : open_change same_rune (codes "tcp") (codes "443") [] server ≡ ok opened
unfolding open_change Convert.ports_config Convert.set_ports_config Convert.port_entry
    Convert.open_port_of Convert.uint16 Ports.open_port Ports.open_entry Ports.parse_entry
    Ports.parse_port_spec Ports.parse_parts Ports.parse_port Ports.port_of Ports.find_same
    Ports.same_port Ports.list Ports.port_leq Base.sort Base.insert_sorted Base.eqb Base.leq_text
    Base.trim_space Base.trim_left Base.is_space Base.to_lower Base.lower_rune Base.split
    Base.split_from Base.atoi Base.digits Base.digits_from Base.in_range Base.is_control
is_opened = refl

open_change-IsOpened_example :
    (e : Ports.Entry) × (Ports.parse_entry same_rune (codes "tcp") (codes "443") [] ≡ ok e)
    × IsOpened e (ports_of server) (ports_of opened.0) opened.1
    × (opened.0 ≡ record server { open_ports = opened.0.open_ports })
open_change-IsOpened_example =
    open_change-IsOpened same_rune (codes "tcp") (codes "443") [] server server_ports is_opened

abbrev shut : Config.Config × Bool
shut = out (close_change same_rune (codes "udp") (codes "53") true server)

is_shut : close_change same_rune (codes "udp") (codes "53") true server ≡ ok shut
unfolding close_change Convert.ports_config Convert.set_ports_config Convert.port_entry
    Convert.open_port_of Convert.uint16 Ports.close_port Ports.close_entry Ports.parse_entry
    Ports.parse_port_spec Ports.parse_parts Ports.parse_port Ports.port_of Ports.take_out
    Ports.same_port Ports.list Ports.port_leq Base.sort Base.insert_sorted Base.eqb Base.leq_text
    Base.trim_space Base.trim_left Base.is_space Base.to_lower Base.lower_rune Base.split
    Base.split_from Base.atoi Base.digits Base.digits_from Base.in_range Base.is_control
is_shut = refl

close_change-IsClosed_example :
    (e : Ports.Entry) × (Ports.parse_entry same_rune (codes "udp") (codes "53") [] ≡ ok e)
    × IsClosed e (ports_of server) (ports_of shut.0) shut.1
    × (shut.0 ≡ record server { open_ports = shut.0.open_ports })
close_change-IsClosed_example =
    close_change-IsClosed same_rune (codes "udp") (codes "53") true server server_ports is_shut

abbrev mode : Text
mode = codes "whitelist-rate-limit"

abbrev limited : Config.Config × Bool
limited = out (ssh_mode_change mode true server)

is_limited : ssh_mode_change mode true server ≡ ok limited
unfolding ssh_mode_change Convert.features_config Features.set_ssh_mode Features.has_coverage
    Features.is_mode Base.eqb
is_limited = refl

is_saved : save (machine old_generation) texts yaml limited.0 ≡ ok (codes "config")
unfolding save File.canonicalize File.canonical_port File.canonical_entry File.canonical_ip
    File.canonical_host Config.validate Config.validate_ports Config.validate_port Config.valid_port
    Config.is_zero Config.same_key Config.validate_ssh Config.validate_rate Config.validate_ips
    Config.parse_addr_or_prefix Config.validate_host Config.same_host Config.is_mode
    Config.is_covered Config.is_hostname Config.is_label Config.is_label_char
    Config.validate_trusted Config.validate_interface Config.is_interface_name
    Config.is_interface_char Config.validate_docker Config.validate_pattern Config.is_docker_pattern
    Base.eqb Base.byte_len Base.is_control Base.to_lower Base.lower_rune Base.trim_suffix
    Base.contains Base.has_prefix Base.has_suffix Base.split Base.split_from Base.trim_space
    Base.trim_left Base.is_space ssh_mode_change Convert.features_config Features.set_ssh_mode
    Features.has_coverage Features.is_mode
is_saved = refl

ssh_mode_change-save_example :
    ((mode ≡ Features.mode_open) ⊎ (Config.is_covered same_rune texts server.ssh ≡ true))
    × ((mode ≡ Features.mode_rate_limit) ⊎ (server.ssh.rate_limit ≡ none))
ssh_mode_change-save_example =
    ssh_mode_change-save (machine old_generation) texts yaml mode true server is_limited is_saved

-- The text of a document is its own base64; only the text of the server is known.
abbrev preset_codec : Preset.Codec
preset_codec = record {
  raw = λ s. some s;
  padded = λ s. none;
  encode_raw = λ s. s;
  marshal = λ c. none;
  decode = λ c s. some (server, false);
}

is_preset : Preset.decode_string same_rune texts preset_codec (codes "e30") ≡ ok server
unfolding Preset.decode_string Preset.decode_raw Preset.decode_json Preset.checked Preset.is_valid
    Base.trim_space Base.trim_left Base.is_space
is_preset = rw is_fine refl

decode_string-validate_example : validate same_rune texts server ≡ []
decode_string-validate_example =
    decode_string-validate same_rune texts preset_codec (codes "e30") is_preset
