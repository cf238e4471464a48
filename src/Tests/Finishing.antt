-- ===== src/Tests/Finishing.antt =====
-- The theorem that an edit comes to an end, applied to the example server.
use cnftctl.Base
use cnftctl.Base.{
  List, [], ◌∷◌, Bool, true, false, some, Text, codes, Result, ok, err, ◌≡◌, refl, if◌then◌else◌,
}
use cnftctl.Host
use cnftctl.Host.Live.{IsWorking}
use cnftctl.Config
use cnftctl.Config.File
use cnftctl.Config.File.{Yaml, save, canonicalize}
use cnftctl.Ddns
use cnftctl.App.Request
use cnftctl.App.Request.{Request, root_of}
use cnftctl.App.Path
use cnftctl.App.Convert
use cnftctl.App.Change
use cnftctl.App.Change.{ddns_disable_change}
use cnftctl.App.Edit.{load_config, edit}
use cnftctl.App.Finished.{IsFinished, edit-finishes}
use cnftctl.Tests.Machine.{machine, old_generation}
use cnftctl.Tests.Configuration.{same_rune, texts, server}

-- Every text reads as the example configuration.
abbrev yaml : Yaml
yaml = record { encode = λ c. some (codes "config"); decode = λ c s. some server }

abbrev request : Request
request = record { command = codes "ddns-disable"; args = []; flags = []; environment = [] }

abbrev out : Result Change.ChangeError (Config.Config × Bool) → Config.Config × Bool
out (ok r) = r
out (err x) = (server, false)

abbrev disabled : Config.Config × Bool
disabled = out (ddns_disable_change server)

machine-IsWorking : IsWorking (machine old_generation)
machine-IsWorking = record { calls = λ t c. refl; temp = codes "/tmp/x"; temps = λ t d p. refl }

is_local : Base.is_empty (root_of request) ≡ true
unfolding root_of Request.flag Request.flag_values
is_local = refl

is_disabled : ddns_disable_change server ≡ ok disabled
unfolding ddns_disable_change Convert.ddns_config Convert.set_ddns_config Ddns.disable Base.eqb
is_disabled = refl

is_loaded : (load_config (machine old_generation) texts yaml request []).0 ≡ ok server
unfolding load_config Path.managed_path File.load_file File.load Host.perform Host.ask_text root_of
    Request.flag Request.flag_values Request.config_path File.canonicalize File.canonical_port
    File.canonical_entry File.canonical_ip File.canonical_host Config.validate Config.validate_ports
    Config.validate_port Config.valid_port Config.is_zero Config.same_key Config.validate_ssh
    Config.validate_rate Config.validate_ips Config.parse_addr_or_prefix Config.validate_host
    Config.same_host Config.is_mode Config.is_covered Config.is_hostname Config.is_label
    Config.is_label_char Config.validate_trusted Config.validate_interface Config.is_interface_name
    Config.is_interface_char Config.validate_docker Config.validate_pattern Config.is_docker_pattern
    Base.eqb Base.byte_len Base.is_control Base.to_lower Base.lower_rune Base.trim_suffix
    Base.contains Base.has_prefix Base.has_suffix Base.split Base.split_from Base.trim_space
    Base.trim_left Base.is_space
is_loaded = refl

is_saved : save (machine old_generation) texts yaml disabled.0 ≡ ok (codes "config")
unfolding save File.canonicalize File.canonical_port File.canonical_entry File.canonical_ip
    File.canonical_host Config.validate Config.validate_ports Config.validate_port Config.valid_port
    Config.is_zero Config.same_key Config.validate_ssh Config.validate_rate Config.validate_ips
    Config.parse_addr_or_prefix Config.validate_host Config.same_host Config.is_mode
    Config.is_covered Config.is_hostname Config.is_label Config.is_label_char
    Config.validate_trusted Config.validate_interface Config.is_interface_name
    Config.is_interface_char Config.validate_docker Config.validate_pattern Config.is_docker_pattern
    Base.eqb Base.byte_len Base.is_control Base.to_lower Base.lower_rune Base.trim_suffix
    Base.contains Base.has_prefix Base.has_suffix Base.split Base.split_from Base.trim_space
    Base.trim_left Base.is_space ddns_disable_change Convert.ddns_config Convert.set_ddns_config
    Ddns.disable
is_saved = refl

is_canonical : canonicalize same_rune texts disabled.0 ≡ disabled.0
unfolding canonicalize File.canonical_port File.canonical_entry File.canonical_ip
    File.canonical_host Config.parse_addr_or_prefix Base.eqb Base.to_lower Base.lower_rune
    Base.trim_suffix Base.has_suffix Base.trim_space Base.trim_left Base.is_space Base.contains
    ddns_disable_change Convert.ddns_config Convert.set_ddns_config Ddns.disable
is_canonical = refl

is_saved_again :
    save (machine old_generation) texts yaml (canonicalize same_rune texts disabled.0)
    ≡ ok (codes "config")
is_saved_again = rw is_canonical is_saved

edit-finishes_example :
    IsFinished
      (machine old_generation)
      request
      disabled.1
      (codes "config")
      (codes "config")
      (load_config (machine old_generation) texts yaml request []).1
      (edit (machine old_generation) texts yaml request ddns_disable_change [])
edit-finishes_example =
    edit-finishes (machine old_generation) machine-IsWorking texts yaml request ddns_disable_change
      [] server disabled.0 disabled.1 (codes "config") (codes "config") is_local is_loaded
      is_disabled is_saved is_saved_again
