-- ===== src/Tests/Commands.antt =====
-- The theorems on the commands, applied to requests on the example machine.
use cnftctl.Base
use cnftctl.Base.{
  ℕ, List, [], ◌∷◌, Bool, true, false, Option, none, some, All, is_empty, Text, codes, eqb, Result,
  ok, err, ◌≡◌, ◌≢◌, ◌⊎◌, ◌↔◌, refl, not, inl, inr, if◌then◌else◌, trim_space,
}
use cnftctl.Host.{Call, Trace, read_all}
use cnftctl.Host.Guard.{IsGuarded}
use cnftctl.Host.Trace.{Only}
use cnftctl.Config.File.{Yaml}
use cnftctl.Config.Saved.{NeedValid}
use cnftctl.Preset
use cnftctl.App.Request
use cnftctl.App.Request.{Request, root_of}
use cnftctl.App.Report
use cnftctl.App.Report.{Check, State, finish_report, new_report, overall_state}
use cnftctl.App.Reported.{
  Below, IsFound, IsHarmless, IsShown, overall_state-worst, finish_report_iff,
}
use cnftctl.App.Path
use cnftctl.App.Path.{managed_path}
use cnftctl.App.Contained.{IsManaged, managed_path-IsManaged}
use cnftctl.App.Convert.{Texts}
use cnftctl.App.Change.{open_change}
use cnftctl.App.Edit.{edit, open_command}
use cnftctl.App.Saved.{edit-IsGuarded}
use cnftctl.App.Coverage
use cnftctl.App.Coverage.{Network, check_ssh_session_coverage, connection_of}
use cnftctl.App.Covered.{IsCovered, IsAcknowledged, check_ssh_session_coverage-IsCovered}
use cnftctl.App.Run.{dropped, run_request}
use cnftctl.App.Offline.{IsOffline, run_request-Offline}
use cnftctl.Tests.Machine.{machine, codec, old_generation}
use cnftctl.Tests.Configuration.{same_rune, texts, server}
use cnftctl.Tests.Addresses.{digits}
use cnftctl.Tests.Objects.{counted}

-- Every text reads as the example configuration.
abbrev yaml : Yaml
yaml = record { encode = λ c. some (codes "config"); decode = λ c s. some server }

abbrev request : Request
request = record {
  command = codes "open";
  args = codes "tcp" ∷ codes "443" ∷ [];
  flags = (codes "root", codes "/mnt" ∷ []) ∷ [];
  environment = (codes "SSH_CONNECTION", codes "10.0.0.1 5000 10.0.0.9 22") ∷ [];
}

edit-IsGuarded_example :
    IsGuarded
      (NeedValid (machine old_generation) texts yaml)
      (edit
        (machine old_generation)
        texts
        yaml
        request
        (open_change same_rune (codes "tcp") (codes "443") [])
        []).1
edit-IsGuarded_example =
    edit-IsGuarded (machine old_generation) texts yaml request
      (open_change same_rune (codes "tcp") (codes "443") [])

abbrev checks : List Check
checks =
    record { id = codes "config.valid"; state = State.fine; code = [] }
    ∷ record { id = codes "transactions.pending"; state = State.pending; code = codes "pending" }
    ∷ []

overall_state-worst_example :
    All (Below (overall_state checks)) checks × IsFound (overall_state checks) checks State.fine
overall_state-worst_example = overall_state-worst checks

-- Reports can be written without details.
abbrev encoder : Report.Encoder
encoder = λ detail r. not detail

finish_report_iff_example :
    (finish_report encoder request (new_report request.command checks) ≡ ok tt) ↔ (
      IsShown encoder
        (Request.flag request (codes "output"))
        (Request.bool_flag request (codes "detail"))
        (new_report request.command checks)
      × All IsHarmless checks)
finish_report_iff_example = finish_report_iff encoder request checks

-- The path that the machine gives for the configuration.
abbrev managed : Text
managed = codes "/tmp/x/config.yaml"

is_managed :
    (managed_path
      (machine old_generation)
      (codes "/mnt")
      (codes "/etc/cnftctl/config.yaml")
      true
      []).0
    ≡ ok managed
unfolding managed_path Path.managed_below Path.check_texts Path.resolve_parent Path.check_target
    Path.is_outside Path.rel Path.elements Path.non_empty Path.strip_common Base.clean
    Base.clean_from Base.up Base.is_rooted Base.join Base.join_path Base.dir Base.base Base.base_of
    Base.drop_element Base.drop_slashes Base.take_element Base.split Base.split_from Base.eqb
    Base.has_prefix cnftctl.Host.perform cnftctl.Host.ask_text cnftctl.Host.is_not_exist
is_managed = refl

managed_path-IsManaged_example :
    IsManaged (machine old_generation) (codes "/mnt") (codes "/etc/cnftctl/config.yaml") managed
managed_path-IsManaged_example =
    managed_path-IsManaged (machine old_generation) (codes "/mnt")
      (codes "/etc/cnftctl/config.yaml") true [] refl is_managed

-- A network in which an address is a number and a prefix holds one address.
abbrev network : Network
network = record {
  Addr = ℕ;
  Prefix = ℕ;
  parse_addr = λ s. if eqb s (codes "10.0.0.1") then some 1 else some 2;
  parse_prefix = λ s. none;
  same = λ a b. Base.◌==◌ a b;
  is6 = λ a. false;
  contains = λ p a. Base.◌==◌ p a;
  masked = λ a n. a;
  addr = λ p. p;
  lookup_a = λ host. [];
  lookup_aaaa = λ host. [];
  interface_addrs = λ name. [];
}

abbrev connection : List Text
connection = codes "5000" ∷ codes "10.0.0.9" ∷ codes "22" ∷ []

is_hardened : server.ssh.mode ≢ codes "open"
is_hardened h = cc

is_connected : connection_of network request ≡ codes "10.0.0.1" ∷ connection
unfolding connection_of Request.variable Request.variable_in Base.fields Base.fields_from
    Base.field_before Base.is_space Base.eqb
is_connected = refl

is_passed : check_ssh_session_coverage network server request ≡ ok tt
unfolding check_ssh_session_coverage Coverage.check_connection Coverage.check_client
    Coverage.is_covered Coverage.covers Coverage.acknowledged Coverage.covers_host
    Coverage.covers_addr Coverage.serves Coverage.server_of connection_of Request.variable
    Request.variable_in Base.fields Base.fields_from Base.field_before Base.is_space Base.eqb
is_passed = refl

check_ssh_session_coverage-IsCovered_example :
    (client : ℕ) × (network.parse_addr (codes "10.0.0.1") ≡ some client)
    × (IsCovered network server (codes "10.0.0.1" ∷ connection) client
        ⊎ IsAcknowledged network request)
check_ssh_session_coverage-IsCovered_example =
    check_ssh_session_coverage-IsCovered network server request (codes "10.0.0.1") connection
      is_hardened is_connected is_passed

abbrev preset_codec : Preset.Codec
preset_codec = record {
  raw = λ s. none;
  padded = λ s. none;
  encode_raw = λ s. s;
  marshal = λ c. none;
  decode = λ c s. none;
}

abbrev printer : Texts digits
printer = record { addr_text = λ a. []; prefix_text = λ p. []; bit_len = λ a. 32 }

is_offline : is_empty (root_of request) ≡ false
unfolding root_of Request.flag Request.values_of Request.last_value Base.eqb
is_offline = refl

is_run :
    run_request
      (machine old_generation)
      (codec old_generation)
      texts
      yaml
      digits
      printer
      counted
      preset_codec
      (λ t. [])
      request
    ≡ some (dropped (open_command (machine old_generation) texts yaml request))
unfolding run_request cnftctl.App.Run.find_program Request.is_refused Request.is_live
    Request.bool_flag root_of Request.flag Request.values_of Request.last_value Base.eqb
is_run = refl

run_request-Offline_example :
    Only IsOffline (dropped (open_command (machine old_generation) texts yaml request))
run_request-Offline_example =
    run_request-Offline (machine old_generation) texts yaml digits printer counted preset_codec
      (λ t. []) (codec old_generation) request is_offline is_run
