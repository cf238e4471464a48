-- ===== src/Cli/Tree.antt =====
-- `commandTree` of internal/cli/command.go.
use cnftctl.Base.{[], ◌∷◌, true, false, Text, codes}
use cnftctl.Cli.Model.{FlagSpec, Command, command, no_commands, also}

-- A flag that is true or false, and one with a value.
abbrev switch : Text → Text → FlagSpec
switch name short = record {
  name = name;
  short = short;
  is_bool = true;
  repeats = false;
  default = [];
  exclusive = [];
}

abbrev option : Text → FlagSpec
option name = record {
  name = name;
  short = [];
  is_bool = false;
  repeats = false;
  default = [];
  exclusive = [];
}

abbrev pub status_command : Command
status_command = command (codes "status") [] (codes "status") [] no_commands

abbrev pub config_show_command : Command
config_show_command = command (codes "show") [] (codes "config show") [] no_commands

abbrev pub config_command : Command
config_command = command (codes "config") [] [] [] (also config_show_command no_commands)

abbrev pub init_command : Command
init_command =
    command (codes "init") [] (codes "init")
      (switch (codes "dry-run") []
        ∷ option (codes "wan-interface")
        ∷ switch (codes "enable-docker") []
        ∷ record {
          name = codes "trust-interface";
          short = [];
          is_bool = false;
          repeats = true;
          default = [];
          exclusive = [];
        }
        ∷ switch (codes "enable-ddns-whitelist") []
        ∷ record {
          name = codes "preset";
          short = [];
          is_bool = false;
          repeats = false;
          default = [];
          exclusive = codes "preset-source";
        }
        ∷ record {
          name = codes "preset-file";
          short = [];
          is_bool = false;
          repeats = false;
          default = [];
          exclusive = codes "preset-source";
        }
        ∷ switch (codes "yes") (codes "y")
        ∷ [])
      no_commands

abbrev pub validate_command : Command
validate_command = command (codes "validate") [] (codes "validate") [] no_commands

abbrev pub plan_command : Command
plan_command = command (codes "plan") [] (codes "plan") [] no_commands

abbrev pub apply_command : Command
apply_command =
    command (codes "apply") [] (codes "apply")
      (switch (codes "dry-run") []
        ∷ switch (codes "acknowledge-ssh-lockout-risk") []
        ∷ option (codes "reason")
        ∷ [])
      no_commands

abbrev pub confirm_command : Command
confirm_command =
    command (codes "confirm") (codes "[transaction-id]") (codes "confirm") [] no_commands

abbrev pub rollback_command : Command
rollback_command =
    command (codes "rollback") (codes "[transaction-id]") (codes "rollback") [] no_commands

abbrev pub reconcile_command : Command
reconcile_command = command (codes "reconcile") [] (codes "reconcile") [] no_commands

abbrev pub doctor_command : Command
doctor_command = command (codes "doctor") [] (codes "doctor") [] no_commands

abbrev pub transactions_list_command : Command
transactions_list_command = command (codes "list") [] (codes "transactions list") [] no_commands

abbrev pub transactions_command : Command
transactions_command =
    command (codes "transactions") [] [] [] (also transactions_list_command no_commands)

abbrev pub open_command : Command
open_command =
    command (codes "open") (codes "<tcp|udp> <port-or-range>") (codes "open")
      (option (codes "comment") ∷ []) no_commands

abbrev pub close_command : Command
close_command =
    command (codes "close") (codes "<tcp|udp> <port-or-range>") (codes "close")
      (switch (codes "strict") [] ∷ []) no_commands

abbrev pub ports_list_command : Command
ports_list_command = command (codes "list") [] (codes "ports list") [] no_commands

abbrev pub ports_command : Command
ports_command = command (codes "ports") [] [] [] (also ports_list_command no_commands)

abbrev pub whitelist_add_command : Command
whitelist_add_command =
    command (codes "add") (codes "<ip-or-cidr>") (codes "whitelist add")
      (option (codes "comment") ∷ []) no_commands

abbrev pub whitelist_remove_command : Command
whitelist_remove_command =
    command (codes "remove") (codes "<ip-or-cidr>") (codes "whitelist remove")
      (switch (codes "strict") [] ∷ []) no_commands

abbrev pub whitelist_list_command : Command
whitelist_list_command = command (codes "list") [] (codes "whitelist list") [] no_commands

abbrev pub whitelist_command : Command
whitelist_command = command (codes "whitelist") [] [] [] (
    also whitelist_add_command
      (also whitelist_remove_command (also whitelist_list_command no_commands)))

abbrev pub ddns_enable_command : Command
ddns_enable_command = command (codes "enable") [] (codes "ddns enable") [] no_commands

abbrev pub ddns_disable_command : Command
ddns_disable_command = command (codes "disable") [] (codes "ddns disable") [] no_commands

abbrev pub ddns_add_command : Command
ddns_add_command = command (codes "add") (codes "<hostname>") (codes "ddns add") [] no_commands

abbrev pub ddns_remove_command : Command
ddns_remove_command =
    command (codes "remove") (codes "<hostname>") (codes "ddns remove")
      (switch (codes "strict") [] ∷ []) no_commands

abbrev pub ddns_refresh_command : Command
ddns_refresh_command = command (codes "refresh") [] (codes "ddns refresh") [] no_commands

abbrev pub ddns_status_command : Command
ddns_status_command = command (codes "status") [] (codes "ddns status") [] no_commands

abbrev pub ddns_timer_status_command : Command
ddns_timer_status_command = command (codes "status") [] (codes "ddns timer status") [] no_commands

abbrev pub ddns_timer_command : Command
ddns_timer_command = command (codes "timer") [] [] [] (also ddns_timer_status_command no_commands)

abbrev pub ddns_set_ipv6_prefix_len_command : Command
ddns_set_ipv6_prefix_len_command =
    command (codes "set-ipv6-prefix-len") (codes "<56|64>") (codes "ddns set-ipv6-prefix-len") []
      no_commands

abbrev pub ddns_command : Command
ddns_command = command (codes "ddns") [] [] [] (
    also ddns_enable_command (
      also ddns_disable_command (
        also ddns_add_command (
          also ddns_remove_command (
            also ddns_refresh_command (
              also ddns_status_command
                (also ddns_timer_command (also ddns_set_ipv6_prefix_len_command no_commands))))))))

abbrev pub ssh_harden_open_command : Command
ssh_harden_open_command = command (codes "open") [] (codes "ssh-harden open") [] no_commands

abbrev pub ssh_harden_whitelist_only_command : Command
ssh_harden_whitelist_only_command =
    command (codes "whitelist-only") [] (codes "ssh-harden whitelist-only")
      (switch (codes "force") [] ∷ []) no_commands

abbrev pub ssh_harden_whitelist_rate_limit_command : Command
ssh_harden_whitelist_rate_limit_command =
    command (codes "whitelist-rate-limit") [] (codes "ssh-harden whitelist-rate-limit")
      (switch (codes "force") [] ∷ []) no_commands

abbrev pub ssh_harden_command : Command
ssh_harden_command = command (codes "ssh-harden") [] [] [] (
    also ssh_harden_open_command (
      also ssh_harden_whitelist_only_command
        (also ssh_harden_whitelist_rate_limit_command no_commands)))

abbrev pub feature_enable_command : Command
feature_enable_command =
    command (codes "enable") (codes "<docker|trusted-interface>") (codes "feature enable")
      (record {
        name = codes "interface";
        short = codes "i";
        is_bool = false;
        repeats = true;
        default = [];
        exclusive = [];
      }
        ∷ [])
      no_commands

abbrev pub feature_disable_command : Command
feature_disable_command =
    command (codes "disable") (codes "<docker|trusted-interface>") (codes "feature disable")
      (record {
        name = codes "interface";
        short = codes "i";
        is_bool = false;
        repeats = true;
        default = [];
        exclusive = [];
      }
        ∷ [])
      no_commands

abbrev pub feature_command : Command
feature_command =
    command (codes "feature") [] [] []
      (also feature_enable_command (also feature_disable_command no_commands))

abbrev pub docker_status_command : Command
docker_status_command =
    command (codes "status") [] (codes "docker status") (option (codes "daemon-json") ∷ [])
      no_commands

abbrev pub docker_backend_plan_command : Command
docker_backend_plan_command =
    command (codes "plan") [] (codes "docker backend plan") (option (codes "daemon-json") ∷ [])
      no_commands

abbrev pub docker_backend_write_command : Command
docker_backend_write_command =
    command (codes "write") [] (codes "docker backend write")
      (option (codes "daemon-json") ∷ switch (codes "yes") (codes "y") ∷ []) no_commands

abbrev pub docker_backend_command : Command
docker_backend_command =
    command (codes "backend") [] [] []
      (also docker_backend_plan_command (also docker_backend_write_command no_commands))

abbrev pub docker_command : Command
docker_command =
    command (codes "docker") [] [] []
      (also docker_status_command (also docker_backend_command no_commands))

abbrev pub adopt_reference_command : Command
adopt_reference_command =
    command (codes "reference") [] (codes "adopt reference")
      (switch (codes "dry-run") [] ∷ switch (codes "yes") (codes "y") ∷ []) no_commands

abbrev pub adopt_command : Command
adopt_command = command (codes "adopt") [] [] [] (also adopt_reference_command no_commands)

abbrev pub preset_decode_command : Command
preset_decode_command =
    command (codes "decode") (codes "<preset>") (codes "preset decode") [] no_commands

abbrev pub preset_validate_command : Command
preset_validate_command =
    command (codes "validate") (codes "<file>") (codes "preset validate") [] no_commands

abbrev pub preset_explain_command : Command
preset_explain_command =
    command (codes "explain") (codes "<file>") (codes "preset explain") [] no_commands

abbrev pub preset_command : Command
preset_command = command (codes "preset") [] [] [] (
    also preset_decode_command
      (also preset_validate_command (also preset_explain_command no_commands)))

abbrev pub command_tree : Command
command_tree =
    command (codes "cnftctl") [] []
      (switch (codes "help") (codes "h")
        ∷ switch (codes "version") []
        ∷ record {
          name = codes "config";
          short = [];
          is_bool = false;
          repeats = false;
          default = codes "/etc/cnftctl/config.yaml";
          exclusive = [];
        }
        ∷ option (codes "root")
        ∷ option (codes "output")
        ∷ switch (codes "detail") []
        ∷ [])
      (also status_command (
        also config_command (
          also init_command (
            also validate_command (
              also plan_command (
                also apply_command (
                  also confirm_command (
                    also rollback_command (
                      also reconcile_command (
                        also doctor_command (
                          also transactions_command (
                            also open_command (
                              also close_command (
                                also ports_command (
                                  also whitelist_command (
                                    also ddns_command (
                                      also ssh_harden_command (
                                        also feature_command (
                                          also docker_command (
                                            also adopt_command
                                              (also preset_command no_commands)))))))))))))))))))))
