-- ===== src/Apply/Quiet.antt =====
-- Which calls restart the firewall service. The children show that all of `Apply` but
-- `ActivateFirewall` makes none, program by program.
pub mod Units
pub mod Files
pub mod State
pub mod Undo
use cnftctl.Base.{List, [], ◌∷◌, Bool, false, ◌&&◌, ◌≡◌, Text, codes, eqb}
use cnftctl.Host.{Call, run}
use cnftctl.Systemd.{systemctl}

abbrev pub is_restart : List Text → Bool
is_restart [] = false
is_restart (verb ∷ args) = eqb verb (codes "restart")

-- `systemctl restart …`, which `ActivateFirewall` alone runs.
abbrev pub is_activation : Call → Bool
is_activation (run name args) = eqb name systemctl && is_restart args
is_activation _ = false

abbrev pub IsQuiet : Call → Type 0
IsQuiet c = is_activation c ≡ false
