-- ===== src/Cli/Model.antt =====
-- `command` and `flagSpec` of internal/cli/command.go. The texts of the help are left out.
use cnftctl.Base.{List, Bool, Text}

pub record FlagSpec : Type 0 where
  pub name : Text
  pub short : Text
  pub is_bool : Bool
  pub repeats : Bool
  pub default : Text
  pub exclusive : Text

-- The use, the arguments and the handler's name of a command, its flags and its children.
mutual
  pub data Command : Type 0 where
    command : (use_text args handler : Text) → List FlagSpec → Commands → Command

  pub data Commands : Type 0 where
    no_commands : Commands
    also : Command → Commands → Commands

abbrev pub use_of : Command → Text
use_of (command u a h fs cs) = u

abbrev pub args_of : Command → Text
args_of (command u a h fs cs) = a

abbrev pub handler_of : Command → Text
handler_of (command u a h fs cs) = h

abbrev pub flags_of : Command → List FlagSpec
flags_of (command u a h fs cs) = fs

abbrev pub children_of : Command → Commands
children_of (command u a h fs cs) = cs
