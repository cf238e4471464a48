-- ===== src/Cli/Handled.antt =====
-- Every command line of the program that is accepted is one that the service implements.
use mathlib.Core.Path.{subst}
use cnftctl.Base.{
  List, [], ◌∷◌, Bool, true, false, ◌||◌, ◌&&◌, Text, codes, is_empty, Result, ok, ◌≡◌, refl, sym,
  inl, inr,
}
use cnftctl.App.Request
use cnftctl.App.Request.{is_command}
use cnftctl.Base
use cnftctl.Cli.{
  Command, Commands, command, no_commands, also, children_of, handler_of, Parsed, parse,
}
use cnftctl.Cli.Reached.{IsChild, Reaches, parse-IsReached}
use cnftctl.Cli.Tree.{command_tree}

unfoldable mutual
  all_handlers : (Text → Bool) → Command → Bool
  all_handlers p (command u a h fs cs) = p h && all_children p cs

  all_children : (Text → Bool) → Commands → Bool
  all_children p no_commands = true
  all_children p (also c cs) = all_handlers p c && all_children p cs

both : (a b : Bool) → (a && b) ≡ true → (a ≡ true) × (b ≡ true)
both true b h = (refl, h)
both false b h = absurd (cc)

child-all :
    (p : Text → Bool) (d : Command) (cs : Commands)
    → IsChild d cs
    → all_children p cs ≡ true
    → all_handlers p d ≡ true
unfolding all_children all_handlers
child-all p d no_commands i h = absurd i
child-all p d (also c cs) (inl same) h =
    subst (λ z. all_handlers p z ≡ true) (sym same) (both (all_handlers p c) _ h).0
child-all p d (also c cs) (inr i) h = child-all p d cs i (both (all_handlers p c) _ h).1

children-all :
    (p : Text → Bool) (c : Command)
    → all_handlers p c ≡ true
    → all_children p (children_of c) ≡ true
unfolding all_handlers
children-all p (command u a h fs cs) q = (both (p h) _ q).1

handler-all : (p : Text → Bool) (c : Command) → all_handlers p c ≡ true → p (handler_of c) ≡ true
unfolding all_handlers
handler-all p (command u a h fs cs) q = (both (p h) _ q).0

reached-all :
    (p : Text → Bool) (root : Command) {path : List Text} {c : Command}
    → Reaches root path c
    → all_handlers p root ≡ true
    → all_handlers p c ≡ true
reached-all p root Reaches.at_root h = h
reached-all p root (Reaches.down q path c d r i same) h =
    child-all p d (children_of c) i (children-all p c (reached-all p root r h))

-- No handler, or one that `Run` of the service knows.
abbrev pub is_handled : Text → Bool
is_handled h = is_empty h || is_command h

tree_handled : all_handlers is_handled command_tree ≡ true
unfolding all_handlers all_children is_command Request.has_value Base.eqb
tree_handled = refl

-- Whatever the arguments, a command line that the program's tree of commands accepts is answered
-- with help, or by a command that the service's `Run` implements.
pub parse-is_handled :
    (args : List Text) {r : Parsed}
    → parse command_tree args ≡ ok r
    → is_handled (handler_of r.command) ≡ true
parse-is_handled args {r} h =
    handler-all is_handled r.command
      (reached-all is_handled command_tree (parse-IsReached command_tree args h).0 tree_handled)
