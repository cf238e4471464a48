-- ===== src/Tests/Arguments.antt =====
-- The theorems on command lines, applied to one.
use cnftctl.Base
use cnftctl.Base.{List, [], ◌∷◌, Bool, true, false, Text, codes, Result, ok, err, ◌≡◌, refl}
use cnftctl.Cli
use cnftctl.Cli.{Parsed, handler_of, parse}
use cnftctl.Cli.Reached.{Reaches, FitsCommand, parse-IsReached}
use cnftctl.Cli.Handled.{is_handled, parse-is_handled}
use cnftctl.Cli.Tree.{command_tree}

abbrev words : List Text
words = codes "open" ∷ codes "--comment=web" ∷ codes "tcp" ∷ codes "80" ∷ []

abbrev read : Result Cli.CliError Parsed → Parsed
read (ok s) = s
read (err x) = Cli.start command_tree

is_parsed : parse command_tree words ≡ ok (read (parse command_tree words))
unfolding parse Cli.parse_from Cli.step Cli.is_flag Cli.add_flag Cli.find_child Cli.collect_flags
    Cli.add_specs Cli.put_spec Cli.look_up_spec Cli.values Cli.append_value Cli.parse_flag
    Cli.name_value Cli.cut_equals Cli.flag_value Cli.next_value Cli.with_defaults Cli.finish
    Cli.finish_as Cli.check_command Cli.is_bad_arity Cli.positional_arity Cli.arity_of Cli.conflicts
    Cli.group_of Cli.asks_report Cli.is_reporting Cli.remove_key Base.eqb Base.has_prefix
    Base.fields Base.fields_from Base.field_before Base.is_space Base.trim_space Base.trim_left
is_parsed = refl

parse-IsReached_example :
    Reaches command_tree
      (read (parse command_tree words)).path
      (read (parse command_tree words)).command
    × ((read (parse command_tree words)).version ≡ false
        → (read (parse command_tree words)).help ≡ false
        → FitsCommand (read (parse command_tree words)))
parse-IsReached_example = parse-IsReached command_tree words is_parsed

parse-is_handled_example : is_handled (handler_of (read (parse command_tree words)).command) ≡ true
parse-is_handled_example = parse-is_handled words is_parsed
