-- ===== src/App/Report.antt =====
-- internal/app/operational.go: checks, and the report of a command. A check's summary and its detail
-- are left out, and so is the text of a report. The JSON encoder is the parameter `Encoder`.
use cnftctl.Base.{
  ℕ, List, [], ◌∷◌, Bool, true, false, ◌||◌, Text, codes, eqb, is_empty, ltb, Result, ok, err,
  if◌then◌else◌,
}
use cnftctl.App.Request.{Request, flag, bool_flag}

pub data State : Type 0 where
  fine absent pending degraded failed unknown unsupported not_applicable : State

pub record Check : Type 0 where
  pub id : Text
  pub state : State
  pub code : Text

pub record Report : Type 0 where
  pub command : Text
  pub state : State
  pub checks : List Check

-- The map `rank` of `overallState`.
unfoldable pub rank : State → ℕ
rank fine = 0
rank not_applicable = 0
rank absent = 2
rank pending = 3
rank degraded = 4
rank unsupported = 5
rank unknown = 6
rank failed = 7

unfoldable pub worse : State → State → State
unfolding rank
worse now s = if ltb (rank now) (rank s) then s else now

unfoldable pub overall_from : State → List Check → State
unfolding worse
overall_from now [] = now
overall_from now (c ∷ checks) = overall_from (worse now c.state) checks

-- `overallState`
unfoldable pub overall_state : List Check → State
unfolding overall_from
overall_state checks = overall_from fine checks

-- `newReport`
abbrev pub new_report : Text → List Check → Report
new_report command checks = record {
  command = command;
  state = overall_state checks;
  checks = checks;
}

pub data ReportError : Type 0 where
  bad_output not_written : ReportError
  unhealthy : State → ReportError

-- Whether `Encode` of `encoding/json` succeeds in writing the report, with the details of its checks
-- or without them.
abbrev pub Encoder : Type 0
Encoder = Bool → Report → Bool

abbrev pub encoded : Bool → Result ReportError (Unit {0})
encoded true = ok tt
encoded false = err not_written

-- `writeReport`
unfoldable pub write_report : Encoder → Text → Bool → Report → Result ReportError (Unit {0})
write_report encode output detail r =
    if eqb output (codes "json")
    then encoded (encode detail r)
    else if is_empty output || eqb output (codes "text")
    then ok tt
    else err bad_output

unfoldable pub is_healthy : State → Bool
is_healthy fine = true
is_healthy not_applicable = true
is_healthy _ = false

abbrev pub judged : State → Result ReportError (Unit {0}) → Result ReportError (Unit {0})
judged s (err x) = err x
judged s (ok _) = if is_healthy s then ok tt else err (unhealthy s)

-- `finishReport`
unfoldable pub finish_report : Encoder → Request → Report → Result ReportError (Unit {0})
unfolding write_report is_healthy flag bool_flag
finish_report encode req r =
    judged r.state
      (write_report encode (flag req (codes "output")) (bool_flag req (codes "detail")) r)

-- `boolCheck`
unfoldable pub bool_check : Text → Bool → State → Text → Check
bool_check id true failure code = record { id = id; state = fine; code = [] }
bool_check id false failure code = record { id = id; state = failure; code = code }
