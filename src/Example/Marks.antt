-- ===== src/Example/Marks.antt =====
-- `verify_result` of verify/verify_mark.py on an issued result, and the theorems applied to that run.
use whpstanding.Prelude.{◌≡◌, refl, true, false, [], none, some, pos, ◌⊎◌}
use whpstanding.Result.{type_error, ok, err}
use whpstanding.Text.{lit}
use whpstanding.Dict.{get}
use whpstanding.Value.{null, txt, ◌!◌, ◌!!◌}
use whpstanding.Compare.{◌=?◌, const}
use whpstanding.Assess.Verdict.{Grounds}
use whpstanding.Mark.{Report, mark_name, verify_result}
use whpstanding.Mark.Vouched.{Vouched, verify_result-Vouched, marked-Grounds}
use whpstanding.Mark.Paid.{Paid, verify_result-Paid}
use whpstanding.Main.{Arguments, main}
use whpstanding.Main.Refused.{Refused}
use whpstanding.Main.Outcome.{Verified, Located, main-Ends}
use whpstanding.Example.World.{force, env}
use whpstanding.Example.Documents.{pin}
use whpstanding.Example.Issued.{issued}
use whpstanding.Example.Running.{running}

abbrev no_report : Report
no_report = record {
  verified = false;
  environment = null;
  purchase_id = [];
  mark_id = null;
  assessment = null;
  current_standing = null;
  payment_chain_finality = null;
  expires_at = null;
}

abbrev report : Report
report = force no_report (verify_result env issued pin true)

verified : verify_result env issued pin true ≡ ok report
unfolding running
verified = refl

verify_result-Vouched_example : Vouched env issued pin report
verify_result-Vouched_example = verify_result-Vouched env issued pin true report verified

marked-Grounds_example :
    (v : Vouched env issued pin report) × (v.a.established ≡ true)
    × (report.mark_id ≡ mark_name v.purchase)
    × ((issued ! "protected" !! "type" =? const "WHP-STANDING-MARK-v1") ≡ ok true)
    × Grounds env v.s v.authority pin v.evaluated v.profile v.a
unfolding running
marked-Grounds_example = marked-Grounds env issued pin true report verified refl

verify_result-Paid_example : Paid env issued pin report
verify_result-Paid_example = verify_result-Paid env issued pin true report verified

abbrev arguments : Arguments
arguments = record {
  mark = ok (issued, lit "issued");
  root_pin = pin;
  allow_test = true;
  registry = none;
  resolution = none;
  contract = none;
  resolution_only = false;
  at = none;
  rpc = none;
  clock = λ place. pos 600;
}

main_test : ((main env arguments).status ≡ 0) × ((main env arguments).caught ≡ none)
unfolding running
main_test = (refl, refl)

main-Ends_example :
    Refused env arguments (main env arguments)
    ⊎ (Verified env arguments (main env arguments) ⊎ Located env arguments (main env arguments))
main-Ends_example = main-Ends env arguments

-- a snapshot that cannot be read ends the run behind the verification
abbrev unreadable : Arguments
unreadable = record arguments { registry = some (err type_error) }

refused_test :
    ((main env unreadable).caught ≡ some type_error)
    × (get (lit "current_standing") (main env unreadable).printed ≡ some (txt "NOT_VERIFIED"))
unfolding running
refused_test = (refl, refl)
