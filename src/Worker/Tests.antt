-- ===== src/Worker/Tests.antt =====
-- A job of a schedule, as the worker meets it.
use Prim.Native.Char.{code}
use b2b_app.Prelude.{ℕ, ◌≡◌, ◌≢◌, refl, String, arith, eq_iff, some, [], ok}
use b2b_app.Prelude.Texts.{◌+++◌}
use b2b_app.Workflow.{NodeConfig, TriggerConfig}
use b2b_app.Execute.Samples.{plain, counting, unique_rows, workflows, parse, explain}
use b2b_app.Schedules.{Registration, registration_for, schedule_id_for}
use b2b_app.Worker.{timed, unknown_schedule, S, process_job}
use b2b_app.Worker.Timed.{process_job_unknown}

abbrev derive : String → String → String → ℕ → String
derive org workflow id now = org +++ workflow

abbrev every_hour : NodeConfig ℕ
every_hour = NodeConfig.trigger (TriggerConfig.schedule "0 * * * *" "UTC")

abbrev registered : Registration
registered = record {
  pattern = "0 * * * *";
  tz = "UTC";
  name = "schedule:" +++ schedule_id_for "o" "w" "start";
  payload = record {
    organization_id = "o";
    workflow_id = "w";
    trigger_key = "start";
    cron = "0 * * * *";
    timezone = "UTC";
  };
}

made :
    registration_for "o" "w" "start" every_hour ≡ some (schedule_id_for "o" "w" "start", registered)
unfolding registration_for
made = refl

abbrev empty : S plain counting unique_rows workflows parse explain derive
empty = record { runs = []; dead_letters = []; audit = []; state = 0 }

not_s : code "o" ≢ b's'
not_s = omega arith

filled : ◌≢◌ {A = String} "w" ""
filled e = ground (arith, eq_iff "w" "")

process_job_unknown_example :
    process_job plain counting unique_rows workflows parse explain derive
      (timed registered.name (some registered.payload))
      "e"
      "r"
      5
      empty
    ≡ some (ok unknown_schedule, empty)
process_job_unknown_example =
    process_job_unknown plain counting unique_rows workflows parse explain derive "o" "w" "start"
      every_hour (schedule_id_for "o" "w" "start") registered "o" "" made refl not_s filled "e" "r"
      5 empty
