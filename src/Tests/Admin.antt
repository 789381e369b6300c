-- ===== src/Tests/Admin.antt =====
-- The configuration of a task is replaced, and a task is added.
use oplet.Strings.{trim_space}
use oplet.Forms.Rules.{is_valid, first_error, validate}
use oplet.Forms.Task.{new_configuration_form, new_form}
use oplet.Strconv.{parse_uint}
use oplet.Prelude.{
  String, ◌≡◌, refl, ◌==◌, true, none, List, [], ◌∷◌, Result, ok, err, if◌then◌else◌, map,
}
use oplet.Store.Rows.{Task, TaskConfiguration}
use oplet.Store.Orm.{Error, failure}
use oplet.Store.Session.{Database, setting, with_database, with_tx}
use oplet.Store.Engine.{memory}
use oplet.Task.Label.Definition.{Definition}
use oplet.Forms.{Request, handle}
use oplet.Tasks.{update_configuration, get_by_id}
use oplet.Tasks.Configured.{Updated, update_configuration_total}
use oplet.Admin.{handle_task_form_submission}
use oplet.Admin.Saved.{Saved}
use oplet.Tests.Data.{model, database}
use oplet.Tests.Forms.{input}

abbrev report : Task
report = record {
  model = model 7 0;
  image_ref = "registry/report";
  author = "Ute";
  name = "report";
  description = "";
}

abbrev setting_of : String → String → TaskConfiguration
setting_of name value = record { model = model 1 0; task_id = 7; name = name; value = value }

abbrev with_report : Database
with_report = record (database []) {
  tasks = report ∷ [];
  configurations =
      setting_of "URL" "old"
      ∷ record { model = model 2 0; task_id = 8; name = "URL"; value = "other" }
      ∷ [];
}

abbrev definition : Definition
definition = record {
  name = "report";
  description = "";
  author = "Ute";
  url = "";
  image_ref = "registry/report";
  inputs = [];
  configuration = input "URL" "text" true ∷ [];
}

abbrev fetch : String → Result Error Definition
fetch image_ref = if image_ref == "registry/report" then ok definition else err (failure "unknown")

abbrev request : List (String × String) → Request
request values = record {
  parse_form = none;
  parse_multipart_form = none;
  form_values = values;
  form_files = [];
}

abbrev settings_after : List (String × String)
settings_after =
    map setting
      (handle_task_form_submission memory fetch "7" (request (("URL", "new") ∷ []))
        with_report).1.configurations

replaced : settings_after ≡ ("URL", "other") ∷ ("URL", "new") ∷ []
unfolding handle_task_form_submission parse_uint get_by_id with_database memory handle
    new_configuration_form new_form is_valid first_error validate trim_space update_configuration
    with_tx
replaced = refl

update_configuration_total_example :
    Updated
      (update_configuration memory 7 (("URL", "new") ∷ []) with_report).0
      7
      (("URL", "new") ∷ [])
      with_report
      (update_configuration memory 7 (("URL", "new") ∷ []) with_report).1
update_configuration_total_example =
    update_configuration_total memory 7 (("URL", "new") ∷ []) with_report
