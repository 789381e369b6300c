-- ===== src/Tests/Access.antt =====
-- A user of the web interface, and the labels of an image.
use oplet.Strconv.{parse_uint}
use oplet.Authz.Users.Accounts.{update_active_status}
use oplet.Admin.Users.Deactivated.{handle_user_status_update_bars}
use oplet.Admin.Users.{handle_user_status_update}
use oplet.Task.Label.Definition.{
  Input, Definition, build_task_definition, convert_inputs, convert_to_task_input, parse_bool,
}
use oplet.Task.Label.Definition.Converted.{IsDefinition, build_task_definition-IsDefinition}
use oplet.Prelude.{◌≢◌, String, refl, true, false, [], ◌∷◌, List, Memᴰ, none, some}
use oplet.Store.Rows.{User}
use oplet.Store.Session.{Database, with_database}
use oplet.Store.Engine.{memory}
use oplet.Authz.Users.{Identity, Config, authorize, load, admit, get_by_subject, update}
use oplet.Authz.Users.Granted.{IsGranted, authorize-IsGranted}
use oplet.Task.Label.{
  ParsedLabels, parse_labels, parse_meta_labels, group_labels, build_group, build_input_labels,
  split_dot, split_spaces, strip_prefix, group_label,
}
use oplet.Task.Label.Valid.{AreInputs, parse_labels-AreInputs}
use oplet.Tests.Data.{model, database}

abbrev alice : User
alice = record {
  model = model 1 10;
  display_name = "Alice Doe";
  subject = "1234";
  provider = "github";
  email = "alice@example.org";
  role = "user";
  is_active = false;
}

abbrev who : Identity
who = record {
  provider = "github";
  subject = "1234";
  email = "alice@example.org";
  display_name = "Alice D";
}

abbrev conf : Config
conf = record { inactive_by_default = true; default_admin_email = "alice@example.org" }

abbrev users : Database
users = record (database []) { users = alice ∷ [] }

abbrev admin : User
admin = record alice { display_name = "Alice D"; role = "admin"; is_active = true }

authorize-IsGranted_example : IsGranted who admin (authorize memory conf (some who) users).1
unfolding authorize load admit get_by_subject update memory with_database
authorize-IsGranted_example = authorize-IsGranted memory conf who users admin refl

abbrev labels : List (String × String)
labels =
    ("io.oplet.task.meta.name", "resize")
    ∷ ("io.oplet.task.inputs.width.type", "number")
    ∷ ("io.oplet.task.config.key.type", "secret")
    ∷ ("io.oplet.task.inputs.width.required", "true")
    ∷ []

abbrev parsed : ParsedLabels
parsed = record {
  meta = record { name = "resize"; description = ""; author = ""; url = "" };
  inputs =
      (
        "width",
        record {
          label = "width";
          type_ = "number";
          description = "";
          required = "true";
          default_value = "";
          tags = "" ∷ [];
        },
      )
      ∷ [];
  config =
      (
        "key",
        record {
          label = "key";
          type_ = "secret";
          description = "";
          required = "";
          default_value = "";
          tags = "" ∷ [];
        },
      )
      ∷ [];
}

parse_labels-AreInputs_example : AreInputs parsed.inputs × AreInputs parsed.config
unfolding parse_labels parse_meta_labels group_labels build_group build_input_labels split_dot
    split_spaces strip_prefix group_label
parse_labels-AreInputs_example = parse_labels-AreInputs labels parsed refl

abbrev width : Input
width = record {
  name = "width";
  label = "width";
  type_ = "number";
  description = "";
  required = true;
  default_value = "";
  tags = [];
}

abbrev key : Input
key = record width { name = "key"; label = "key"; type_ = "secret"; required = false }

abbrev resize : Definition
resize = record {
  name = "resize";
  description = "";
  author = "";
  url = "";
  image_ref = "example/resize:1";
  inputs = width ∷ [];
  configuration = key ∷ [];
}

build_task_definition-IsDefinition_example :
    (resize.name ≢ "") × IsDefinition parsed "example/resize:1" resize
unfolding build_task_definition convert_inputs convert_to_task_input parse_bool
build_task_definition-IsDefinition_example =
    build_task_definition-IsDefinition parsed "example/resize:1" resize refl

-- one user is deactivated, another one comes in
abbrev bob : User
bob = record alice { model = model 3 10; subject = "5678"; is_active = true }

abbrev alice_active : User
alice_active = record alice { is_active = true }

abbrev with_alice : User → Database
with_alice u = record (database []) { users = u ∷ alice_active ∷ [] }

abbrev other_conf : Config
other_conf = record { inactive_by_default = true; default_admin_email = "root@example.org" }

handle_user_status_update_bars_example : alice_active.id ≢ 3
unfolding handle_user_status_update update_active_status parse_uint authorize load admit
    get_by_subject memory with_database
handle_user_status_update_bars_example =
    handle_user_status_update_bars memory other_conf (record who { display_name = "Alice Doe" }) "3"
      "false" none 3 (with_alice bob) (with_alice (record bob { is_active = false })) bob
      alice_active (Memᴰ.head refl) refl refl refl refl refl
