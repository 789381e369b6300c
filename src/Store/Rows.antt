-- ===== src/Store/Rows.antt =====
-- The rows of internal/store/task.go, internal/store/user.go and internal/store/runner.go.
-- A time is the number of nanoseconds since Go's zero time, so the zero time is 0. The fields that
-- gorm fills by preloading (`Task`, `User`, `Logs`, …) are other tables' rows and are left out, and
-- so are `UpdatedAt`, which nothing reads, and a user's preferred language.
use oplet.Prelude.{ℕ, String, Bool, Option}
use oplet.Prelude.Int.{ℤ}

abbrev pub Time : Type 0
Time = ℕ

-- gorm.Model
pub record Model : Type 0 where
  pub id : ℕ
  pub created_at : Time
  pub deleted_at : Option Time

pub record Task : Type 0 where
  pub model : Model
  pub open model use *
  pub image_ref : String
  pub author : String
  pub name : String
  pub description : String

pub record TaskConfiguration : Type 0 where
  pub model : Model
  pub open model use *
  pub task_id : ℕ
  pub name : String
  pub value : String

pub record TaskExecution : Type 0 where
  pub model : Model
  pub open model use *
  pub task_id : ℕ
  pub user_id : ℕ
  pub container_id : String
  pub status : String
  pub exit_code : Option ℤ
  pub error_message : String
  pub runner_token : String
  pub started_at : Option Time
  pub finished_at : Option Time
  pub input_parameters : String

pub record TaskExecutionLog : Type 0 where
  pub model : Model
  pub open model use *
  pub execution_id : ℕ
  pub timestamp : ℤ
  pub source : String
  pub clock : ℕ
  pub message : String

pub record TaskExecutionFile : Type 0 where
  pub model : Model
  pub open model use *
  pub execution_id : ℕ
  pub filename : String
  pub file_path : String
  pub file_size : ℕ
  pub mime_type : String
  pub is_output : Bool

pub record User : Type 0 where
  pub model : Model
  pub open model use *
  pub display_name : String
  pub subject : String
  pub provider : String
  pub email : String
  pub role : String
  pub is_active : Bool

pub record Runner : Type 0 where
  pub model : Model
  pub open model use *
  pub name : String
  pub token : String
  pub contacted_at : Option Time

pub record Seed : Type 0 where
  pub id : String
  pub executed_at : Time
