-- ===== src/Store/Status.antt =====
-- The constants of `TaskExecutionStatus` (internal/store/task.go). The type is a Go string, so a
-- stored status may be any text.
use oplet.Prelude.{String}

abbrev pub pending : String
pending = "pending"

abbrev pub pulling_image : String
pulling_image = "pulling_image"

abbrev pub image_pulled : String
image_pulled = "image_pulled"

abbrev pub creating_container : String
creating_container = "creating_container"

abbrev pub container_created : String
container_created = "container_created"

abbrev pub uploading_files : String
uploading_files = "uploading_files"

abbrev pub files_uploaded : String
files_uploaded = "files_uploaded"

abbrev pub starting_container : String
starting_container = "starting_container"

abbrev pub container_started : String
container_started = "container_started"

abbrev pub running : String
running = "running"

abbrev pub finished : String
finished = "finished"

abbrev pub downloading_files : String
downloading_files = "downloading_files"

abbrev pub files_downloaded : String
files_downloaded = "files_downloaded"

abbrev pub succeeded : String
succeeded = "succeeded"

abbrev pub failed : String
failed = "failed"

abbrev pub killed : String
killed = "killed"
