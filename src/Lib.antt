-- ===== src/Lib.antt =====
-- Oplet runs tasks that are packaged as container images. A server keeps a queue of executions in a
-- database and answers the requests of runners, which claim an execution, run its container, and
-- report its states, its logs and its files. This library models these parts, each as functions on an
-- explicit state, and proves what they promise.
--
-- The parts, and the files that model them:
--   Prelude: shared tests, lists, results, integers, texts and sorting. Strings: the functions of Go's
--     strings package that the pages use.
--   Store (internal/store): Rows has the structs as records, Status the statuses, Session the
--     functions WithTx and WithDatabase as state passing on the tables, Retry the function WithRetry,
--     Seeding the seed repository (internal/store/repository/seed) and internal/setup/seed.go. Orm
--     states what gorm and the database are relied on for; they are not part of the repository, so
--     its statements are parameters with laws. Engine is an instance of it, a list for each table.
--   Crypto (internal/crypto/generate.go): tokens. The random source is an argument.
--   Execution (internal/store/repository/execution): NextTask and the other operations; Queue, Effects,
--     Writes and Submits have what they do, Listing the lists, searches and counts, Stats the statistics, Cleanup
--     the deletions. The clock is an argument.
--   Api (internal/http/handler/runner): requests and answers, the lookup of an execution, Auth for
--     assertRunner on the runner repository (internal/store/repository/runner), Status for
--     handleTaskStatus, Trace for handleTaskTrace, Poll for handleTaskRequest with Environment for the
--     variables of a container, Transfer for handleTaskInputs and handleTaskOutputs. The JSON
--     decoder's answer is part of a request.
--   Task (internal/task): Executor has the states and internal/task/docker/executor.go's Execute as
--     the list of its reports, a function of what the Docker daemon answers; Logs has its GetLogs,
--     Container the configuration of a container, its volumes and its removal.
--   Runner (internal/runner/runner.go): the status request of a report, the log streaming as a
--     function of the reads and events that happen, Tasks for executeTask, Inputs and Outputs for the
--     files of a task. Client has internal/runner/client.go on an HTTP transport that is an argument.
--   Label, below Task (internal/task/label): the parser of image labels; Definition
--     builds a task definition. A Go map is a list of entries, in the order in which a loop visits it.
--   Dispatch: the steps that the server takes on the queue. A step is one transaction or one statement,
--     and these run one after the other; handleTaskStatus reads and saves in two of them, and the
--     reports that are read and not yet saved are part of the state. A creation, a claim or a
--     completion that fails is not a step.
--     Tickets is the queue that a reader of the API sees, Refines relates the two.
--   Authz (internal/http/authz): assertions; Users has internal/setup/authz_middleware.go on the user
--     repository (internal/store/repository/user).
--   Authn (internal/http/handler/authn): login, logout and the session, with what goth and
--     gorilla/sessions answer as arguments.
--   Storage (internal/file/storage.go): stored files, on a disk that is a list of paths and contents.
--   Web (internal/http/handler/webui/task/execution_page.go): who is given files and logs.
--     Submission has handleNewTaskSubmission (internal/http/handler/webui/task/new_task.go).
--   Forms (internal/http/handler/webui/common/form): fields, rules and the handling of a form; Task
--     has internal/http/handler/webui/common/task/form.go.
--   Tasks (internal/store/repository/task): the tasks and their configurations.
--   Admin (internal/http/handler/webui/admin): the pages of the tasks, Runners and Users those of the
--     runners and the users.
--   Oci (internal/task/oci/registry.go): the classification of registry errors.
--   Strconv: the number syntax of Go's strconv that the handlers read.
--   Tests: concrete inputs.
--
-- A time is a natural number of nanoseconds, an int64 a signed integer without a bound, a uint a
-- natural number; the conversion of a timestamp to a uint wraps. The loops run over the lists
-- that they are given, and the streaming over the reads that happen. The fuel of WithRetry bounds
-- its attempts: eleven, one and the ten retries that it allows; that of handleTaskRequest bounds its
-- turns: eleven, ten of at least three seconds and the one in which thirty seconds are over.
--
-- Not modelled: the rendering of the web pages and their generated components, the OAuth protocol, the
-- tar streams between the runner and the daemon, the loop around the runner's turns, the
-- configuration and the wiring of the parts.
pub mod Prelude
pub mod Strconv
pub mod Crypto
pub mod Store
pub mod Execution
pub mod Api
pub mod Task
pub mod Runner
pub mod Admin
pub mod Authn
pub mod Authz
pub mod Dispatch
pub mod Forms
pub mod Oci
pub mod Storage
pub mod Strings
pub mod Tasks
pub mod Web
pub mod Tests
