-- ===== src/Runner/Inputs.antt =====
-- downloadInputFiles (internal/runner/runner.go): the input files that a runner hands to its executor.
pub mod Fetched
use Prim.Native.String
use oplet.Prelude.{String, Option, none, some, List, [], ◌∷◌, Result, ok, err}
use oplet.Api.{Answer}
use oplet.Task.Label.{put}
use oplet.Runner.Client.{Response, list_input_files, download_input_file}

abbrev pub keep : String → Result String String → List (String × String) → List (String × String)
keep name (err e) inputs = inputs
keep name (ok content) inputs = put name content inputs

module _ (print : Answer → String) (fetch : String → Response) where
  -- the body of the loop; a file that cannot be downloaded is only logged
  abbrev pub download : Option String → List (String × String) → List (String × String)
  download none inputs = inputs
  download (some name) inputs = keep name (download_input_file print (fetch name)) inputs

  unfoldable pub download_each :
      List (Option String) → List (String × String) → List (String × String)
  download_each [] inputs = inputs
  download_each (name ∷ names) inputs = download_each names (download name inputs)

  abbrev pub download_listed :
      Result String (List (Option String)) → Result String (List (String × String))
  download_listed (err e) = err (String.◌++◌ "failed to list input files: " e)
  download_listed (ok names) = ok (download_each names [])

  unfoldable pub download_input_files : Response → Result String (List (String × String))
  unfolding download_each
  download_input_files listing = download_listed (list_input_files listing)
