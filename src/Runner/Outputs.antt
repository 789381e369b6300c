-- ===== src/Runner/Outputs.antt =====
-- uploadOutputFiles (internal/runner/runner.go): the files of the archive that a runner uploads.
use Prim.Native.Char.{Char, code}
use oplet.Strings.{after_last}
use oplet.Prelude.{
  String, ◌==◌, Bool, Option, none, some, List, [], ◌∷◌, Result, ok, err, nat_eq, if◌then◌else◌,
}
use oplet.Task.Label.{put}

-- A member of the tar archive: its header, and its content if it can be read.
pub record Member : Type 0 where
  pub name : String
  pub is_dir : Bool
  pub body : Result String String

-- What the reader of the archive answers: its members, and whether it breaks after them.
pub record Archive : Type 0 where
  pub members : List Member
  pub broken : Bool

abbrev slash : Char → Bool
slash c = nat_eq (code c) b'/'

-- without the slashes at the end
unfoldable pub trim_slashes : String → String
trim_slashes String.[] = ""
trim_slashes (String.◌∷◌ c s) = keep c (trim_slashes s)
  where
    keep : Char → String → String
    keep c rest =
        if slash c then (if rest == "" then "" else String.◌∷◌ c rest) else String.◌∷◌ c rest

abbrev or_tail : String → Option String → String
or_tail s none = s
or_tail s (some tail) = tail

abbrev base_of : String → String
base_of s = if s == "" then "/" else or_tail s (after_last b'/' s)

-- filepath.Base
unfoldable pub base : String → String
unfolding trim_slashes after_last
base name = if name == "" then "." else base_of (trim_slashes name)

abbrev pub keep_file :
    String → Result String String → List (String × String) → List (String × String)
keep_file name (err e) files = files
keep_file name (ok content) files = put name content files

abbrev pub add_member : Member → List (String × String) → List (String × String)
add_member m files = if m.is_dir then files else keep_file (base m.name) m.body files

-- the loop over the archive
unfoldable pub collect : List Member → List (String × String) → List (String × String)
collect [] files = files
collect (m ∷ members) files = collect members (add_member m files)

abbrev request_for : List (String × String) → Option (List (String × String))
request_for [] = none
request_for (f ∷ files) = some (f ∷ files)

-- The files of the request that is sent, `none` if there is none: there are no outputs, the archive
-- cannot be read to its end, or it holds no files.
unfoldable pub upload_output_files : Option Archive → Option (List (String × String))
unfolding collect
upload_output_files none = none
upload_output_files (some archive) =
    if archive.broken then none else request_for (collect archive.members [])
