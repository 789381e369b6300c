-- ===== src/Storage.antt =====
-- The file storage (internal/file/storage.go) on a disk that is a list of files. A path is joined
-- from elements that are clean and not empty, so filepath.Join puts a "/" between them; a name has no
-- "/": it is the last element of an uploaded name, or the name of an input, which is taken to have
-- none. The directories themselves are not kept.
pub mod Kept
use Prim.Native.String
use Prim.Native.String.{◌++◌, len}
use text.Mathlib.Text.{starts_with}
use Prim.Native.Char.{Char, code}
use oplet.Prelude.{
  ℕ, String, ◌==◌, Bool, true, false, not, Option, none, some, List, [], ◌∷◌, filter, Result, ok,
  err, if◌then◌else◌, nat_eq,
}
use oplet.Strconv.{format_uint}

-- the files' paths and contents
abbrev pub Disk : Type 0
Disk = List (String × String)

infixr 5 ◌/+◌
abbrev pub ◌/+◌ : String → String → String
a /+ b = String.◌++◌ a (String.◌++◌ "/" b)

-- GetExecutionPath
unfoldable pub get_execution_path : String → ℕ → String
unfolding format_uint
get_execution_path base id = base /+ "executions" /+ format_uint id

-- The last "." of a name with what follows it, and what stands before it.
abbrev put_before : Char → String → Option (String × String) → Option (String × String)
put_before c rest (some (before, ext)) = some (String.◌∷◌ c before, ext)
put_before c rest none = if nat_eq (code c) b'.' then some ("", String.◌∷◌ c rest) else none

unfoldable pub last_dot : String → Option (String × String)
last_dot String.[] = none
last_dot (String.◌∷◌ c rest) = put_before c rest (last_dot rest)

-- filepath.Ext and strings.TrimSuffix
abbrev pub cut_ext : String → String × String
unfolding last_dot
cut_ext name = elim (last_dot name) [ some parts ↦ parts | none ↦ (name, "") ]

-- A stored file, less its identifier and its checksum, which nothing reads.
pub record StoredFile : Type 0 where
  pub original_name : String
  pub stored_path : String
  pub size : ℕ
  pub mime_type : String

-- the length of a content in bytes
abbrev pub size : String → ℕ
size content = len content

-- What the system does in one call of storeFile: the errors of MkdirAll, of Create and of Copy, the
-- time in seconds, the four random bytes in hexadecimal, and what the content's type is taken for.
pub record Os : Type 0 where
  pub mkdir_err : Option String
  pub create_err : Option String
  pub copy_err : Option String
  pub unix : ℕ
  pub random_suffix : String
  pub detected : String

unfoldable pub generate_unique_filename : Os → String → String
unfolding last_dot format_uint
generate_unique_filename os original =
    let (base, ext) = cut_ext original in
    base ++ "_" ++ format_uint os.unix ++ "_" ++ os.random_suffix ++ ext

abbrev remove : String → Disk → Disk
remove path disk = filter (λ (f : String × String). not (f.0 == path)) disk

-- os.Create with what is copied into the file
abbrev write : String → String → Disk → Disk
write path content disk = (path, content) ∷ remove path disk

-- GetFile, and the reading of the file
abbrev pub get_file : String → Disk → Option String
get_file path [] = none
get_file path ((p, content) ∷ disk) =
    let rest = get_file path disk in if p == path then some content else rest

-- the path of a new file of an execution
unfoldable pub new_path : String → ℕ → String → String → Os → String
unfolding generate_unique_filename get_execution_path
new_path base execution_id subdir filename os =
    get_execution_path base execution_id /+ subdir /+ generate_unique_filename os filename

-- storeFile: a file that could not be written is removed again.
unfoldable pub store_file :
    String → ℕ → String → String → String → Os → Disk → Result String StoredFile × Disk
unfolding new_path
store_file base execution_id subdir filename content os disk =
    let path = new_path base execution_id subdir filename os in
    elim os.mkdir_err [
      | some e ↦ (err e, disk)
      | none ↦ elim os.create_err [
        | some e ↦ (err e, disk)
        | none ↦ elim os.copy_err [
          | some e ↦ (err e, remove path disk)
          | none ↦ (
            ok (record {
              original_name = filename;
              stored_path = path;
              size = size content;
              mime_type = os.detected;
            }),
            write path content disk,
          )
        ]
      ]
    ]

-- StoreInputFile and StoreOutputFile
abbrev pub store_input_file :
    String → ℕ → String → String → Os → Disk → Result String StoredFile × Disk
store_input_file base execution_id filename content os disk =
    store_file base execution_id "inputs" filename content os disk

abbrev pub store_output_file :
    String → ℕ → String → String → Os → Disk → Result String StoredFile × Disk
store_output_file base execution_id filename content os disk =
    store_file base execution_id "outputs" filename content os disk

-- DeleteExecution, when RemoveAll succeeds
unfoldable pub delete_execution : String → ℕ → Disk → Disk
unfolding get_execution_path
delete_execution base execution_id disk =
    filter
      (λ (f : String × String). not (starts_with f.0 (get_execution_path base execution_id /+ "")))
      disk
