-- ===== src/Task/Executor/Container.antt =====
-- The container of a run (createContainer, prepareCacheVolumes, generateCacheVolumeName and remove of
-- internal/task/docker/executor.go). What the daemon and the host answer are arguments, and so is
-- `hash`, the first eight hexadecimal digits of the SHA-256 of a text.

pub mod Private
use Prim.Native.Char.{code}
use Prim.Native.String
use oplet.Strings.{after_last, before_last}
use oplet.Prelude.{
  ℕ, ◌/◌, ◌*◌, ◌^◌, String, ◌==◌, ◌&&◌, ◌||◌, Bool, Option, none, some, List, [], ◌∷◌, ◌++◌, map,
  leb, nat_eq, Result, ok, err, if◌then◌else◌,
}
use oplet.Oci.Search.{bytes, contains}
use oplet.Task.Executor.{ExecutionRequest}

abbrev pub join : String → String → String
join = String.◌++◌

abbrev is_plain : ℕ → Bool
is_plain c = leb b'a' c && leb c b'z' || leb b'A' c && leb c b'Z' || leb b'0' c && leb c b'9'

unfoldable pub sanitize : String → String
sanitize String.[] = ""
sanitize (String.◌∷◌ c s) =
    if is_plain (code c) then String.◌∷◌ c (sanitize s) else join "-" (sanitize s)

abbrev or_whole : String → Option String → String
or_whole s none = s
or_whole s (some part) = part

abbrev clean_image : String → String
clean_image image_name =
    let name = or_whole image_name (after_last b'/' image_name) in
    sanitize (or_whole name (before_last b':' name))

unfoldable pub generate_cache_volume_name : (String → String) → String → String → String
unfolding sanitize after_last before_last
generate_cache_volume_name hash image_name mount_path =
    join (join (join "oplet-cache-" (clean_image image_name)) "-") (hash mount_path)

-- a mount of the container; those that createContainer makes are volumes
pub record Mount : Type 0 where
  pub type_ : String
  pub source : String
  pub target : String

-- The constraints of a request, 0 for none. The CPUs are counted in billionths, as the daemon does.
pub record Constraints : Type 0 where
  pub nano_cpus : ℕ
  pub max_memory : ℕ

-- What ContainerCreate is given.
pub record Container : Type 0 where
  pub name : String
  pub image : String
  pub env : List String
  pub run_id : String
  pub mounts : List Mount
  pub binds : List String
  pub limits : Constraints

-- The volumes of the image, the CPUs and the memory of the host, an error as `err`.
pub record Host : Type 0 where
  pub volumes : Result String (List String)
  pub cpus : Result String ℕ
  pub memory : Result String ℕ

abbrev variable : String × String → String
variable (key, value) = join (join key "=") value

module _ (hash : String → String) where
  abbrev bind : String → String → String
  bind image_ref path = join (join (generate_cache_volume_name hash image_ref path) ":") path

  abbrev binds_of : String → Result String (List String) → Result String (List String)
  binds_of image_ref (err e) = err (join "failed to inspect image for volumes: " e)
  binds_of image_ref (ok paths) = ok (map (bind image_ref) paths)

  unfoldable pub prepare_cache_volumes : Host → String → Result String (List String)
  prepare_cache_volumes host image_ref = binds_of image_ref host.volumes

  -- half of the host's CPUs, rounded down
  abbrev half_cpus : Result String ℕ → Result String ℕ
  half_cpus (err e) = err (join "failed to retrieve host cpus stats: " e)
  half_cpus (ok n) = ok (n / 2 * 10 ^ 9)

  abbrev half_memory : Result String ℕ → Result String ℕ
  half_memory (err e) = err (join "failed to retrieve host memory stats: " e)
  half_memory (ok n) = ok (n / 2)

  abbrev limit_cpus : Host → ℕ → Result String ℕ
  limit_cpus host n = if nat_eq n 0 then half_cpus host.cpus else ok n

  abbrev limit_memory : Host → ℕ → Result String ℕ
  limit_memory host n = if nat_eq n 0 then half_memory host.memory else ok n

  abbrev pub run_mounts : String → List Mount
  run_mounts run_id =
      record { type_ = "volume"; source = join "oplet-inputs-" run_id; target = "/oplet/inputs" }
      ∷ record {
        type_ = "volume";
        source = join "oplet-outputs-" run_id;
        target = "/oplet/outputs";
      }
      ∷ []

  abbrev pub container : String → ExecutionRequest → List String → ℕ → ℕ → Container
  container run_id req binds cpus memory = record {
    name = join "oplet-task-" run_id;
    image = req.image_ref;
    env = map variable req.environment ++ join "OPLET_RUN_ID=" run_id ∷ [];
    run_id = run_id;
    mounts = run_mounts run_id;
    binds = binds;
    limits = record { nano_cpus = cpus; max_memory = memory };
  }

  abbrev pub limited :
      String
      → ExecutionRequest
      → List String
      → Result String ℕ
      → Result String ℕ
      → Result String Container
  limited run_id req binds (err e) memory = err e
  limited run_id req binds (ok cpus) (err e) = err e
  limited run_id req binds (ok cpus) (ok memory) = ok (container run_id req binds cpus memory)

  abbrev pub with_binds :
      Host
      → String
      → ExecutionRequest
      → Constraints
      → Result String (List String)
      → Result String Container
  with_binds host run_id req constraints (err e) = err (join "could not setup cache volumes: " e)
  with_binds host run_id req constraints (ok binds) =
      limited run_id req binds (limit_cpus host constraints.nano_cpus)
        (limit_memory host constraints.max_memory)

  -- what comes before ContainerCreate
  unfoldable pub create_container :
      Host → String → ExecutionRequest → Constraints → Result String Container
  unfolding prepare_cache_volumes
  create_container host run_id req constraints =
      with_binds host run_id req constraints (prepare_cache_volumes host req.image_ref)

-- What the daemon answers to a removal, an error as `err` or `some`.
pub record Removal : Type 0 where
  pub inspect : Result String (List Mount)
  pub remove : Option String
  pub volume_remove : String → Option String

-- an error ends the loop over the mounts
abbrev pub volume_step :
    String → Option String → List String × Option String → List String × Option String
volume_step source none (removed, e) = (source ∷ removed, e)
volume_step source (some failed) rest =
    ([], some (join (join (join "failed to remove volume '" source) "': ") failed))

-- the loop over the mounts, with the volumes that were removed
unfoldable pub remove_volumes : Removal → List Mount → List String × Option String
remove_volumes daemon [] = ([], none)
remove_volumes daemon (m ∷ mounts) =
    let rest = remove_volumes daemon mounts in
    if m.type_ == "volume" then volume_step m.source (daemon.volume_remove m.source) rest else rest

abbrev pub after_removal : Removal → List Mount → Option String → List String × Option String
after_removal daemon mounts none = remove_volumes daemon mounts
after_removal daemon mounts (some e) =
    if contains (bytes e) (bytes "No such container")
    then ([], none)
    else ([], some (join "failed to remove container: " e))

abbrev inspected : Removal → Result String (List Mount) → List String × Option String
inspected daemon (err e) = ([], some (join "failed to inspect container: " e))
inspected daemon (ok mounts) = after_removal daemon mounts daemon.remove

unfoldable pub remove : Removal → List String × Option String
unfolding remove_volumes
remove daemon = inspected daemon daemon.inspect
