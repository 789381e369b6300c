-- ===== src/Tests/Containers.antt =====
-- The containers of two runs of one image.
use oplet.Prelude.{String, ◌≡◌, ◌≢◌, refl, none, [], ◌∷◌, Memᴰ, ok, distinct_texts}
use oplet.Task.Executor.{ExecutionRequest}
use oplet.Task.Executor.Container.{
  Constraints, Host, Container, Removal, container, run_mounts, create_container, remove,
  generate_cache_volume_name,
}
use oplet.Task.Executor.Container.Private.{remove_spares}

abbrev hash : String → String
hash path = "0a1b2c3d"

abbrev one_cpu : Host
one_cpu = record { volumes = ok ("/cache" ∷ []); cpus = ok 1; memory = ok 1000 }

abbrev request : ExecutionRequest
request = record {
  image_ref = "ghcr.io/team/scraper:latest";
  environment = ("TITLE", "July") ∷ [];
  inputs = [];
}

abbrev unlimited : Constraints
unlimited = record { nano_cpus = 0; max_memory = 0 }

abbrev made : String → Container
made run_id = container hash run_id request ("oplet-cache-scraper-0a1b2c3d:/cache" ∷ []) 0 500

-- On a host with one CPU the limit is 0, which the daemon takes for none.
no_limit : create_container hash one_cpu "r1" request unlimited ≡ ok (made "r1")
unfolding create_container generate_cache_volume_name
no_limit = refl

-- Images of different repositories share a cache.
shared_cache :
    generate_cache_volume_name hash "ghcr.io/team/scraper:latest" "/cache"
    ≡ generate_cache_volume_name hash "example.org/other/scraper:1" "/cache"
unfolding generate_cache_volume_name
shared_cache = refl

abbrev daemon : Removal
daemon = record { inspect = ok (run_mounts hash "r1"); remove = none; volume_remove = λ v. none }

other_run : ◌≢◌ {A = String} "r1" "r2"
other_run = distinct_texts "r1" "r2" refl

remove_spares_example : ◌≢◌ {A = String} "oplet-inputs-r1" "oplet-inputs-r2"
unfolding create_container generate_cache_volume_name remove
remove_spares_example =
    remove_spares hash one_cpu one_cpu "r1" "r2" request request unlimited unlimited (made "r1")
      (made "r2") daemon "oplet-inputs-r1"
      (record { type_ = "volume"; source = "oplet-inputs-r2"; target = "/oplet/inputs" }) refl refl
      other_run refl (Memᴰ.head refl) (Memᴰ.head refl)
