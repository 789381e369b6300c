-- ===== src/Task/Executor/Container/Private.antt =====
-- The removal of a container (internal/task/docker/executor.go) spares the volumes of other runs.
use mathlib.Core.Path.{subst}
use Prim.Native.String.append.{cons}
use text.Mathlib.TextLemmas.{append_cancel_left, append_assoc}
use oplet.Prelude.{
  ℕ, String, ◌==◌, ◌≡◌, ◌≢◌, refl, sym, ap, ◌∙◌, ◌⊎◌, inl, inr, Bool, true, false, Option, none,
  some, List, [], ◌∷◌, Memᴰ, Result, ok, err, Bool-cases,
}
use oplet.Oci.Search.{bytes, contains}
use oplet.Task.Executor.{ExecutionRequest}
use oplet.Task.Executor.Container.{
  Mount, Container, Constraints, Host, Removal, join, run_mounts, container, limited, with_binds,
  create_container, remove_volumes, remove, volume_step, after_removal,
}

-- the volume is one of the two of the run
abbrev pub IsVolumeOf : String → String → Type 0
IsVolumeOf run_id v = (v ≡ join "oplet-inputs-" run_id) ⊎ (v ≡ join "oplet-outputs-" run_id)

abbrev starts_with_i : String → Bool
starts_with_i String.[] = false
starts_with_i (String.◌∷◌ c s) = String.◌∷◌ c "" == "i"

inputs-ne-outputs : (a b : String) → join "oplet-inputs-" a ≢ join "oplet-outputs-" b
inputs-ne-outputs a b h =
    let k : join "inputs-" a ≡ join "outputs-" b =
      append_cancel_left "oplet-" (join "inputs-" a) (join "outputs-" b)
        (sym (append_assoc "oplet-" "inputs-" a) ∙ h ∙ append_assoc "oplet-" "outputs-" b) in
    let g : ◌≡◌ {A = Bool} true false =
      sym (ap starts_with_i (cons "i" "nputs-" a))
      ∙ ap starts_with_i k
      ∙ ap starts_with_i (cons "o" "utputs-" b) in
    cc

IsVolumeOf-same : (a b v : String) → IsVolumeOf a v → IsVolumeOf b v → a ≡ b
IsVolumeOf-same a b v (inl h) (inl k) = append_cancel_left "oplet-inputs-" a b (sym h ∙ k)
IsVolumeOf-same a b v (inl h) (inr k) = absurd (inputs-ne-outputs a b (sym h ∙ k))
IsVolumeOf-same a b v (inr h) (inl k) = absurd (inputs-ne-outputs b a (sym k ∙ h))
IsVolumeOf-same a b v (inr h) (inr k) = append_cancel_left "oplet-outputs-" a b (sym h ∙ k)

module _ (hash : String → String) (host : Host) (run_id : String) (req : ExecutionRequest)
    (constraints : Constraints) where
  limited-mounts :
      (binds : List String) (cpus memory : Result String ℕ) {c : Container}
      → limited hash run_id req binds cpus memory ≡ ok c
      → c.mounts ≡ run_mounts hash run_id
  limited-mounts binds (err e) memory h = absurd cc
  limited-mounts binds (ok n) (err e) h = absurd cc
  limited-mounts binds (ok n) (ok m) {c} h =
      let same : container hash run_id req binds n m ≡ c = cc in
      ap (λ (x : Container). x.mounts) (sym same)

  with_binds-mounts :
      (binds : Result String (List String)) {c : Container}
      → with_binds hash host run_id req constraints binds ≡ ok c
      → c.mounts ≡ run_mounts hash run_id
  with_binds-mounts (err e) h = absurd cc
  with_binds-mounts (ok binds) h = limited-mounts binds _ _ h

  create_container-mounts :
      {c : Container}
      → create_container hash host run_id req constraints ≡ ok c
      → c.mounts ≡ run_mounts hash run_id
  unfolding create_container
  create_container-mounts h = with_binds-mounts _ h

run_mounts-IsVolumeOf :
    (hash : String → String) (run_id : String) {m : Mount}
    → Memᴰ m (run_mounts hash run_id)
    → IsVolumeOf run_id m.source
run_mounts-IsVolumeOf hash run_id (Memᴰ.head same) = inl (ap (λ (x : Mount). x.source) same)
run_mounts-IsVolumeOf hash run_id (Memᴰ.tail (Memᴰ.head same)) =
    inr (ap (λ (x : Mount). x.source) same)
run_mounts-IsVolumeOf hash run_id (Memᴰ.tail (Memᴰ.tail m)) = elim m [ ]

volume_step-Memᴰ :
    (source : String) (o : Option String) (rest : List String × Option String) {v : String}
    → Memᴰ v (volume_step source o rest).0
    → (source ≡ v) ⊎ Memᴰ v rest.0
volume_step-Memᴰ source none rest (Memᴰ.head same) = inl (sym same)
volume_step-Memᴰ source none rest (Memᴰ.tail m) = inr m
volume_step-Memᴰ source (some e) rest m = elim m [ ]

remove_volumes-Memᴰ :
    (daemon : Removal) (mounts : List Mount) {v : String}
    → Memᴰ v (remove_volumes daemon mounts).0
    → (m : Mount) × Memᴰ m mounts × (m.source ≡ v)
unfolding remove_volumes
remove_volumes-Memᴰ daemon [] h = elim h [ ]
remove_volumes-Memᴰ daemon (x ∷ mounts) {v} h = elim (Bool-cases (x.type_ == "volume")) [
  | inr other ↦
      let (m, there, named) = remove_volumes-Memᴰ daemon mounts (rw other at h) in
      (m, Memᴰ.tail there, named)
  | inl volume ↦
      let k : Memᴰ v
          (volume_step x.source (daemon.volume_remove x.source) (remove_volumes daemon mounts)).0 =
        rw volume at h in
      elim (volume_step-Memᴰ x.source (daemon.volume_remove x.source) (remove_volumes daemon mounts)
        k) [
          | inl same ↦ (x, Memᴰ.head refl, same)
          | inr later ↦
              let (m, there, named) = remove_volumes-Memᴰ daemon mounts later in
              (m, Memᴰ.tail there, named)
        ]
]

after_removal-Memᴰ :
    (daemon : Removal) (mounts : List Mount) (o : Option String) {v : String}
    → Memᴰ v (after_removal daemon mounts o).0
    → Memᴰ v (remove_volumes daemon mounts).0
after_removal-Memᴰ daemon mounts none h = h
after_removal-Memᴰ daemon mounts (some e) {v} h =
    elim (Bool-cases (contains (bytes e) (bytes "No such container"))) [
      | inl gone ↦ let none_left : Memᴰ v [] = rw gone at h in elim none_left [ ]
      | inr failed ↦ let none_left : Memᴰ v [] = rw failed at h in elim none_left [ ]
    ]

remove-Memᴰ :
    (daemon : Removal) (mounts : List Mount) {v : String}
    → daemon.inspect ≡ ok mounts
    → Memᴰ v (remove daemon).0
    → Memᴰ v (remove_volumes daemon mounts).0
unfolding remove
remove-Memᴰ daemon mounts inspected h =
    after_removal-Memᴰ daemon mounts daemon.remove (rw inspected at h)

-- If the daemon shows the mounts that a run's container was made with, then the removal of the
-- container removes no volume that the container of another run is mounted on.
pub remove_spares :
    (hash : String → String) (host host' : Host) (run_id other : String)
    (req req' : ExecutionRequest) (constraints constraints' : Constraints) (c c' : Container)
    (daemon : Removal) (v : String) (m : Mount)
    → create_container hash host run_id req constraints ≡ ok c
    → create_container hash host' other req' constraints' ≡ ok c'
    → run_id ≢ other
    → daemon.inspect ≡ ok c.mounts
    → Memᴰ v (remove daemon).0
    → Memᴰ m c'.mounts
    → v ≢ m.source
remove_spares hash host host' run_id other req req' constraints constraints' c c' daemon v m made
      made' differ inspected removed mounted same =
    let (x, there, named) =
      remove_volumes-Memᴰ daemon c.mounts (remove-Memᴰ daemon c.mounts inspected removed) in
    let own =
      run_mounts-IsVolumeOf hash run_id
        (subst (Memᴰ x) (create_container-mounts hash host run_id req constraints made) there) in
    let foreign =
      run_mounts-IsVolumeOf hash other (
        subst (Memᴰ m) (create_container-mounts hash host' other req' constraints' made')
          mounted) in
    differ (
      IsVolumeOf-same run_id other v (subst (IsVolumeOf run_id) named own)
        (subst (IsVolumeOf other) (sym same) foreign))
