-- ===== src/Storage/Kept.antt =====
-- A stored file is read back, and the other files stay.
use oplet.Prelude.{
  ℕ, String, ◌==◌, ◌≡◌, ◌≢◌, refl, ◌∙◌, sym, ◌⊎◌, inl, inr, false, some, [], ◌∷◌, ok, err,
  Bool-cases, Option-cases, eq_iff, eq_refl,
}
use oplet.Storage.{Disk, Os, StoredFile, size, get_file, new_path, store_file, remove, write}

==-false : (a b : String) → a ≢ b → (a == b) ≡ false
==-false a b ne = elim (Bool-cases (a == b)) [ inl e ↦ absurd (ne ((eq_iff a b).0 e)) | inr e ↦ e ]

get_file-remove :
    (path p : String) (disk : Disk) → p ≢ path → get_file p (remove path disk) ≡ get_file p disk
get_file-remove path p [] ne = refl
get_file-remove path p ((q, content) ∷ disk) ne =
    let rest = get_file-remove path p disk ne in
    elim (Bool-cases (q == path)) [
      | inl e ↦
          let other : (q == p) ≡ false =
            ==-false q p (λ same. ne (sym same ∙ (eq_iff q path).0 e)) in
          rw (e, other) rest
      | inr e ↦ elim (Bool-cases (q == p)) [
        | inl found ↦ rw (e, found) refl
        | inr other ↦ rw (e, other) rest
      ]
    ]

module _ (base : String) (execution_id : ℕ) (subdir filename content : String) (os : Os)
    (disk : Disk) where
  -- Every other file of the disk reads as before.
  abbrev pub OthersStay : Disk → Type 0
  OthersStay after =
      (p : String)
      → p ≢ new_path base execution_id subdir filename os
      → get_file p after ≡ get_file p disk

  pub record IsStored (f : StoredFile) (after : Disk) : Type 0 where
    pub original_name : f.original_name ≡ filename
    pub stored_path : f.stored_path ≡ new_path base execution_id subdir filename os
    pub size_eq : f.size ≡ size content
    pub content_eq : get_file f.stored_path after ≡ some content
    pub others : OthersStay after

  -- A file that storeFile reports as stored reads back with the content that was given, under the
  -- name and the size that were reported; when storeFile fails or succeeds, every file at another
  -- path reads as before.
  pub store_file-cases :
      ((f : StoredFile) × (after : Disk) × (store_file base execution_id subdir filename content os
            disk
          ≡ (ok f, after))
        × IsStored f after)
      ⊎ ((e : String) × (after : Disk) × (store_file base execution_id subdir filename content os
              disk
            ≡ (err e, after))
          × OthersStay after)
  unfolding store_file
  store_file-cases =
      let path : String = new_path base execution_id subdir filename os in
      elim (Option-cases os.mkdir_err) [
        | inr (e, broken) ↦ inr (e, disk, rw broken refl, λ p ne. refl)
        | inl made ↦ elim (Option-cases os.create_err) [
          | inr (e, broken) ↦ inr (e, disk, rw (made, broken) refl, λ p ne. refl)
          | inl created ↦ elim (Option-cases os.copy_err) [
            | inr (e, broken) ↦ inr (
              e,
              remove path disk,
              rw (made, created, broken) refl,
              λ p ne. get_file-remove path p disk ne,
            )
            | inl copied ↦ inl (
              record {
                original_name = filename;
                stored_path = path;
                size = size content;
                mime_type = os.detected;
              },
              write path content disk,
              rw (made, created, copied) refl,
              record {
                original_name = refl;
                stored_path = refl;
                size_eq = refl;
                content_eq = rw (eq_refl path) refl;
                others = λ p ne.
                    let other : (path == p) ≡ false = ==-false path p (λ same. ne (sym same)) in
                    rw other (get_file-remove path p disk ne);
              },
            )
          ]
        ]
      ]
