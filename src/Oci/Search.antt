-- ===== src/Oci/Search.antt =====
-- Substring search of internal/task/oci/registry.go, over the bytes of a Go string.
pub mod Infix
use Prim.Native.Char.{code}
use oplet.Prelude.{
  ℕ, zero, suc, ◌+◌, ◌-◌, String, Bool, true, false, ◌&&◌, ◌||◌, Option, none, some, List, [], ◌∷◌,
  length, take, drop, ltb, leb, nat_eq, if◌then◌else◌,
}

-- The bytes of an ASCII text.
abbrev pub bytes : String → List ℕ
bytes String.[] = []
bytes (String.◌∷◌ c s) = code c ∷ bytes s

abbrev pub bytes_eq : List ℕ → List ℕ → Bool
bytes_eq [] [] = true
bytes_eq [] (_ ∷ _) = false
bytes_eq (_ ∷ _) [] = false
bytes_eq (a ∷ s) (b ∷ t) = nat_eq a b && bytes_eq s t

-- The loop of `indexOfSubstring` with `rounds` indices left from `i`; `none` is the result -1.
unfoldable pub index_loop : List ℕ → List ℕ → ℕ → ℕ → Option ℕ
index_loop s substr i zero = none
index_loop s substr i (suc rounds) =
    let rest = index_loop s substr (i + 1) rounds in
    if bytes_eq (take (length substr) (drop i s)) substr then some i else rest

-- `i <= len(s)-len(substr)` holds for `len(s) + 1 - len(substr)` indices, and for none if the
-- difference is negative.
unfoldable pub index_of_substring : List ℕ → List ℕ → Option ℕ
unfolding index_loop
index_of_substring s substr = index_loop s substr 0 (length s + 1 - length substr)

abbrev found : Option ℕ → Bool
found none = false
found (some i) = true

unfoldable pub contains : List ℕ → List ℕ → Bool
unfolding index_of_substring
contains s substr =
    leb (length substr) (length s)
    && (bytes_eq s substr
        || (ltb (length substr) (length s)
            && (bytes_eq (take (length substr) s) substr
                || bytes_eq (drop (length s - length substr) s) substr
                || found (index_of_substring s substr))))

unfoldable pub is_not_found_error : List ℕ → Bool
is_not_found_error err_str =
    contains err_str (bytes "not found")
    || contains err_str (bytes "404")
    || contains err_str (bytes "MANIFEST_UNKNOWN")
    || contains err_str (bytes "NAME_UNKNOWN")
