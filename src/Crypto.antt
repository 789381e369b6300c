-- ===== src/Crypto.antt =====
-- Random tokens (internal/crypto/generate.go). What the system's random source answers to a request
-- for n bytes is an argument: the bytes, or `none` for a failed read.
use Prim.Native.String.{slice}
use Prim.Native.String
use oplet.Prelude.{
  ℕ, ◌+◌, ◌/◌, ◌%◌, String, Option, none, some, List, [], ◌∷◌, Result, ok, err, ◌>>=◌,
}
use oplet.Store.Orm.{Error, failure}

abbrev pub Random : Type 0
Random = ℕ → Option (List ℕ)

-- hex.EncodeToString
unfoldable pub encode_to_string : List ℕ → String
encode_to_string [] = ""
encode_to_string (b ∷ bytes) =
    String.◌++◌ (slice "0123456789abcdef" (b / 16) (b / 16 + 1))
      (String.◌++◌ (slice "0123456789abcdef" (b % 16) (b % 16 + 1)) (encode_to_string bytes))

abbrev bytes_read : Option (List ℕ) → Result Error (List ℕ)
bytes_read none = err (failure "could not read random bytes")
bytes_read (some bytes) = ok bytes

unfoldable pub random_bytes : Random → ℕ → Result Error (List ℕ)
random_bytes random n = bytes_read (random n)

unfoldable pub random_token : Random → ℕ → Result Error String
unfolding random_bytes encode_to_string
random_token random n = random_bytes random n >>= λ bytes. ok (encode_to_string bytes)
