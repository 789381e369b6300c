-- ===== src/Strings/Order.antt =====
-- The order of texts that strings.Compare decides is total and transitive.
use oplet.Prelude.{String, ◌≡◌, refl, true, false, arith}
use oplet.Strings.{text_le}

pub text_le_total : (s t : String) → text_le s t ≡ false → text_le t s ≡ true
unfolding text_le
text_le_total String.[] t h = absurd cc
text_le_total (String.◌∷◌ c s) String.[] h = refl
text_le_total (String.◌∷◌ c s) (String.◌∷◌ d t) h = ground (arith, text_le_total s t)

pub text_le_trans : (s t u : String) → text_le s t ≡ true → text_le t u ≡ true → text_le s u ≡ true
unfolding text_le
text_le_trans String.[] t u h k = refl
text_le_trans (String.◌∷◌ c s) String.[] u h k = absurd cc
text_le_trans (String.◌∷◌ c s) (String.◌∷◌ d t) String.[] h k = absurd cc
text_le_trans (String.◌∷◌ c s) (String.◌∷◌ d t) (String.◌∷◌ e u) h k =
    ground (arith, text_le_trans s t u)
