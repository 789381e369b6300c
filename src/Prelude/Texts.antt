-- ===== src/Prelude/Texts.antt =====
-- Texts under the Boolean test of equality.
use Prim.Native.String.{String}
use mathlib.Core.Path.{◌≡◌, sym, ◌∙◌}
use mathlib.Core.Logic.{◌≢◌, inl, inr}
use mathlib.Core.Bool.{Bool, true, false}
use oplet.Prelude.Tests.{Bool-cases}
use text.Mathlib.Text.{◌==◌}
use text.Mathlib.TextEquality.{eq_iff}

pub equal_texts : (s t : String) → (s == t) ≡ true → s ≡ t
equal_texts s t = (eq_iff s t).0

pub distinct_texts : (s t : String) → (s == t) ≡ false → s ≢ t
distinct_texts s t h e = let g : ◌≡◌ {A = Bool} true false = sym ((eq_iff s t).1 e) ∙ h in cc

pub differ_sym : (s t : String) → (s == t) ≡ false → (t == s) ≡ false
differ_sym s t h = elim (Bool-cases (t == s)) [
  | inl same ↦ absurd (distinct_texts s t h (sym (equal_texts t s same)))
  | inr differ ↦ differ
]
