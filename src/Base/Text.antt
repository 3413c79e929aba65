-- ===== src/Base/Text.antt =====
-- JavaScript strings as lists of UTF-16 code units, with the tests that the sources make of them.
use Prim.Native.Char.{code}
use Prim.Native.String.{String}
use Prim.Native.Nat.{ℕ}
use mathlib.Core.Path.{◌≡◌}
use mathlib.Core.Logic.{◌↔◌}
use mathlib.Core.Bool.{Bool, true, false, ◌&&◌, ◌||◌}
use mathlib.Core.List.{List, [], ◌∷◌}
use native.Mathlib.Omega.{arith}
use coraza_node.Base.Lists.{any}
use coraza_node.Base.Tests.{◌==◌}

abbrev pub Text : Type 0
Text = List ℕ

-- A literal of the source. The literals that are quoted here are ASCII.
abbrev pub codes : String → Text
codes String.[] = []
codes (String.◌∷◌ c s) = code c ∷ codes s

-- `===` on strings.
unfoldable pub text_eq : Text → Text → Bool
text_eq [] [] = true
text_eq [] (d ∷ t) = false
text_eq (c ∷ s) [] = false
text_eq (c ∷ s) (d ∷ t) = c == d && text_eq s t

pub text_eq_iff : (s t : Text) → (text_eq s t ≡ true) ↔ (s ≡ t)
unfolding text_eq
text_eq_iff [] [] = ground arith
text_eq_iff [] (d ∷ t) = ground arith
text_eq_iff (c ∷ s) [] = ground arith
text_eq_iff (c ∷ s) (d ∷ t) = ground (arith, text_eq_iff s t)

-- Membership in a set of strings.
unfoldable pub has : List Text → Text → Bool
has [] t = false
has (s ∷ ss) t = text_eq s t || has ss t

pub any-has :
    (p : Text → Bool) (ss : List Text) (t : Text) → has ss t ≡ true → p t ≡ true → any p ss ≡ true
unfolding has
any-has p [] t h k = cc
any-has p (s ∷ ss) t h k = ground (arith, text_eq_iff s t, any-has p ss t)

-- `toLowerCase` and `toUpperCase` follow the Unicode tables of the engine, so the mappings are an
-- argument of what uses them.
pub record Casing : Type 0 where
  pub to_lower_case : Text → Text
  pub to_upper_case : Text → Text
