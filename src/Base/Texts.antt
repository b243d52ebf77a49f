-- ===== src/Base/Texts.antt =====
-- Texts that are taken apart, as lists of code points.
use Prim.Native.Nat.{ℕ}
use Prim.Native.Char.{code}
use Prim.Native.String.{String}
use mathlib.Core.Path.{◌≡◌, refl}
use mathlib.Core.Logic.{◌↔◌}
use mathlib.Core.Bool.{Bool, true, false, ◌&&◌}
use mathlib.Core.List.{List, [], ◌∷◌}
use native.Mathlib.Omega.{arith}
use shop_verse.Base.Tests.{◌==◌}

abbrev pub Text : Type 0
Text = List ℕ

abbrev pub codes : String → Text
codes String.[] = []
codes (String.◌∷◌ c s) = code c ∷ codes s

abbrev pub is_same_text : Text → Text → Bool
is_same_text [] [] = true
is_same_text [] (d ∷ ds) = false
is_same_text (c ∷ cs) [] = false
is_same_text (c ∷ cs) (d ∷ ds) = c == d && is_same_text cs ds

pub is_same_text_iff : (s t : Text) → (is_same_text s t ≡ true) ↔ (s ≡ t)
is_same_text_iff [] [] = (λ h. refl, λ h. refl)
is_same_text_iff [] (d ∷ ds) = (λ h. ground arith, λ h. ground arith)
is_same_text_iff (c ∷ cs) [] = (λ h. ground arith, λ h. ground arith)
is_same_text_iff (c ∷ cs) (d ∷ ds) =
    (λ h. ground (arith, is_same_text_iff cs ds), λ h. ground (arith, is_same_text_iff cs ds))
