-- ===== src/Prelude/Text.antt =====
-- Text as bytes: what the program walks character by character.
use Prim.Native.Char.{code}
use Prim.Native.Nat.{ℕ}
use Prim.Native.String.{String}
use mathlib.Core.Path.{◌≡◌, refl}
use mathlib.Core.Logic.{◌↔◌}
use mathlib.Core.Bool.{Bool, true, false, ◌&&◌}
use mathlib.Core.List.{List, [], ◌∷◌}
use native.Mathlib.Omega.{arith}
use sclork_tools.Prelude.Tests.{◌==◌}

abbrev pub Bytes : Type 0
Bytes = List ℕ

-- The code points of a literal; these are its bytes when the text is ASCII.
abbrev pub codes : String → Bytes
codes String.[] = []
codes (String.◌∷◌ c s) = code c ∷ codes s

-- Are the two byte strings equal?
unfoldable pub beq : Bytes → Bytes → Bool
beq [] [] = true
beq (x ∷ a) (y ∷ b) = x == y && beq a b
beq a b = false

pub beq_iff : (a b : Bytes) → (beq a b ≡ true) ↔ (a ≡ b)
unfolding beq
beq_iff [] [] = (λ h. refl, λ e. refl)
beq_iff [] (y ∷ b) = (λ h. ground arith, λ e. ground arith)
beq_iff (x ∷ a) [] = (λ h. ground arith, λ e. ground arith)
beq_iff (x ∷ a) (y ∷ b) = (λ h. ground (arith, beq_iff a b), λ e. ground (arith, beq_iff a b))
