-- ===== src/Base/Texts/Trim.antt =====
-- `strings.TrimSpace` makes no text longer.
use Prim.Native.Nat.{suc, ◌≤◌}
use Prim.Native.Char.{code}
use Prim.Native.String.{String}
use text.Mathlib.Text.{◌==◌ as str_eq}
use mathlib.Core.Bool.{◌&&◌}
use native.Mathlib.Omega.{arith}
use omihomo.Base.Tests.{split_bool}
use omihomo.Base.Lists.{length}
use omihomo.Base.Texts.{codes, is_space, trim_left, trim_right, trim_space}

trim_left-shorter : (s : String) → length (codes (trim_left s)) ≤ length (codes s)
unfolding trim_left
trim_left-shorter String.[] = omega arith
trim_left-shorter (String.◌∷◌ c s) =
    split_bool (λ (t : String). length (codes t) ≤ suc (length (codes s))) (is_space (code c)) _ _
      (λ h. omega (arith, trim_left-shorter s)) (λ h. omega arith)

trim_right-shorter : (s : String) → length (codes (trim_right s)) ≤ length (codes s)
unfolding trim_right
trim_right-shorter String.[] = omega arith
trim_right-shorter (String.◌∷◌ c s) =
    split_bool (λ (t : String). length (codes t) ≤ suc (length (codes s)))
      (is_space (code c) && str_eq (trim_right s) "") _ _ (λ h. omega arith)
      (λ h. omega (arith, trim_right-shorter s))

pub trim_space-shorter : (s : String) → length (codes (trim_space s)) ≤ length (codes s)
unfolding trim_space
trim_space-shorter s = omega (arith, trim_left-shorter s, trim_right-shorter (trim_left s))
