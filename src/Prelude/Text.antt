-- ===== src/Prelude/Text.antt =====
-- A Go string as the list of its code points, with the equality that Go's `==` decides.
use Prim.Native.Nat.{ℕ}
use Prim.Native.Char.{code}
use Prim.Native.String.{String}
use mathlib.Core.Path.{◌≡◌, refl}
use mathlib.Core.Logic.{◌↔◌}
use mathlib.Core.Bool.{Bool, true, false, ◌&&◌}
use mathlib.Core.List.{List, [], ◌∷◌}
use native.Mathlib.Omega.{arith}
use scan2graph.Prelude.Tests.{◌==◌, if◌then◌else◌}

abbrev pub Str : Type 0
Str = List ℕ

-- A literal of the source.
abbrev pub codes : String → Str
codes String.[] = []
codes (String.◌∷◌ c s) = code c ∷ codes s

unfoldable pub str_eq : Str → Str → Bool
str_eq [] [] = true
str_eq (a ∷ x) (b ∷ y) = a == b && str_eq x y
str_eq _ _ = false

eq-of-str_eq : (x y : Str) → str_eq x y ≡ true → x ≡ y
unfolding str_eq
eq-of-str_eq [] [] h = refl
eq-of-str_eq [] (b ∷ y) h = ground arith
eq-of-str_eq (a ∷ x) [] h = ground arith
eq-of-str_eq (a ∷ x) (b ∷ y) h = ground (arith, eq-of-str_eq x y)

pub str_eq_refl : (x : Str) → str_eq x x ≡ true
unfolding str_eq
str_eq_refl [] = refl
str_eq_refl (a ∷ x) = ground (arith, str_eq_refl x)

pub str_eq_iff : (x y : Str) → (str_eq x y ≡ true) ↔ (x ≡ y)
str_eq_iff x y = (eq-of-str_eq x y, λ e. rw e (str_eq_refl y))

-- Membership, as in `slices.Contains` or a `map[string]bool`.
unfoldable pub contains : Str → List Str → Bool
contains k [] = false
contains k (x ∷ xs) = if str_eq x k then true else contains k xs
