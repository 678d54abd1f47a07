-- ===== src/Prelude/Strings/Lines.antt =====
-- Texts that are put together and cut again: lines, and the two sides of a code point.
use Prim.Native.Nat.{ℕ}
use mathlib.Core.Path.{◌≡◌, refl, ap, ◌∙◌}
use mathlib.Core.Logic.{inl, inr}
use mathlib.Core.Bool.{Bool, false, ◌&&◌}
use mathlib.Core.List.{List, [], ◌∷◌, ◌++◌}
use native.Mathlib.Omega.{arith}
use scan2graph.Prelude.Tests.{◌==◌, Bool-cases}
use scan2graph.Prelude.Lists.{All, is_empty, trim_right}
use scan2graph.Prelude.Text.{Str}
use scan2graph.Prelude.Strings.{trim_space, count_rune, before_rune, after_rune, split_at, unlines}

-- A code point that does not occur.
abbrev pub Omits : ℕ → Str → Type 0
Omits c = All λ r. (r == c) ≡ false

pub split_at-append :
    (c : ℕ) (l rest : Str) → Omits c l → split_at c (l ++ c ∷ rest) ≡ l ∷ split_at c rest
unfolding split_at
split_at-append c [] rest h = ground arith
split_at-append c (r ∷ l) rest h = ground (arith, split_at-append c l rest h.1)

pub split_at-unlines :
    (ls : List Str) → All (Omits 10) ls → split_at 10 (unlines ls) ≡ ls ++ [] ∷ []
unfolding unlines split_at
split_at-unlines [] h = refl
split_at-unlines (l ∷ ls) h =
    split_at-append 10 l (unlines ls) h.0 ∙ ap (λ x. l ∷ x) (split_at-unlines ls h.1)

pub count_rune-Omits : (c : ℕ) (s : Str) → Omits c s → count_rune c s ≡ 0
unfolding count_rune
count_rune-Omits c [] h = refl
count_rune-Omits c (r ∷ s) h = ground (arith, count_rune-Omits c s h.1)

pub count_rune-append : (c : ℕ) (s t : Str) → (count_rune c (s ++ c ∷ t) == 0) ≡ false
unfolding count_rune
count_rune-append c [] t = ground arith
count_rune-append c (r ∷ s) t = ground (arith, count_rune-append c s t)

pub before_rune-append : (c : ℕ) (s t : Str) → Omits c s → before_rune c (s ++ c ∷ t) ≡ s
unfolding before_rune
before_rune-append c [] t h = ground arith
before_rune-append c (r ∷ s) t h = ground (arith, before_rune-append c s t h.1)

pub after_rune-append : (c : ℕ) (s t : Str) → Omits c s → after_rune c (s ++ c ∷ t) ≡ t
unfolding after_rune
after_rune-append c [] t h = ground arith
after_rune-append c (r ∷ s) t h = ground (arith, after_rune-append c s t h.1)

pub is_empty-append : (s : Str) (c : ℕ) (t : Str) → is_empty (s ++ c ∷ t) ≡ false
is_empty-append [] c t = refl
is_empty-append (r ∷ s) c t = refl

-- A code point that is no space keeps what stands in front of it.
pub trim_right-append :
    (space : ℕ → Bool) (s : Str) (c : ℕ) (t : Str)
    → space c ≡ false
    → trim_right space (s ++ c ∷ t) ≡ s ++ c ∷ trim_right space t
trim_right-append space [] c t h = ground arith
trim_right-append space (r ∷ s) c t h =
    ground (arith, trim_right-append space s c t h, is_empty-append s c (trim_right space t))

pub trim_right_idem :
    (space : ℕ → Bool) (s : Str) → trim_right space (trim_right space s) ≡ trim_right space s
trim_right_idem space [] = refl
trim_right_idem space (r ∷ s) = elim (Bool-cases (space r && is_empty (trim_right space s))) [
  | inl e ↦ rw e refl
  | inr e ↦ rw e (ground (arith, e, trim_right_idem space s))
]

trim_right-solid :
    (space : ℕ → Bool) (s : Str) → All (λ r. space r ≡ false) s → trim_right space s ≡ s
trim_right-solid space [] h = refl
trim_right-solid space (r ∷ s) h = ground (arith, trim_right-solid space s h.1)

-- A text without spaces is not trimmed.
pub trim_space-solid :
    (space : ℕ → Bool) (s : Str) → All (λ r. space r ≡ false) s → trim_space space s ≡ s
unfolding trim_space
trim_space-solid space [] h = refl
trim_space-solid space (r ∷ s) h = ground (arith, trim_right-solid space s h.1)

pub Omits-append : (c : ℕ) (s t : Str) → Omits c s → Omits c t → Omits c (s ++ t)
Omits-append c [] t h k = k
Omits-append c (r ∷ s) t h k = (h.0, Omits-append c s t h.1 k)

pub Omits-of_count_rune : (c : ℕ) (s : Str) → count_rune c s ≡ 0 → Omits c s
unfolding count_rune
Omits-of_count_rune c [] h = tt
Omits-of_count_rune c (r ∷ s) h = (ground arith, Omits-of_count_rune c s (ground arith))
