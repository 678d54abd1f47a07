-- ===== src/Prelude/Lists.antt =====
-- Lists measured by native numbers, predicates on lists, and filters by a Boolean test.
use Prim.Native.Nat.{ℕ, zero, suc}
use mathlib.Core.Bool.{Bool, true, false, ◌&&◌}
use mathlib.Core.List.{List, [], ◌∷◌, ◌++◌}
use scan2graph.Prelude.Tests.{if◌then◌else◌}

module _ {ℓ} {A : Type ℓ} where
  abbrev pub length : List A → ℕ
  length [] = 0
  length (x ∷ xs) = suc (length xs)

  abbrev pub is_empty : List A → Bool
  is_empty [] = true
  is_empty (x ∷ xs) = false

  abbrev pub filter_by : (A → Bool) → List A → List A
  filter_by p [] = []
  filter_by p (x ∷ xs) = if p x then x ∷ filter_by p xs else filter_by p xs

  -- A predicate at every element.
  abbrev pub All {κ} : (A → Type κ) → List A → Type κ
  All P [] = Unit
  All P (x ∷ xs) = P x × All P xs

  abbrev pub take : ℕ → List A → List A
  take zero xs = []
  take (suc n) [] = []
  take (suc n) (x ∷ xs) = x ∷ take n xs

  abbrev pub drop : ℕ → List A → List A
  drop zero xs = xs
  drop (suc n) [] = []
  drop (suc n) (x ∷ xs) = drop n xs

  -- Without the elements at the front, or at the end, that pass a test.
  abbrev pub trim_left : (A → Bool) → List A → List A
  trim_left p [] = []
  trim_left p (x ∷ xs) = if p x then trim_left p xs else x ∷ xs

  abbrev pub trim_right : (A → Bool) → List A → List A
  trim_right p [] = []
  trim_right p (x ∷ xs) =
      let rest = trim_right p xs in if p x && is_empty rest then [] else x ∷ rest

  pub All-append {κ} :
      (P : A → Type κ) (x : A) (xs : List A) → P x → All P xs → All P (xs ++ x ∷ [])
  All-append P x [] p h = (p, tt)
  All-append P x (y ∷ xs) p h = (h.0, All-append P x xs p h.1)
