-- ===== src/Prelude/Sorting.antt =====
-- `sort.Slice`, which sorts by a test that says what comes before what.
use mathlib.Core.Bool.{Bool, true, false}
use mathlib.Core.List.{List, [], ◌∷◌, ◌++◌, Memᴰ}
use mathlib.Core.Path.{◌≡◌, refl, sym, subst}
use native.Mathlib.Omega.{arith}
use mathlib.Core.Logic.{inl, inr}
use scan2graph.Prelude.Tests.{if◌then◌else◌, Bool-cases}
use scan2graph.Prelude.Lists.{All}

module _ {ℓ} {A : Type ℓ} where
  unfoldable pub insert_by : (A → A → Bool) → A → List A → List A
  insert_by before a [] = a ∷ []
  insert_by before a (x ∷ xs) = if before x a then x ∷ insert_by before a xs else a ∷ x ∷ xs

  unfoldable pub sort_by : (A → A → Bool) → List A → List A
  unfolding insert_by
  sort_by before [] = []
  sort_by before (x ∷ xs) = insert_by before x (sort_by before xs)

  -- Nothing comes before an element that stands ahead of it.
  abbrev pub IsSortedBy : (A → A → Bool) → List A → Type 0
  IsSortedBy before [] = Unit
  IsSortedBy before (x ∷ xs) = All (λ y. before y x ≡ false) xs × IsSortedBy before xs

  pub All-insert_by :
      (before : A → A → Bool) (P : A → Type 0) (a : A) (xs : List A)
      → P a
      → All P xs
      → All P (insert_by before a xs)
  unfolding insert_by
  All-insert_by before P a [] p h = (p, tt)
  All-insert_by before P a (x ∷ xs) p h = ground (arith, All-insert_by before P a xs p h.1)

  pub All-sort_by :
      (before : A → A → Bool) (P : A → Type 0) (xs : List A) → All P xs → All P (sort_by before xs)
  unfolding sort_by
  All-sort_by before P [] h = tt
  All-sort_by before P (x ∷ xs) h =
      All-insert_by before P x (sort_by before xs) h.0 (All-sort_by before P xs h.1)

  pub All-map : (P Q : A → Type 0) (xs : List A) → ((a : A) → P a → Q a) → All P xs → All Q xs
  All-map P Q [] f h = tt
  All-map P Q (x ∷ xs) f h = (f x h.0, All-map P Q xs f h.1)

-- Sorting by a strict weak order sorts.
module _ {ℓ} {A : Type ℓ} (before : A → A → Bool)
    (asym : (a b : A) → before a b ≡ true → before b a ≡ false)
    (chain : (a b c : A) → before a b ≡ false → before b c ≡ false → before a c ≡ false) where
  insert_by-IsSortedBy :
      (a : A) (xs : List A) → IsSortedBy before xs → IsSortedBy before (insert_by before a xs)
  unfolding insert_by
  insert_by-IsSortedBy a [] o = (tt, tt)
  insert_by-IsSortedBy a (x ∷ xs) o = elim (Bool-cases (before x a)) [
    | inl b ↦ rw b (
      All-insert_by before (λ y. before y x ≡ false) a xs (asym x a b) o.0,
      insert_by-IsSortedBy a xs o.1,
    )
    | inr b ↦ rw b ((b, All-map _ _ xs (λ y h. chain y x a h b) o.0), o)
  ]

  pub sort_by-IsSortedBy : (xs : List A) → IsSortedBy before (sort_by before xs)
  unfolding sort_by
  sort_by-IsSortedBy [] = tt
  sort_by-IsSortedBy (x ∷ xs) = insert_by-IsSortedBy x (sort_by before xs) (sort_by-IsSortedBy xs)

module _ {ℓ} {A : Type ℓ} (before : A → A → Bool) where
  All-append_right : (P : A → Type 0) (xs ys : List A) → All P (xs ++ ys) → All P ys
  All-append_right P [] ys h = h
  All-append_right P (x ∷ xs) ys h = All-append_right P xs ys h.1

  -- In a sorted list nothing of the back part comes before anything of the front part.
  pub IsSortedBy-append :
      (xs ys : List A)
      → IsSortedBy before (xs ++ ys)
      → All (λ x. All (λ y. before y x ≡ false) ys) xs
  IsSortedBy-append [] ys o = tt
  IsSortedBy-append (x ∷ xs) ys o = (All-append_right _ xs ys o.0, IsSortedBy-append xs ys o.1)

module _ {ℓ} {A : Type ℓ} (before : A → A → Bool) where
  insert_by-Memᴰ_self : (a : A) (xs : List A) → Memᴰ a (insert_by before a xs)
  unfolding insert_by
  insert_by-Memᴰ_self a [] = Memᴰ.head refl
  insert_by-Memᴰ_self a (x ∷ xs) = elim (Bool-cases (before x a)) [
    | inl b ↦ rw b (Memᴰ.tail (insert_by-Memᴰ_self a xs))
    | inr b ↦ rw b (Memᴰ.head refl)
  ]

  insert_by-Memᴰ : (a y : A) (xs : List A) → Memᴰ y xs → Memᴰ y (insert_by before a xs)
  unfolding insert_by
  insert_by-Memᴰ a y [] m = Memᴰ.tail m
  insert_by-Memᴰ a y (x ∷ xs) (Memᴰ.head e) = elim (Bool-cases (before x a)) [
    | inl b ↦ rw b (Memᴰ.head e)
    | inr b ↦ rw b (Memᴰ.tail (Memᴰ.head e))
  ]
  insert_by-Memᴰ a y (x ∷ xs) (Memᴰ.tail m) = elim (Bool-cases (before x a)) [
    | inl b ↦ rw b (Memᴰ.tail (insert_by-Memᴰ a y xs m))
    | inr b ↦ rw b (Memᴰ.tail (Memᴰ.tail m))
  ]

  -- Sorting loses nothing.
  pub sort_by-Memᴰ : (y : A) (xs : List A) → Memᴰ y xs → Memᴰ y (sort_by before xs)
  unfolding sort_by
  sort_by-Memᴰ y [] m = m
  sort_by-Memᴰ y (x ∷ xs) (Memᴰ.head e) =
      subst (λ z. Memᴰ z (sort_by before (x ∷ xs))) (sym e)
        (insert_by-Memᴰ_self x (sort_by before xs))
  sort_by-Memᴰ y (x ∷ xs) (Memᴰ.tail m) =
      insert_by-Memᴰ x y (sort_by before xs) (sort_by-Memᴰ y xs m)
