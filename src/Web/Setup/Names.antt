-- ===== src/Web/Setup/Names.antt =====
-- The names of the settings, sorted as the wizard writes them.
use scan2graph.Prelude.{
  ◌≡◌, refl, ◌∙◌, inl, inr, Bool, true, false, List, [], ◌∷◌, none, some, Str, arith, str_eq,
  str_eq_iff, contains, if◌then◌else◌, Bool-cases, sort_by, insert_by,
}
use scan2graph.Prelude.Dict.{Dict, lookup, Unique, Lacks}
use scan2graph.Config.File.{keys, find}

-- No name stands twice.
abbrev pub Distinct : List Str → Type 0
Distinct [] = Unit
Distinct (k ∷ ks) = (contains k ks ≡ false) × Distinct ks

str_eq_comm : (x y : Str) → str_eq x y ≡ str_eq y x
str_eq_comm x y = ground (arith, str_eq_iff x y, str_eq_iff y x)

contains-insert_by :
    (before : Str → Str → Bool) (k a : Str) (xs : List Str)
    → contains k (insert_by before a xs) ≡ (if str_eq a k then true else contains k xs)
unfolding contains insert_by
contains-insert_by before k a [] = refl
contains-insert_by before k a (x ∷ xs) = ground (arith, contains-insert_by before k a xs)

pub contains-sort_by :
    (before : Str → Str → Bool) (k : Str) (xs : List Str)
    → contains k (sort_by before xs) ≡ contains k xs
unfolding contains sort_by
contains-sort_by before k [] = refl
contains-sort_by before k (x ∷ xs) =
    contains-insert_by before k x (sort_by before xs) ∙ rw (contains-sort_by before k xs) refl

insert_by-Distinct :
    (before : Str → Str → Bool) (a : Str) (xs : List Str)
    → contains a xs ≡ false
    → Distinct xs
    → Distinct (insert_by before a xs)
unfolding insert_by contains
insert_by-Distinct before a [] h d = (refl, tt)
insert_by-Distinct before a (x ∷ xs) h d = elim (Bool-cases (before x a)) [
  | inl b ↦ rw b (
    contains-insert_by before x a xs ∙ ground (arith, h, d.0, str_eq_comm a x),
    insert_by-Distinct before a xs (ground (arith, h)) d.1,
  )
  | inr b ↦ rw b (h, d)
]

pub sort_by-Distinct :
    (before : Str → Str → Bool) (xs : List Str) → Distinct xs → Distinct (sort_by before xs)
unfolding sort_by
sort_by-Distinct before [] d = tt
sort_by-Distinct before (x ∷ xs) d =
    insert_by-Distinct before x (sort_by before xs) (contains-sort_by before x xs ∙ d.0)
      (sort_by-Distinct before xs d.1)

contains-keys : (m : Dict Str) (k : Str) → Lacks k m → contains k (keys m) ≡ false
unfolding contains keys
contains-keys [] k h = refl
contains-keys ((j, v) ∷ m) k h = ground (arith, h.0, contains-keys m k h.1)

pub keys-Distinct : (m : Dict Str) → Unique m → Distinct (keys m)
unfolding keys
keys-Distinct [] h = tt
keys-Distinct ((j, v) ∷ m) h = (contains-keys m j h.0, keys-Distinct m h.1)

-- A map is what it says of its keys.
pub lookup-keys :
    (m : Dict Str) (k : Str) → (if contains k (keys m) then some (find m k) else none) ≡ lookup k m
unfolding lookup keys contains find
lookup-keys [] k = refl
lookup-keys ((j, v) ∷ m) k = ground (arith, lookup-keys m k)
