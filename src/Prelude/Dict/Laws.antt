-- ===== src/Prelude/Dict/Laws.antt =====
-- What the operations of a map do to its entries.
use mathlib.Core.Path.{◌≡◌, refl}
use mathlib.Core.Bool.{Bool, false}
use mathlib.Core.Option.{none, some}
use mathlib.Core.List.{[], ◌∷◌}
use native.Mathlib.Omega.{arith}
use scan2graph.Prelude.Tests.{if◌then◌else◌}
use scan2graph.Prelude.Text.{Str, str_eq, str_eq_iff}
use scan2graph.Prelude.Dict.Defs.{Dict, lookup, put, delete, retain, Lacks, Unique, Every}

module _ {ℓ} {V : Type ℓ} where
  pub lookup-put :
      (k j : Str) (v : V) (m : Dict V)
      → lookup j (put k v m) ≡ (if str_eq k j then some v else lookup j m)
  unfolding lookup put
  lookup-put k j v [] = refl
  lookup-put k j v ((i, w) ∷ m) =
      ground (arith, str_eq_iff k j, str_eq_iff i k, str_eq_iff i j, lookup-put k j v m)

  pub lookup_of_Lacks : (k : Str) (m : Dict V) → Lacks k m → lookup k m ≡ none
  unfolding lookup
  lookup_of_Lacks k [] h = refl
  lookup_of_Lacks k ((j, v) ∷ m) h = ground (arith, lookup_of_Lacks k m h.1)

  pub Lacks-of_lookup : (k : Str) (m : Dict V) → lookup k m ≡ none → Lacks k m
  unfolding lookup
  Lacks-of_lookup k [] h = tt
  Lacks-of_lookup k ((j, v) ∷ m) h = ground (arith, Lacks-of_lookup k m)

  pub lookup-delete :
      (k j : Str) (m : Dict V)
      → Unique m
      → lookup j (delete k m) ≡ (if str_eq k j then none else lookup j m)
  unfolding lookup delete
  lookup-delete k j [] u = ground arith
  lookup-delete k j ((i, w) ∷ m) u = ground (
    arith,
    str_eq_iff k j,
    str_eq_iff i k,
    str_eq_iff i j,
    lookup-delete k j m u.1,
    lookup_of_Lacks j m,
  )

  Lacks-put :
      (i k : Str) (v : V) (m : Dict V) → str_eq k i ≡ false → Lacks i m → Lacks i (put k v m)
  unfolding put
  Lacks-put i k v [] n h = (n, tt)
  Lacks-put i k v ((j, w) ∷ m) n h = ground (arith, Lacks-put i k v m n h.1)

  Lacks-delete : (i k : Str) (m : Dict V) → Lacks i m → Lacks i (delete k m)
  unfolding delete
  Lacks-delete i k [] h = tt
  Lacks-delete i k ((j, w) ∷ m) h = ground (arith, Lacks-delete i k m h.1)

  Lacks-retain : (i : Str) (p : V → Bool) (m : Dict V) → Lacks i m → Lacks i (retain p m)
  unfolding retain
  Lacks-retain i p [] h = tt
  Lacks-retain i p ((j, w) ∷ m) h = ground (arith, Lacks-retain i p m h.1)

  pub delete-put : (k : Str) (v : V) (m : Dict V) → delete k (put k v m) ≡ delete k m
  unfolding delete put
  delete-put k v [] = ground (arith, str_eq_iff k k)
  delete-put k v ((j, w) ∷ m) = ground (arith, delete-put k v m)

  pub lookup-ne-nil : (k : Str) (m : Dict V) {v : V} → lookup k m ≡ some v → m ≡ [] → ⊥
  unfolding lookup
  lookup-ne-nil k [] h e = cc
  lookup-ne-nil k (x ∷ m) h e = cc

  pub Unique-put : (k : Str) (v : V) (m : Dict V) → Unique m → Unique (put k v m)
  unfolding put
  Unique-put k v [] u = (tt, tt)
  Unique-put k v ((j, w) ∷ m) u =
      ground (arith, str_eq_iff j k, str_eq_iff k j, Lacks-put j k v m, Unique-put k v m u.1)

  pub Unique-delete : (k : Str) (m : Dict V) → Unique m → Unique (delete k m)
  unfolding delete
  Unique-delete k [] u = tt
  Unique-delete k ((j, w) ∷ m) u = ground (arith, Lacks-delete j k m u.0, Unique-delete k m u.1)

  pub Unique-retain : (p : V → Bool) (m : Dict V) → Unique m → Unique (retain p m)
  unfolding retain
  Unique-retain p [] u = tt
  Unique-retain p ((j, w) ∷ m) u = ground (arith, Lacks-retain j p m u.0, Unique-retain p m u.1)

  -- A loop that deletes entries finds the others as before.
  pub lookup-retain :
      (k : Str) (p : V → Bool) (m : Dict V)
      → Unique m
      → lookup k (retain p m)
        ≡ elim (lookup k m) [ none ↦ none | some v ↦ if p v then some v else none ]
  unfolding lookup retain
  lookup-retain k p [] u = refl
  lookup-retain k p ((j, w) ∷ m) u =
      ground (arith, str_eq_iff j k, lookup-retain k p m u.1, lookup_of_Lacks k m)

module _ {ℓ} {V : Type ℓ} (P : V → Type 0) where
  pub Every-lookup : (k : Str) (m : Dict V) {v : V} → Every P m → lookup k m ≡ some v → P v
  unfolding lookup
  Every-lookup k [] e h = ground arith
  Every-lookup k ((j, w) ∷ m) {v = x} e h = ground (arith, Every-lookup k m {v = x} e.1)

  pub Every-put : (k : Str) (v : V) (m : Dict V) → P v → Every P m → Every P (put k v m)
  unfolding put
  Every-put k v [] p e = (p, tt)
  Every-put k v ((j, w) ∷ m) p e = ground (arith, Every-put k v m p e.1)

  pub Every-delete : (k : Str) (m : Dict V) → Every P m → Every P (delete k m)
  unfolding delete
  Every-delete k [] e = tt
  Every-delete k ((j, w) ∷ m) e = ground (arith, Every-delete k m e.1)

  pub Every-retain : (p : V → Bool) (m : Dict V) → Every P m → Every P (retain p m)
  unfolding retain
  Every-retain p [] e = tt
  Every-retain p ((j, w) ∷ m) e = ground (arith, Every-retain p m e.1)
