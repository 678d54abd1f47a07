-- ===== src/Prelude/Dict/Totals.antt =====
-- Sums over the values of a map.
use Prim.Native.Nat.{ℕ, ◌+◌, ◌≤◌}
use mathlib.Core.Path.{◌≡◌}
use mathlib.Core.Bool.{Bool, not}
use mathlib.Core.Option.{none, some}
use mathlib.Core.List.{[], ◌∷◌}
use native.Mathlib.Omega.{arith}
use scan2graph.Prelude.Text.{Str}
use scan2graph.Prelude.Dict.Defs.{Dict, lookup, put, delete, retain, total}

module _ {ℓ} {V : Type ℓ} (f : V → ℕ) where
  pub total-put_new :
      (k : Str) (v : V) (m : Dict V) → lookup k m ≡ none → total f (put k v m) ≡ total f m + f v
  unfolding total put lookup
  total-put_new k v [] h = omega arith
  total-put_new k v ((j, w) ∷ m) h = ground (arith, total-put_new k v m)

  pub total-put :
      (k : Str) (v : V) (m : Dict V) {w : V}
      → lookup k m ≡ some w
      → total f (put k v m) + f w ≡ total f m + f v
  unfolding total put lookup
  total-put k v [] h = ground arith
  total-put k v ((j, w) ∷ m) {w = x} h = ground (arith, total-put k v m {w = x})

  pub total-delete :
      (k : Str) (m : Dict V) {w : V} → lookup k m ≡ some w → total f (delete k m) + f w ≡ total f m
  unfolding total delete lookup
  total-delete k [] h = ground arith
  total-delete k ((j, w) ∷ m) {w = x} h = ground (arith, total-delete k m {w = x})

  pub le-total : (k : Str) (m : Dict V) {w : V} → lookup k m ≡ some w → f w ≤ total f m
  unfolding total lookup
  le-total k [] h = ground arith
  le-total k ((j, w) ∷ m) {w = x} h = ground (arith, le-total k m {w = x})

  -- What a loop keeps and what it deletes.
  pub total-retain :
      (p : V → Bool) (m : Dict V)
      → total f (retain p m) + total f (retain (λ v. not (p v)) m) ≡ total f m
  unfolding total retain
  total-retain p [] = omega arith
  total-retain p ((j, w) ∷ m) = ground (arith, total-retain p m)
