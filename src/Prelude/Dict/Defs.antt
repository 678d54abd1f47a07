-- ===== src/Prelude/Dict/Defs.antt =====
-- The operations of a map, and predicates on its keys and values.
use Prim.Native.Nat.{ℕ, ◌+◌}
use mathlib.Core.Path.{◌≡◌}
use mathlib.Core.Bool.{Bool, false}
use mathlib.Core.Option.{Option, none, some}
use mathlib.Core.List.{List, [], ◌∷◌}
use scan2graph.Prelude.Tests.{if◌then◌else◌}
use scan2graph.Prelude.Text.{Str, str_eq}
use scan2graph.Prelude.Lists.{All}

abbrev pub Dict {ℓ} : Type ℓ → Type ℓ
Dict V = List (Str × V)

module _ {ℓ} {V : Type ℓ} where
  unfoldable pub lookup : Str → Dict V → Option V
  lookup k [] = none
  lookup k ((j, v) ∷ m) = if str_eq j k then some v else lookup k m

  -- `m[k] = v`.
  unfoldable pub put : Str → V → Dict V → Dict V
  put k v [] = (k, v) ∷ []
  put k v ((j, w) ∷ m) = if str_eq j k then (j, v) ∷ m else (j, w) ∷ put k v m

  -- `delete(m, k)`.
  unfoldable pub delete : Str → Dict V → Dict V
  delete k [] = []
  delete k ((j, v) ∷ m) = if str_eq j k then m else (j, v) ∷ delete k m

  -- The entries whose value passes a test: a loop that deletes the others.
  unfoldable pub retain : (V → Bool) → Dict V → Dict V
  retain p [] = []
  retain p ((j, v) ∷ m) = if p v then (j, v) ∷ retain p m else retain p m

  -- The sum of a measure over the values.
  unfoldable pub total : (V → ℕ) → Dict V → ℕ
  total f [] = 0
  total f ((j, v) ∷ m) = f v + total f m

  -- No entry has this key; no two entries have the same.
  abbrev pub Lacks : Str → Dict V → Type 0
  Lacks k = All λ e. str_eq e.0 k ≡ false

  abbrev pub Unique : Dict V → Type 0
  Unique [] = Unit
  Unique (e ∷ m) = Lacks e.0 m × Unique m

  -- A predicate at every value.
  abbrev pub Every : (V → Type 0) → Dict V → Type 0
  Every P = All λ e. P e.1
