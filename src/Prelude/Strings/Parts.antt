-- ===== src/Prelude/Strings/Parts.antt =====
-- What the parts of a text inherit from it.
use Prim.Native.Nat.{ℕ, zero, suc, ◌+◌, ◌≤◌}
use mathlib.Core.Path.{◌≡◌}
use mathlib.Core.Bool.{Bool, true}
use mathlib.Core.List.{List, [], ◌∷◌, ◌++◌}
use native.Mathlib.Omega.{arith}
use scan2graph.Prelude.Lists.{All, filter_by, take, trim_left, trim_right, length}
use scan2graph.Prelude.Text.{Str}
use scan2graph.Prelude.Strings.{attach, grow, fields, join_words, trim_space}

-- Every code point passes a test.
abbrev pub Passes : (ℕ → Bool) → Str → Type 0
Passes p = All λ r. p r ≡ true

pub Passes-filter_by : (p : ℕ → Bool) (s : Str) → Passes p (filter_by p s)
Passes-filter_by p [] = tt
Passes-filter_by p (r ∷ s) = ground (arith, Passes-filter_by p s)

pub Passes-append : (p : ℕ → Bool) (s t : Str) → Passes p s → Passes p t → Passes p (s ++ t)
Passes-append p [] t h k = k
Passes-append p (r ∷ s) t h k = (h.0, Passes-append p s t h.1 k)

pub Passes-take : (p : ℕ → Bool) (n : ℕ) (s : Str) → Passes p s → Passes p (take n s)
Passes-take p zero s h = tt
Passes-take p (suc n) [] h = tt
Passes-take p (suc n) (r ∷ s) h = (h.0, Passes-take p n s h.1)

pub length-take : (n : ℕ) (s : Str) → length (take n s) ≤ n
length-take zero s = omega arith
length-take (suc n) [] = omega arith
length-take (suc n) (r ∷ s) = omega (arith, length-take n s)

pub length-append : (s t : Str) → length (s ++ t) ≤ length s + length t
length-append [] t = omega arith
length-append (r ∷ s) t = omega (arith, length-append s t)

pub Passes-trim_left : (p space : ℕ → Bool) (s : Str) → Passes p s → Passes p (trim_left space s)
Passes-trim_left p space [] h = tt
Passes-trim_left p space (r ∷ s) h = ground (arith, Passes-trim_left p space s h.1)

pub Passes-trim_right : (p space : ℕ → Bool) (s : Str) → Passes p s → Passes p (trim_right space s)
Passes-trim_right p space [] h = tt
Passes-trim_right p space (r ∷ s) h = ground (arith, Passes-trim_right p space s h.1)

pub Passes-trim_space : (p space : ℕ → Bool) (s : Str) → Passes p s → Passes p (trim_space space s)
unfolding trim_space
Passes-trim_space p space s h =
    Passes-trim_right p space (trim_left space s) (Passes-trim_left p space s h)

Passes-attach :
    (p : ℕ → Bool) (c : ℕ) (ws : List Str)
    → p c ≡ true
    → All (Passes p) ws
    → All (Passes p) (attach c ws)
unfolding attach
Passes-attach p c [] h k = ((h, tt), tt)
Passes-attach p c (w ∷ ws) h k = ((h, k.0), k.1)

Passes-grow :
    (p space : ℕ → Bool) (c : ℕ) (s : Str) (ws : List Str)
    → p c ≡ true
    → All (Passes p) ws
    → All (Passes p) (grow space c s ws)
unfolding grow
Passes-grow p space c [] ws h k = ((h, tt), k)
Passes-grow p space c (d ∷ s) ws h k = ground (arith, Passes-attach p c ws h k)

pub Passes-fields : (p space : ℕ → Bool) (s : Str) → Passes p s → All (Passes p) (fields space s)
unfolding fields
Passes-fields p space [] h = tt
Passes-fields p space (c ∷ s) h =
    ground (arith, Passes-fields p space s h.1, Passes-grow p space c s (fields space s) h.0)

pub Passes-join_words :
    (p : ℕ → Bool) (ws : List Str) → p b' ' ≡ true → All (Passes p) ws → Passes p (join_words ws)
unfolding join_words
Passes-join_words p [] h k = tt
Passes-join_words p (w ∷ []) h k = Passes-append p w [] k.0 tt
Passes-join_words p (w ∷ v ∷ ws) h k =
    Passes-append p w _ k.0 (h, Passes-join_words p (v ∷ ws) h k.1)
