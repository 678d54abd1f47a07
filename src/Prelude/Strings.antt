-- ===== src/Prelude/Strings.antt =====
-- What the program uses of Go's packages unicode and strings. The tables of package unicode are a
-- parameter.
pub mod Parts
pub mod Lines
use Prim.Native.Nat.{ℕ, ◌+◌, ◌-◌}
use mathlib.Core.Bool.{Bool, true, false}
use mathlib.Core.List.{List, [], ◌∷◌, ◌++◌}
use scan2graph.Prelude.Tests.{ltb, ◌==◌, if◌then◌else◌}
use scan2graph.Prelude.Lists.{length, drop, trim_left, trim_right}
use scan2graph.Prelude.Text.{Str, str_eq}

pub record Unicode : Type 0 where
  pub is_space : ℕ → Bool
  pub is_print : ℕ → Bool
  pub is_control : ℕ → Bool
  pub to_lower : ℕ → ℕ

attach : ℕ → List Str → List Str
attach c [] = (c ∷ []) ∷ []
attach c (w ∷ ws) = (c ∷ w) ∷ ws

-- `c` in front of the text `s`, whose words are `ws`.
grow : (ℕ → Bool) → ℕ → Str → List Str → List Str
unfolding attach
grow space c [] ws = (c ∷ []) ∷ ws
grow space c (d ∷ s) ws = if space d then (c ∷ []) ∷ ws else attach c ws

-- `strings.Fields`: the runs of code points that are no space.
unfoldable pub fields : (ℕ → Bool) → Str → List Str
unfolding grow
fields space [] = []
fields space (c ∷ s) = let ws = fields space s in if space c then ws else grow space c s ws

-- `strings.Join(ws, " ")`.
unfoldable pub join_words : List Str → Str
join_words [] = []
join_words (w ∷ ws) = w ++ elim ws [ [] ↦ [] | _ ∷ _ ↦ b' ' ∷ join_words ws ]

unfoldable pub trim_space : (ℕ → Bool) → Str → Str
trim_space space s = trim_right space (trim_left space s)

unfoldable pub has_suffix : Str → Str → Bool
has_suffix s suffix = str_eq (drop (length s - length suffix) s) suffix

unfoldable pub has_prefix : Str → Str → Bool
has_prefix s [] = true
has_prefix [] (p ∷ prefix) = false
has_prefix (c ∷ s) (p ∷ prefix) = if c == p then has_prefix s prefix else false

-- `strings.Contains`.
unfoldable pub has_substring : Str → Str → Bool
unfolding has_prefix
has_substring [] part = has_prefix [] part
has_substring (c ∷ s) part = if has_prefix (c ∷ s) part then true else has_substring s part

-- The bytes of the UTF-8 of a text: what `len` counts.
unfoldable pub rune_len : ℕ → ℕ
rune_len r = if ltb r 128 then 1 else if ltb r 2048 then 2 else if ltb r 65536 then 3 else 4

unfoldable pub byte_len : Str → ℕ
unfolding rune_len
byte_len [] = 0
byte_len (r ∷ s) = rune_len r + byte_len s

-- How often a code point stands in a text.
unfoldable pub count_rune : ℕ → Str → ℕ
count_rune c [] = 0
count_rune c (r ∷ s) = (if r == c then 1 else 0) + count_rune c s

-- What stands before and behind the first place of a code point.
unfoldable pub before_rune : ℕ → Str → Str
before_rune c [] = []
before_rune c (r ∷ s) = if r == c then [] else r ∷ before_rune c s

unfoldable pub after_rune : ℕ → Str → Str
after_rune c [] = []
after_rune c (r ∷ s) = if r == c then s else after_rune c s

-- `strings.Split` at one code point.
unfoldable pub split_at : ℕ → Str → List Str
split_at c [] = [] ∷ []
split_at c (r ∷ s) =
    let rest = split_at c s in
    if r == c then [] ∷ rest else elim rest [ [] ↦ (r ∷ []) ∷ [] | w ∷ ws ↦ (r ∷ w) ∷ ws ]

-- Lines, each with the line feed that ends it.
unfoldable pub unlines : List Str → Str
unlines [] = []
unlines (l ∷ ls) = l ++ 10 ∷ unlines ls
