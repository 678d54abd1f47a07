-- ===== src/Config/File.antt =====
-- internal/config/file.go: the configuration file, and what it gives below the environment.
-- The bytes of the file are read as the code points of their UTF-8.
pub mod Layers
use scan2graph.Prelude.{
  ℕ, suc, Bool, true, false, not, ◌&&◌, ◌||◌, List, [], ◌∷◌, ◌++◌, Option, none, some, Str, codes,
  leb, ◌==◌, if◌then◌else◌, is_empty, has_prefix, has_suffix, drop, take, length, ◌-◌, trim_space,
  count_rune, before_rune, after_rune, split_at, ◌⊎◌, inl, inr, byte_len, str_eq, sort_by,
  filter_by, map,
}
use scan2graph.Prelude.Dict.{Dict, lookup, put}

-- What ParseFile refuses: the number of the line.
pub data FileError : Type 0 where
  unreadable : FileError
  malformed : ℕ → FileError
  duplicate : ℕ → Str → FileError

-- `strings.TrimPrefix` and `strings.TrimSuffix`.
unfoldable pub trim_prefix : Str → Str → Str
unfolding has_prefix
trim_prefix s prefix = if has_prefix s prefix then drop (length prefix) s else s

-- `s[:len(s)-1]`, and the last code point, or 0 where there is none.
unfoldable pub without_last : Str → Str
without_last [] = []
without_last (r ∷ []) = []
without_last (r ∷ q ∷ s) = r ∷ without_last (q ∷ s)

unfoldable pub last_rune : Str → ℕ
last_rune [] = 0
last_rune (r ∷ []) = r
last_rune (r ∷ q ∷ s) = last_rune (q ∷ s)

-- A matched pair of quotes around a text.
unfoldable pub is_quoted : Str → Bool
unfolding last_rune
is_quoted [] = false
is_quoted (r ∷ []) = false
is_quoted (r ∷ q ∷ s) = ((r == 39) || (r == 34)) && (last_rune (q ∷ s) == r)

unfoldable pub unquote : Str → Str
unfolding is_quoted without_last
unquote s = if is_quoted s then without_last (drop 1 s) else s

-- `strings.ContainsAny(name, " \t")`.
unfoldable pub has_gap : Str → Bool
unfolding count_rune
has_gap name = not (count_rune b' ' name == 0) || not (count_rune 9 name == 0)

-- The checks on a line, of which it is known whether it has a "=", and what becomes of its setting.
unfoldable pub add_setting : ℕ → Bool → Str → Str → Dict Str → FileError ⊎ Dict Str
unfolding has_gap lookup put
add_setting number cut name value out =
    if not cut || is_empty name || has_gap name
    then inl (malformed number)
    else elim (lookup name out) [
      | some _ ↦ inl (duplicate number name)
      | none ↦ inr (put name value out)
    ]

module _ (space : ℕ → Bool) where
  -- The line without the spaces around it, and without "export ".
  unfoldable pub tidy_line : Str → Str
  unfolding trim_space trim_prefix
  tidy_line line = trim_space space (trim_prefix (trim_space space line) (codes "export "))

  -- A line that is not blank, cut at its "=".
  unfoldable pub parse_setting : ℕ → Str → Dict Str → FileError ⊎ Dict Str
  unfolding count_rune before_rune after_rune trim_space unquote
  parse_setting number line out =
      add_setting number (not (count_rune b'=' line == 0))
        (trim_space space (before_rune b'=' line))
        (unquote (trim_space space (after_rune b'=' line))) out

  unfoldable pub parse_tidy : ℕ → Str → Dict Str → FileError ⊎ Dict Str
  unfolding has_prefix
  parse_tidy number line out =
      if is_empty line || has_prefix line (codes "#")
      then inr out
      else parse_setting number line out

  -- The body of the loop: the settings so far, with that of a line.
  unfoldable pub parse_line : ℕ → Str → Dict Str → FileError ⊎ Dict Str
  parse_line number line out = parse_tidy number (tidy_line line) out

  unfoldable pub parse_lines : ℕ → List Str → Dict Str → FileError ⊎ Dict Str
  parse_lines number [] out = inr out
  parse_lines number (line ∷ lines) out = elim (parse_line number line out) [
    | inl e ↦ inl e
    | inr out' ↦ parse_lines (suc number) lines out'
  ]

  -- `ParseFile`, on what os.ReadFile gives.
  unfoldable pub parse_file : Option Str → FileError ⊎ Dict Str
  unfolding parse_lines split_at trim_prefix
  parse_file none = inl unreadable
  parse_file (some text) = parse_lines 1 (split_at 10 (trim_prefix text (65279 ∷ []))) []

unfoldable pub paired_name : Str → Str
unfolding has_suffix
paired_name name =
    if has_suffix name (codes "_FILE") then take (length name - 5) name else name ++ codes "_FILE"

-- What a name stands for in a map that answers "" for what it lacks.
unfoldable pub find : Dict Str → Str → Str
unfolding lookup
find file name = elim (lookup name file) [ none ↦ [] | some v ↦ v ]

unfoldable pub layer : Dict Str → (Str → Str) → Str → Str
unfolding paired_name find
layer file environ name =
    if not (is_empty (environ name))
    then environ name
    else if not (is_empty (environ (paired_name name)))
    then []
    else find file name

-- `<` on strings: that of their bytes, which in UTF-8 is that of the code points.
unfoldable pub str_before : Str → Str → Bool
str_before x [] = false
str_before [] (b ∷ y) = true
str_before (a ∷ x) (b ∷ y) = if a == b then str_before x y else leb a b

unfoldable pub keys : Dict Str → List Str
keys [] = []
keys ((k, v) ∷ m) = k ∷ keys m

-- `FileEnv`: the path, what os.ReadFile gives for it, and the environment.
unfoldable pub file_env :
    (ℕ → Bool) → Str → Option Str → (Str → Str) → FileError ⊎ ((Str → Str) × List Str)
unfolding parse_file layer keys str_before sort_by paired_name
file_env space path text environ =
    if is_empty path then inr (environ, []) else elim (parse_file space text) [
      | inl e ↦ inl e
      | inr file ↦ inr (
        layer file environ,
        sort_by str_before (
            filter_by
              (λ name. not (is_empty (environ name)) || not (is_empty (environ (paired_name name))))
              (keys file)),
      )
    ]
