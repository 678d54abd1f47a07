-- ===== src/Web/Setup/Comments.antt =====
-- The comment above the settings, and the lines of the file.
use scan2graph.Prelude.{
  ◌≡◌, refl, inl, inr, ℕ, arith, Bool, List, [], ◌∷◌, ◌++◌, Option, Str, codes, All, Bool-cases,
  is_empty, map, count_rune, str_eq,
}
use scan2graph.Prelude.Strings.Lines.{Omits, Omits-append, Omits-of_count_rune}
use scan2graph.Prelude.Dict.{Dict, Every, lookup}
use scan2graph.Config.Env.{UrlLibrary, resolve_quietly}
use scan2graph.Config.File.{find, layer}
use scan2graph.Web.Setup.{
  quote_value, setting_line, redirect_lines, sender_lines, comment_lines, redirect_uri,
}
use scan2graph.Web.Setup.Quoting.{IsSpacing, IsName, Omits-solid, quote_value-cases}

-- A line that begins with "#" and holds no line feed.
abbrev pub IsComment : Str → Type 0
IsComment l = ((s : Str) × (l ≡ b'#' ∷ s)) × Omits 10 l

comment : (s : Str) → count_rune 10 s ≡ 0 → IsComment (b'#' ∷ s)
comment s h = ((s, refl), (refl, Omits-of_count_rune 10 s h))

find-Omits : (values : Dict Str) (k : Str) → Every (Omits 10) values → Omits 10 (find values k)
unfolding find lookup
find-Omits [] k h = tt
find-Omits ((j, v) ∷ values) k h = elim (Bool-cases (str_eq j k)) [
  | inl e ↦ let here : find ((j, v) ∷ values) k ≡ v = ground (arith, e) in rw here h.0
  | inr e ↦
      let there : find ((j, v) ∷ values) k ≡ find values k = ground (arith, e) in
      rw there (find-Omits values k h.1)
]

IsComment-append :
    (xs ys : List Str) → All IsComment xs → All IsComment ys → All IsComment (xs ++ ys)
IsComment-append [] ys h k = k
IsComment-append (x ∷ xs) ys h k = (h.0, IsComment-append xs ys h.1 k)

module _ (lib : UrlLibrary) (getenv : Str → Str) (read_file : Str → Option Str)
    (values : Dict Str) where
  redirect_lines-IsComment :
      Omits 10 (redirect_uri lib getenv read_file values)
      → All IsComment (redirect_lines lib getenv read_file values)
  unfolding redirect_lines count_rune
  redirect_lines-IsComment h =
      elim (Bool-cases (is_empty (redirect_uri lib getenv read_file values))) [
        | inl e ↦ rw e tt
        | inr e ↦ rw e (
          comment _ refl,
          (
            comment _ refl,
            (
              comment _ refl,
              (
                (
                  (_, refl),
                  Omits-append 10 (codes "#   ") (redirect_uri lib getenv read_file values)
                      (Omits-of_count_rune 10 (codes "#   ") refl) h,
                ),
                tt,
              ),
            ),
          ),
        )
      ]

  sender_lines-IsComment : All IsComment (sender_lines lib getenv read_file values)
  unfolding sender_lines count_rune
  sender_lines-IsComment =
      elim (Bool-cases
        (is_empty (resolve_quietly (layer values getenv) read_file (codes "S2G_GRAPH_SENDER")))) [
          | inl e ↦ rw e tt
          | inr e ↦ rw e (
            comment _ refl,
            (comment _ refl, (comment _ refl, (comment _ refl, (comment _ refl, tt)))),
          )
        ]

  pub comment_lines-IsComment :
      Omits 10 (redirect_uri lib getenv read_file values)
      → All IsComment (comment_lines lib getenv read_file values)
  unfolding comment_lines count_rune
  comment_lines-IsComment h =
      IsComment-append
        (codes "# scan2graph configuration, written by the setup wizard."
          ∷ codes "# Editing it by hand is fine; real environment variables still win."
          ∷ redirect_lines lib getenv read_file values)
        (sender_lines lib getenv read_file values)
        (comment _ refl, (comment _ refl, redirect_lines-IsComment h)) sender_lines-IsComment

module _ (space : ℕ → Bool) (spacing : IsSpacing space) where
  quote_value-Omits : (v : Str) → Omits 10 v → Omits 10 (quote_value space v)
  quote_value-Omits v h = elim (quote_value-cases space spacing v) [
    | inl (e, _, _) ↦ rw e h
    | inr e ↦ rw e (refl, Omits-append 10 v (39 ∷ []) h (refl, tt))
  ]

  setting_line-Omits :
      (values : Dict Str) (name : Str)
      → IsName space name
      → Omits 10 (find values name)
      → Omits 10 (setting_line space values name)
  unfolding setting_line
  setting_line-Omits values name plain h =
      Omits-append 10 name _ (Omits-solid space 10 name spacing.feed plain.solid)
        (refl, quote_value-Omits (find values name) h)

  pub setting_lines-Omits :
      (values : Dict Str) (ks : List Str)
      → All (IsName space) ks
      → Every (Omits 10) values
      → All (Omits 10) (map (setting_line space values) ks)
  setting_lines-Omits values [] plain h = tt
  setting_lines-Omits values (k ∷ ks) plain h = (
    setting_line-Omits values k plain.0 (find-Omits values k h),
    setting_lines-Omits values ks plain.1 h,
  )
