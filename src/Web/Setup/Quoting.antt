-- ===== src/Web/Setup/Quoting.antt =====
-- A line that the wizard writes, and how it is read.
use scan2graph.Prelude.{
  ◌≡◌, refl, sym, ap, ◌∙◌, ◌⊎◌, inl, inr, ℕ, Bool, true, false, not, ◌&&◌, [], ◌∷◌, ◌++◌, none, Str,
  codes, arith, All, is_empty, str_eq, str_eq_iff, ◌==◌, Bool-cases, trim_left, trim_right,
  trim_space, count_rune, has_prefix,
}
use scan2graph.Prelude.Strings.Lines.{
  Omits, is_empty-append, count_rune-Omits, count_rune-append, before_rune-append,
  after_rune-append, trim_right-append, trim_right_idem, trim_space-solid,
}
use scan2graph.Prelude.Dict.{Dict, lookup, put}
use scan2graph.Config.File.{
  trim_prefix, without_last, last_rune, is_quoted, unquote, has_gap, tidy_line, parse_setting,
  add_setting, parse_tidy, parse_line, find,
}
use scan2graph.Web.Setup.{quote_value, setting_line}

-- What is and what is no space, as far as the format relies on it.
pub record IsSpacing (space : ℕ → Bool) : Type 0 where
  pub blank : space 32 ≡ true
  pub tab : space 9 ≡ true
  pub feed : space 10 ≡ true
  pub equals : space b'=' ≡ false
  pub hash : space b'#' ≡ false
  pub quote : space 39 ≡ false

-- A name that the format can hold: not empty, no comment, without spaces and without "=".
pub record IsName (space : ℕ → Bool) (name : Str) : Type 0 where
  pub given : is_empty name ≡ false
  pub no_comment : has_prefix name (codes "#") ≡ false
  pub solid : All (λ r. space r ≡ false) name
  pub no_equals : Omits b'=' name

last_rune-append : (v : Str) (c : ℕ) → last_rune (v ++ c ∷ []) ≡ c
unfolding last_rune
last_rune-append [] c = refl
last_rune-append (r ∷ []) c = refl
last_rune-append (r ∷ q ∷ v) c = last_rune-append (q ∷ v) c

without_last-append : (v : Str) (c : ℕ) → without_last (v ++ c ∷ []) ≡ v
unfolding without_last
without_last-append [] c = refl
without_last-append (r ∷ []) c = refl
without_last-append (r ∷ q ∷ v) c = ap (λ x. r ∷ x) (without_last-append (q ∷ v) c)

unquote-quoted : (v : Str) → unquote (39 ∷ v ++ 39 ∷ []) ≡ v
unfolding unquote is_quoted
unquote-quoted [] = ground arith
unquote-quoted (r ∷ v) = ground (arith, last_rune-append (r ∷ v) 39, without_last-append (r ∷ v) 39)

-- What has a space in it, and no "=", is no prefix of a line whose name has no space.
has_prefix-setting :
    (name q p : Str)
    → Omits 32 name
    → Omits b'=' p
    → (count_rune 32 p == 0) ≡ false
    → has_prefix (name ++ b'=' ∷ q) p ≡ false
unfolding has_prefix count_rune
has_prefix-setting name q [] h k some_space = cc
has_prefix-setting [] q (a ∷ p) h k some_space = ground (arith, k.0)
has_prefix-setting (r ∷ name) q (a ∷ p) h k some_space =
    ground (arith, h.0, has_prefix-setting name q p h.1 k.1)

has_prefix-first :
    (name q : Str) (c : ℕ)
    → is_empty name ≡ false
    → has_prefix name (c ∷ []) ≡ false
    → has_prefix (name ++ q) (c ∷ []) ≡ false
unfolding has_prefix
has_prefix-first [] q c given h = cc
has_prefix-first (r ∷ name) q c given h = ground arith

pub Omits-solid :
    (space : ℕ → Bool) (c : ℕ) (s : Str) → space c ≡ true → All (λ r. space r ≡ false) s → Omits c s
Omits-solid space c [] h solid = tt
Omits-solid space c (r ∷ s) h solid = (
  elim (Bool-cases (r == c)) [ inl e ↦ let same : r ≡ c = ground (arith, e) in cc | inr e ↦ e ],
  Omits-solid space c s h solid.1,
)

module _ (space : ℕ → Bool) (spacing : IsSpacing space) where
  trim_right-quoted : (v : Str) → trim_right space (39 ∷ v ++ 39 ∷ []) ≡ 39 ∷ v ++ 39 ∷ []
  trim_right-quoted v = trim_right-append space (39 ∷ v) 39 [] spacing.quote

  trim_space-quoted : (v : Str) → trim_space space (39 ∷ v ++ 39 ∷ []) ≡ 39 ∷ v ++ 39 ∷ []
  unfolding trim_space
  trim_space-quoted v = rw spacing.quote (trim_right-quoted v)

  -- A value stands bare, or in quotes.
  pub quote_value-cases :
      (v : Str)
      → ((quote_value space v ≡ v) × (trim_space space v ≡ v) × (is_quoted v ≡ false))
        ⊎ (quote_value space v ≡ 39 ∷ v ++ 39 ∷ [])
  unfolding quote_value
  quote_value-cases v = elim (Bool-cases (str_eq v (trim_space space v) && not (is_quoted v))) [
    | inl bare ↦ elim (Bool-cases (count_rune b'#' v == 0)) [
      | inl plain ↦ inl (
        ground (arith, bare, plain),
        sym ((str_eq_iff v (trim_space space v)).0 (ground (arith, bare))),
        ground (arith, bare),
      )
      | inr hash ↦ inr (ground (arith, bare, hash))
    ]
    | inr e ↦ inr (ground (arith, e))
  ]

  -- The quotes are what the parser takes off.
  unquote-quote_value : (v : Str) → unquote (trim_space space (quote_value space v)) ≡ v
  unfolding unquote
  unquote-quote_value v = elim (quote_value-cases v) [
    | inl (e, solid, unquoted) ↦ rw e (rw solid (rw unquoted refl))
    | inr e ↦ rw e (ap unquote (trim_space-quoted v) ∙ unquote-quoted v)
  ]

  trim_right-quote_value : (v : Str) → trim_right space (quote_value space v) ≡ quote_value space v
  unfolding trim_space
  trim_right-quote_value v = elim (quote_value-cases v) [
    | inl (e, solid, _) ↦
        rw e (ap (trim_right space) (sym solid) ∙ trim_right_idem space (trim_left space v) ∙ solid)
    | inr e ↦ rw e (trim_right-quoted v)
  ]

  trim_space-setting :
      (name q : Str)
      → All (λ r. space r ≡ false) name
      → trim_right space q ≡ q
      → trim_space space (name ++ b'=' ∷ q) ≡ name ++ b'=' ∷ q
  unfolding trim_space
  trim_space-setting [] q solid fixed =
      rw spacing.equals
        (trim_right-append space [] b'=' q spacing.equals ∙ ap (λ x. b'=' ∷ x) fixed)
  trim_space-setting (r ∷ name) q solid fixed = rw solid.0 (
      trim_right-append space (r ∷ name) b'=' q spacing.equals
      ∙ ap (λ x. (r ∷ name) ++ b'=' ∷ x) fixed)

  -- The line stays as it is.
  tidy_line-setting_line :
      (values : Dict Str) (name : Str)
      → IsName space name
      → tidy_line space (setting_line space values name) ≡ setting_line space values name
  unfolding tidy_line setting_line trim_prefix
  tidy_line-setting_line values name plain =
      let v = quote_value space (find values name) in
      let trimmed : trim_space space (name ++ b'=' ∷ v) ≡ name ++ b'=' ∷ v =
        trim_space-setting name v plain.solid (trim_right-quote_value (find values name)) in
      let other : has_prefix (name ++ b'=' ∷ v) (codes "export ") ≡ false =
        has_prefix-setting name v (codes "export ")
          (Omits-solid space 32 name spacing.blank plain.solid)
          (refl, (refl, (refl, (refl, (refl, (refl, (refl, tt))))))) refl in
      rw trimmed (rw other trimmed)

  parse_setting-line :
      (number : ℕ) (name q : Str) (out : Dict Str)
      → Omits b'=' name
      → parse_setting space number (name ++ b'=' ∷ q) out
        ≡ add_setting number true (trim_space space name) (unquote (trim_space space q)) out
  unfolding parse_setting
  parse_setting-line number name q out h =
      rw (count_rune-append b'=' name q)
        (rw (before_rune-append b'=' name q h) (rw (after_rune-append b'=' name q h) refl))

  add_setting-name :
      (number : ℕ) (name value : Str) (out : Dict Str)
      → IsName space name
      → lookup name out ≡ none
      → add_setting number true name value out ≡ inr (put name value out)
  unfolding add_setting has_gap
  add_setting-name number name value out plain absent = rw plain.given (
      rw (count_rune-Omits 32 name (Omits-solid space 32 name spacing.blank plain.solid)) (
        rw (count_rune-Omits 9 name (Omits-solid space 9 name spacing.tab plain.solid))
          (rw absent refl)))

  parse_tidy-setting :
      (number : ℕ) (name q : Str) (out : Dict Str)
      → IsName space name
      → parse_tidy space number (name ++ b'=' ∷ q) out
        ≡ parse_setting space number (name ++ b'=' ∷ q) out
  unfolding parse_tidy
  parse_tidy-setting number name q out plain = ground (
    arith,
    is_empty-append name b'=' q,
    has_prefix-first name (b'=' ∷ q) b'#' plain.given plain.no_comment,
  )

  -- A line of the file adds its setting.
  pub parse_line-setting_line :
      (number : ℕ) (values out : Dict Str) (name : Str)
      → IsName space name
      → lookup name out ≡ none
      → parse_line space number (setting_line space values name) out
        ≡ inr (put name (find values name) out)
  unfolding parse_line setting_line
  parse_line-setting_line number values out name plain absent =
      let v = quote_value space (find values name) in
      ap (λ t. parse_tidy space number t out) (tidy_line-setting_line values name plain)
      ∙ parse_tidy-setting number name v out plain
      ∙ parse_setting-line number name v out plain.no_equals
      ∙ rw (unquote-quote_value (find values name)) (
          rw (trim_space-solid space name plain.solid)
            (add_setting-name number name (find values name) out plain absent))

  trim_space-comment : (s : Str) → trim_space space (b'#' ∷ s) ≡ b'#' ∷ trim_right space s
  unfolding trim_space
  trim_space-comment s = ground (arith, spacing.hash)

  tidy_line-comment :
      (s : Str) → tidy_line space (b'#' ∷ s) ≡ b'#' ∷ trim_right space (trim_right space s)
  unfolding tidy_line trim_prefix has_prefix
  tidy_line-comment s = rw (trim_space-comment s) (trim_space-comment (trim_right space s))

  -- A comment, and an empty line, add nothing.
  pub parse_line-comment :
      (number : ℕ) (s : Str) (out : Dict Str) → parse_line space number (b'#' ∷ s) out ≡ inr out
  unfolding parse_line parse_tidy has_prefix
  parse_line-comment number s out = ap (λ t. parse_tidy space number t out) (tidy_line-comment s)

  pub parse_line-blank : (number : ℕ) (out : Dict Str) → parse_line space number [] out ≡ inr out
  unfolding parse_line tidy_line trim_prefix trim_space parse_tidy has_prefix
  parse_line-blank number out = refl
