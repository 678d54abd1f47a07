-- ===== src/Config/Env.antt =====
-- internal/config/env.go: the getters of the loader.
-- Each gives the value and what errorf notes. The functions of the standard library that read files,
-- durations and URLs are a parameter; strconv's on numbers and Booleans are written out.
use scan2graph.Prelude.{
  ℕ, ◌+◌, ◌*◌, ◌-◌, Bool, true, false, not, ◌&&◌, ◌||◌, List, [], ◌∷◌, ◌++◌, Option, none, some,
  Str, codes, contains, ltb, leb, ◌==◌, if◌then◌else◌, is_empty, trim_right, half,
}

-- net/url's parsed URL, with what the loader asks of one and the path that it sets.
pub record UrlLibrary : Type 1 where
  pub Url : Type 0
  pub parse : Str → Option Url
  pub is_abs : Url → Bool
  pub scheme : Url → Str
  pub host : Url → Str
  pub raw_query : Url → Str
  pub fragment : Url → Str
  pub path : Url → Str
  pub escaped_path : Url → Str
  pub with_path : Str → Url → Url
  pub print : Url → Str

-- What an unfinished `Load` has noted: errorf with the name of the setting.
pub data EnvError : Type 0 where
  both_set unreadable bad_duration too_short bad_boolean bad_integer not_positive : Str → EnvError
  required : Str → Str → EnvError
  bad_url relative_url bad_scheme no_host with_query bad_subpath : Str → EnvError

abbrev pub Noted {ℓ} : Type ℓ → Type ℓ
Noted A = A × List EnvError

-- The cut set of `resolve`.
unfoldable pub is_trailing : ℕ → Bool
is_trailing r = (r == b' ') || (r == 9) || (r == 13) || (r == 10)

-- What resolveRequired does with the result of `resolve`.
unfoldable pub require : Str → Str → Noted (Option Str) → Noted (Option Str)
require name reason (none, errs) = (none, errs ++ required name reason ∷ [])
require name reason (some v, errs) =
    if not (is_empty v) then (some v, errs) else (none, errs ++ required name reason ∷ [])

-- The value, or what stands for one where there is none.
unfoldable pub value_or : Str → Noted (Option Str) → Noted Str
value_or fallback (none, errs) = (fallback, errs)
value_or fallback (some v, errs) = (v, errs)

module _ (getenv : Str → Str) (read_file : Str → Option Str) where
  -- The value is `none` where ok is false.
  unfoldable pub resolve : Str → Noted (Option Str)
  unfolding is_trailing
  resolve name =
      let direct = getenv name in
      let file_path = getenv (name ++ codes "_FILE") in
      if not (is_empty direct) && not (is_empty file_path)
      then (none, both_set name ∷ [])
      else if not (is_empty file_path)
      then elim (read_file file_path) [
        | none ↦ (none, unreadable (name ++ codes "_FILE") ∷ [])
        | some text ↦ (some (trim_right is_trailing text), [])
      ]
      else if not (is_empty direct)
      then (some direct, [])
      else (none, [])

  -- `Resolve`.
  unfoldable pub resolve_quietly : Str → Str
  unfolding resolve
  resolve_quietly name = elim (resolve name).0 [ none ↦ [] | some v ↦ v ]

  unfoldable pub resolve_required : Str → Str → Noted (Option Str)
  unfolding resolve require
  resolve_required name reason = require name reason (resolve name)

  unfoldable pub required_if : Str → Bool → Str → Noted Str
  unfolding resolve_required resolve value_or
  required_if name needed reason =
      value_or [] (if needed then resolve_required name reason else resolve name)

  unfoldable pub string_default : Str → Str → Noted Str
  unfolding resolve value_or
  string_default name fallback = value_or fallback (resolve name)

  -- `durationValue`; a duration is a number of nanoseconds, and one below 0 is read as 0.
  unfoldable pub duration_value : (Str → Option ℕ) → Str → ℕ → Noted (ℕ × Bool)
  unfolding resolve
  duration_value parse_duration name fallback =
      let (found, errs) = resolve name in
      elim found [
        | none ↦ ((fallback, false), errs)
        | some raw ↦ elim (parse_duration raw) [
          | none ↦ ((fallback, false), errs ++ bad_duration name ∷ [])
          | some d ↦ ((d, true), errs)
        ]
      ]

  unfoldable pub duration_at_least : (Str → Option ℕ) → Str → ℕ → ℕ → Noted ℕ
  unfolding duration_value
  duration_at_least parse_duration name fallback least =
      let ((d, resolved), errs) = duration_value parse_duration name fallback in
      (d, if resolved && ltb d least then errs ++ too_short name ∷ [] else errs)

-- `strconv.ParseBool`.
unfoldable pub parse_bool : Str → Option Bool
unfolding contains
parse_bool s =
    if contains s
      (codes "1" ∷ codes "t" ∷ codes "T" ∷ codes "true" ∷ codes "TRUE" ∷ codes "True" ∷ [])
    then some true
    else if contains s
        (codes "0" ∷ codes "f" ∷ codes "F" ∷ codes "false" ∷ codes "FALSE" ∷ codes "False" ∷ [])
    then some false
    else none

-- The decimal digits of a text, read from the left onto a number.
digits : ℕ → Str → Option ℕ
digits n [] = some n
digits n (r ∷ s) = if leb b'0' r && leb r b'9' then digits (n * 10 + (r - b'0')) s else none

magnitude : Str → Option ℕ
unfolding digits
magnitude [] = none
magnitude (r ∷ s) = digits 0 (r ∷ s)

-- A whole number that `int64` can hold: whether it is below 0, and its size.
bounded : Bool → Option ℕ → Option (Bool × ℕ)
bounded minus none = none
bounded true (some n) = if leb n half then some (not (n == 0), n) else none
bounded false (some n) = if ltb n half then some (false, n) else none

-- `strconv.ParseInt(s, 10, 64)`, and `strconv.Atoi` where an int has 64 bits.
unfoldable pub parse_int : Str → Option (Bool × ℕ)
unfolding magnitude bounded
parse_int [] = none
parse_int (r ∷ s) =
    if r == b'-'
    then bounded true (magnitude s)
    else bounded false (magnitude (if r == b'+' then s else r ∷ s))

module _ (getenv : Str → Str) (read_file : Str → Option Str) where
  unfoldable pub bool_value : Str → Bool → Noted (Bool × Bool)
  unfolding resolve parse_bool
  bool_value name fallback =
      let (found, errs) = resolve getenv read_file name in
      elim found [
        | none ↦ ((fallback, false), errs)
        | some raw ↦ elim (parse_bool raw) [
          | none ↦ ((fallback, false), errs ++ bad_boolean name ∷ [])
          | some b ↦ ((b, true), errs)
        ]
      ]

  -- `intPositive` and `int64Positive`; a number below 0, which is noted, is read as 0.
  unfoldable pub int_positive : Str → ℕ → Noted ℕ
  unfolding resolve parse_int
  int_positive name fallback =
      let (found, errs) = resolve getenv read_file name in
      elim found [
        | none ↦ (fallback, errs)
        | some raw ↦ elim (parse_int raw) [
          | none ↦ (fallback, errs ++ bad_integer name ∷ [])
          | some (minus, n) ↦
              if minus || (n == 0) then (0, errs ++ not_positive name ∷ []) else (n, errs)
        ]
      ]
