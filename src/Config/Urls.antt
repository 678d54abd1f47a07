-- ===== src/Config/Urls.antt =====
-- internal/config/env.go: the settings that are URLs.
use scan2graph.Prelude.{
  ℕ, Bool, true, false, not, ◌&&◌, ◌||◌, List, [], ◌∷◌, ◌++◌, Option, none, some, Str, codes,
  contains, leb, ◌==◌, if◌then◌else◌, is_empty, trim_right,
}
use scan2graph.Config.Env.{
  UrlLibrary, EnvError, bad_url, relative_url, bad_scheme, no_host, with_query, bad_subpath, Noted,
  resolve, required_if,
}

unfoldable pub is_slash : ℕ → Bool
is_slash r = r == b'/'

is_word_rune : ℕ → Bool
is_word_rune r =
    (leb b'A' r && leb r b'Z')
    || (leb b'a' r && leb r b'z')
    || (leb b'0' r && leb r b'9')
    || (r == b'_')
    || (r == b'~')
    || (r == b'-')

-- `plainSubpath`, behind a "/" (`fresh`) or behind a rune of a segment.
plain_segments : Bool → Str → Bool
unfolding is_word_rune is_slash
plain_segments fresh [] = not fresh
plain_segments true (r ∷ s) = if is_word_rune r then plain_segments false s else false
plain_segments false (r ∷ s) =
    let behind_slash = plain_segments true s in
    let within_segment = plain_segments false s in
    if is_slash r
    then behind_slash
    else if is_word_rune r || (r == b'.')
    then within_segment
    else false

-- `plainSubpath.MatchString`.
unfoldable pub is_plain_subpath : Str → Bool
unfolding plain_segments is_slash
is_plain_subpath [] = true
is_plain_subpath (r ∷ s) = if is_slash r then plain_segments true s else false

module _ (lib : UrlLibrary) where
  -- What parseBaseURL refuses in a URL that parses.
  unfoldable pub url_error : Str → List Str → lib.Url → Option EnvError
  unfolding contains
  url_error name schemes url =
      if not (lib.is_abs url)
      then some (relative_url name)
      else if not (contains (lib.scheme url) schemes)
      then some (bad_scheme name)
      else if is_empty (lib.host url)
      then some (no_host name)
      else if not (is_empty (lib.raw_query url)) || not (is_empty (lib.fragment url))
      then some (with_query name)
      else none

  unfoldable pub parse_base_url : Str → Str → List Str → Str × Option EnvError
  unfolding url_error is_slash
  parse_base_url name value schemes = elim (lib.parse value) [
    | none ↦ ([], some (bad_url name))
    | some url ↦ elim (url_error name schemes url) [
      | some e ↦ ([], some e)
      | none ↦ (lib.print (lib.with_path (trim_right is_slash (lib.path url)) url), none)
    ]
  ]

  unfoldable pub noted : List EnvError → Str × Option EnvError → Noted Str
  noted errs (v, none) = (v, errs)
  noted errs (v, some e) = ([], errs ++ e ∷ [])

  -- What baseURL does with the result of requiredIf.
  unfoldable pub parse_noted : Str → List Str → Noted Str → Noted Str
  unfolding noted parse_base_url
  parse_noted name schemes (raw, errs) =
      if is_empty raw then ([], errs) else noted errs (parse_base_url name raw schemes)

  -- What publicBaseURL does with the result of baseURL. Where the printed URL does not parse, which
  -- parse_base_url is relied on to exclude, the code would read the path of a nil pointer.
  unfoldable pub check_subpath : Str → Noted Str → Noted Str
  unfolding is_plain_subpath
  check_subpath name (v, errs) = if is_empty v then ([], errs) else elim (lib.parse v) [
    | none ↦ ([], errs ++ bad_subpath name ∷ [])
    | some url ↦
        if is_plain_subpath (lib.escaped_path url)
        then (v, errs)
        else ([], errs ++ bad_subpath name ∷ [])
  ]

  -- `BasePath`.
  unfoldable pub base_path : Str → Str
  unfolding is_slash
  base_path base = elim (lib.parse base) [
    | none ↦ []
    | some url ↦ trim_right is_slash (lib.path url)
  ]

  module _ (getenv : Str → Str) (read_file : Str → Option Str) where
    unfoldable pub base_url : Str → Bool → Str → List Str → Noted Str
    unfolding parse_noted required_if
    base_url name needed reason schemes =
        parse_noted name schemes (required_if getenv read_file name needed reason)

    unfoldable pub public_base_url : Str → Bool → Str → Noted Str
    unfolding base_url check_subpath
    public_base_url name needed reason =
        check_subpath name (base_url name needed reason (codes "http" ∷ codes "https" ∷ []))

    unfoldable pub base_url_default : Str → Str → List Str → Noted Str
    unfolding parse_base_url noted resolve
    base_url_default name fallback schemes =
        let (found, errs) = resolve getenv read_file name in
        noted errs (parse_base_url name (elim found [ none ↦ fallback | some v ↦ v ]) schemes)

    -- `ResolveBaseURL`.
    unfoldable pub resolve_base_url : Str → Str
    unfolding public_base_url
    resolve_base_url name = (public_base_url name false []).0
