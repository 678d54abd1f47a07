-- ===== src/Web/Setup.antt =====
-- internal/web/setup.go: the file that the wizard writes.
pub mod Quoting
mod Names
mod Comments
pub mod RoundTrip
pub mod Examples
use scan2graph.Prelude.{
  ℕ, Bool, true, not, ◌&&◌, List, [], ◌∷◌, ◌++◌, Option, Str, codes, str_eq, if◌then◌else◌,
  is_empty, trim_space, count_rune, ◌==◌, sort_by, map, unlines,
}
use scan2graph.Prelude.Dict.{Dict}
use scan2graph.Config.Env.{UrlLibrary, resolve_quietly}
use scan2graph.Config.Urls.{resolve_base_url}
use scan2graph.Config.File.{is_quoted, find, layer, str_before, keys}

module _ (space : ℕ → Bool) where
  unfoldable pub quote_value : Str → Str
  unfolding trim_space is_quoted count_rune str_eq
  quote_value v =
      if str_eq v (trim_space space v) && not (is_quoted v) && (count_rune b'#' v == 0)
      then v
      else 39 ∷ v ++ 39 ∷ []

  -- The line of one setting.
  unfoldable pub setting_line : Dict Str → Str → Str
  unfolding quote_value find
  setting_line values name = name ++ b'=' ∷ quote_value (find values name)

module _ (lib : UrlLibrary) (getenv : Str → Str) (read_file : Str → Option Str) where
  unfoldable pub redirect_uri : Dict Str → Str
  unfolding resolve_base_url layer
  redirect_uri values =
      let base =
        resolve_base_url lib (layer values getenv) read_file (codes "S2G_PUBLIC_BASE_URL") in
      if is_empty base then [] else base ++ codes "/auth/callback"

  redirect_lines : Dict Str → List Str
  unfolding redirect_uri
  redirect_lines values =
      if is_empty (redirect_uri values)
      then []
      else codes "#"
        ∷ codes "# The Entra app registration needs this redirect URI, under"
        ∷ codes "# Authentication as a Web platform, or signing in fails:"
        ∷ (codes "#   " ++ redirect_uri values)
        ∷ []

  sender_lines : Dict Str → List Str
  unfolding resolve_quietly layer
  sender_lines values =
      if is_empty (resolve_quietly (layer values getenv) read_file (codes "S2G_GRAPH_SENDER"))
      then []
      else codes "#"
        ∷ codes "# It also needs the Mail.Send application permission, with admin"
        ∷ codes "# consent granted, or nothing can be mailed out - and Mail.ReadWrite"
        ∷ codes "# beside it if a scan can be larger than 2.2 MB, which the default"
        ∷ codes "# 32 MiB message limit leaves plenty of room for."
        ∷ []

  -- The comment above the settings.
  unfoldable pub comment_lines : Dict Str → List Str
  unfolding redirect_lines sender_lines
  comment_lines values =
      (codes "# scan2graph configuration, written by the setup wizard."
        ∷ codes "# Editing it by hand is fine; real environment variables still win."
        ∷ redirect_lines values)
      ++ sender_lines values

  unfoldable pub serialize : (ℕ → Bool) → Dict Str → Str
  unfolding comment_lines setting_line sort_by str_before keys unlines
  serialize space values = unlines (
      comment_lines values
      ++ [] ∷ map (setting_line space values) (sort_by str_before (keys values)))
