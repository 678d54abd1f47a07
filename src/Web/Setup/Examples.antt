-- ===== src/Web/Setup/Examples.antt =====
-- The theorems on the wizard, applied to two settings.
use scan2graph.Prelude.{
  ◌≡◌, refl, inr, ℕ, Bool, true, false, ◌&&◌, ◌||◌, leb, ◌==◌, if◌then◌else◌, All, arith, is_empty,
  has_prefix, count_rune, [], ◌∷◌, Str, codes, none, some,
}
use scan2graph.Prelude.Strings.Lines.{Omits-of_count_rune}
use scan2graph.Prelude.Dict.{Dict, lookup}
use scan2graph.Config.Load.Examples.{https_urls}
use scan2graph.Config.File.{parse_file}
use scan2graph.Web.Setup.{serialize}
use scan2graph.Web.Setup.Quoting.{IsName}
use scan2graph.Web.Setup.RoundTrip.{parse_file-serialize}

abbrev white : ℕ → Bool
white r = (leb 9 r && leb r 13) || (r == 32)

abbrev has_white : Str → Bool
has_white [] = false
has_white (r ∷ s) = if white r then true else has_white s

solid : (s : Str) → has_white s ≡ false → All (λ r. white r ≡ false) s
solid [] h = tt
solid (r ∷ s) h = (ground arith, solid s (ground arith))

named :
    (s : Str)
    → is_empty s ≡ false
    → has_prefix s (codes "#") ≡ false
    → has_white s ≡ false
    → count_rune b'=' s ≡ 0
    → IsName white s
named s given no_comment no_white no_equals = record {
  given = given;
  no_comment = no_comment;
  solid = solid s no_white;
  no_equals = Omits-of_count_rune b'=' s no_equals;
}

abbrev two_settings : Dict Str
two_settings =
    (codes "S2G_UI_TITLE", codes " a#b ") ∷ (codes "S2G_PUBLIC_BASE_URL", codes "https://a.b") ∷ []

parse_file-serialize_example :
    (read : Dict Str) × (parse_file white
        (some (serialize https_urls (λ k. []) (λ path. none) white two_settings))
      ≡ inr read)
    × ((k : Str) → lookup k read ≡ lookup k two_settings)
unfolding parse_file scan2graph.Web.Setup.redirect_uri lookup https_urls scan2graph.Prelude.str_eq
    scan2graph.Config.File.keys count_rune
parse_file-serialize_example =
    parse_file-serialize https_urls (λ k. []) (λ path. none) white two_settings
      (record { blank = refl; tab = refl; feed = refl; equals = refl; hash = refl; quote = refl })
      ((refl, tt), (tt, tt)) (named _ refl refl refl refl, (named _ refl refl refl refl, tt))
      (
        Omits-of_count_rune 10 (codes " a#b ") refl,
        (Omits-of_count_rune 10 (codes "https://a.b") refl, tt),
      )
      (Omits-of_count_rune 10 (codes "https://a.b/auth/callback") refl)
