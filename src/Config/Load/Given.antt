-- ===== src/Config/Load/Given.antt =====
-- Settings that are given where the loader notes nothing.
use scan2graph.Prelude.{
  ◌≡◌, inl, inr, refl, true, false, List, [], ◌∷◌, ◌++◌, Option, none, some, Str, is_empty, arith,
  Option-cases, map, ◌≢◌, trim_right,
}
use scan2graph.Config.Env.{
  UrlLibrary, EnvError, Noted, require, value_or, resolve_required, required_if, resolve,
  bad_subpath,
}
use scan2graph.Config.Urls.{url_error, noted, parse_noted, parse_base_url, check_subpath, is_slash}
use scan2graph.Config.Loader.{setting, bad_sender}
use scan2graph.Config.Settings.{Environment, flag}
use scan2graph.Config.Services.{normalize_sender}

pub nil-append {ℓ} : {A : Type ℓ} (xs ys : List A) → xs ++ ys ≡ [] → (xs ≡ []) × (ys ≡ [])
nil-append [] ys e = (refl, e)
nil-append (x ∷ xs) ys e = cc

pub ne_nil-append {ℓ} : {A : Type ℓ} (xs : List A) (y : A) → xs ++ y ∷ [] ≢ []
ne_nil-append [] y e = cc
ne_nil-append (x ∷ xs) y e = cc

pub nil-map {ℓ κ} : {A : Type ℓ} {B : Type κ} (f : A → B) (xs : List A) → map f xs ≡ [] → xs ≡ []
nil-map f [] e = refl
nil-map f (x ∷ xs) e = cc

-- A value that is there where nothing is noted.
abbrev pub IsGiven : Noted Str → Type 0
IsGiven r = r.1 ≡ [] → is_empty r.0 ≡ false

require-IsGiven :
    (name reason : Str) (r : Noted (Option Str)) → IsGiven (value_or [] (require name reason r))
unfolding require value_or
require-IsGiven name reason (none, []) fine = cc
require-IsGiven name reason (none, e ∷ errs) fine = cc
require-IsGiven name reason (some [], []) fine = cc
require-IsGiven name reason (some [], e ∷ errs) fine = cc
require-IsGiven name reason (some (r ∷ v), errs) fine = refl

pub required_if-IsGiven :
    (getenv : Str → Str) (read_file : Str → Option Str) (name reason : Str)
    → IsGiven (required_if getenv read_file name true reason)
unfolding required_if resolve_required
required_if-IsGiven getenv read_file name reason =
    require-IsGiven name reason (resolve getenv read_file name)

module _ (lib : UrlLibrary)
    (prints : (url : lib.Url) (p : Str)
      → lib.is_abs url ≡ true
      → is_empty (lib.print (lib.with_path p url)) ≡ false) where
  url_error-is_abs :
      (name : Str) (schemes : List Str) (url : lib.Url)
      → url_error lib name schemes url ≡ none
      → lib.is_abs url ≡ true
  unfolding url_error
  url_error-is_abs name schemes url fine = ground arith

  parse_base_url-given :
      (name value : Str) (schemes : List Str)
      → (parse_base_url lib name value schemes).1 ≡ none
      → is_empty (parse_base_url lib name value schemes).0 ≡ false
  unfolding parse_base_url
  parse_base_url-given name value schemes fine = elim (Option-cases (lib.parse value)) [
    | inl e ↦ ground (arith, e)
    | inr (url, e) ↦ ground (
      arith,
      e,
      url_error-is_abs name schemes url,
      prints url (trim_right is_slash (lib.path url)),
    )
  ]

  noted-IsGiven :
      (errs : List EnvError) (r : Str × Option EnvError)
      → (r.1 ≡ none → is_empty r.0 ≡ false)
      → IsGiven (noted lib errs r)
  unfolding noted
  noted-IsGiven errs (v, none) h fine = h refl
  noted-IsGiven [] (v, some e) h fine = cc
  noted-IsGiven (f ∷ errs) (v, some e) h fine = cc

  pub parse_noted-IsGiven :
      (name : Str) (schemes : List Str) (r : Noted Str)
      → IsGiven r
      → IsGiven (parse_noted lib name schemes r)
  unfolding parse_noted
  parse_noted-IsGiven name schemes ([], errs) given fine = given fine
  parse_noted-IsGiven name schemes (c ∷ raw, errs) given fine =
      noted-IsGiven errs (parse_base_url lib name (c ∷ raw) schemes)
        (parse_base_url-given name (c ∷ raw) schemes) fine

  pub check_subpath-IsGiven :
      (name : Str) (r : Noted Str) → IsGiven r → IsGiven (check_subpath lib name r)
  unfolding check_subpath
  check_subpath-IsGiven name ([], errs) given fine = given fine
  check_subpath-IsGiven name (c ∷ v, errs) given fine =
      ground (arith, ne_nil-append errs (bad_subpath name))

pub normalize_sender-given :
    (env : Environment) (r : Noted Str)
    → IsGiven r
    → (normalize_sender env r).1 ≡ []
    → is_empty (normalize_sender env r).0 ≡ false
unfolding normalize_sender flag
normalize_sender-given env ([], errs) given fine = given (nil-map setting errs fine)
normalize_sender-given env (c ∷ raw, errs) given fine =
    ground (arith, ne_nil-append (map setting errs) bad_sender)
