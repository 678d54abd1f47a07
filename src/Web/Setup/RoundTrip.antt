-- ===== src/Web/Setup/RoundTrip.antt =====
-- What the wizard writes, and what the next start reads.
use scan2graph.Prelude.{
  ◌≡◌, refl, ap, ◌∙◌, inr, ℕ, suc, Bool, false, List, [], ◌∷◌, ◌++◌, Option, none, some, Str, arith,
  All, contains, if◌then◌else◌, str_eq_iff, sort_by, All-sort_by, map, split_at, unlines,
}
use scan2graph.Prelude.Strings.Lines.{Omits, split_at-unlines}
use scan2graph.Prelude.Dict.{Dict, lookup, put, lookup-put, Unique, Every}
use scan2graph.Config.Env.{UrlLibrary}
use scan2graph.Config.File.{parse_line, parse_lines, parse_file, find, keys, str_before}
use scan2graph.Web.Setup.{setting_line, comment_lines, redirect_uri, serialize}
use scan2graph.Web.Setup.Quoting.{
  IsSpacing, IsName, parse_line-setting_line, parse_line-comment, parse_line-blank,
}
use scan2graph.Web.Setup.Comments.{IsComment, comment_lines-IsComment, setting_lines-Omits}
use scan2graph.Web.Setup.Names.{
  Distinct, contains-sort_by, sort_by-Distinct, keys-Distinct, lookup-keys,
}

-- The settings of some names, entered one after the other.
put_all : Dict Str → List Str → Dict Str → Dict Str
put_all values [] out = out
put_all values (k ∷ ks) out = put_all values ks (put k (find values k) out)

-- The map lacks every one of the names.
abbrev Awaits : List Str → Dict Str → Type 0
Awaits ks out = All (λ k. lookup k out ≡ none) ks

Awaits-put :
    (ks : List Str) (k v : Str) (out : Dict Str)
    → contains k ks ≡ false
    → Awaits ks out
    → Awaits ks (put k v out)
unfolding contains
Awaits-put [] k v out h w = tt
Awaits-put (j ∷ ks) k v out h w = (
  lookup-put k j v out ∙ ground (arith, h, w.0, str_eq_iff j k, str_eq_iff k j),
  Awaits-put ks k v out (ground (arith, h)) w.1,
)

lookup-put_all :
    (values : Dict Str) (ks : List Str) (out : Dict Str) (k : Str)
    → lookup k (put_all values ks out)
      ≡ (if contains k ks then some (find values k) else lookup k out)
unfolding put_all contains
lookup-put_all values [] out k = refl
lookup-put_all values (j ∷ ks) out k =
    lookup-put_all values ks (put j (find values j) out) k
    ∙ ground (arith, lookup-put j k (find values j) out, str_eq_iff j k)

module _ (space : ℕ → Bool) (spacing : IsSpacing space) where
  parse_lines-step :
      (number : ℕ) (l : Str) (ls : List Str) (out out' : Dict Str)
      → parse_line space number l out ≡ inr out'
      → parse_lines space number (l ∷ ls) out ≡ parse_lines space (suc number) ls out'
  unfolding parse_lines
  parse_lines-step number l ls out out' e = ground (arith, e)

  parse_lines-end : (number : ℕ) (out : Dict Str) → parse_lines space number [] out ≡ inr out
  unfolding parse_lines
  parse_lines-end number out = refl

  parse_lines-comments :
      (number : ℕ) (ls rest : List Str) (out : Dict Str)
      → All IsComment ls
      → (m : ℕ) × (parse_lines space number (ls ++ rest) out ≡ parse_lines space m rest out)
  parse_lines-comments number [] rest out h = (number, refl)
  parse_lines-comments number (l ∷ ls) rest out (((s, e), _), h) =
      let (m, eq) = parse_lines-comments (suc number) ls rest out h in
      (
        m,
        parse_lines-step number l (ls ++ rest) out out
              (rw e (parse_line-comment space spacing number s out))
            ∙ eq,
      )

  parse_lines-settings :
      (number : ℕ) (values : Dict Str) (ks : List Str) (out : Dict Str)
      → All (IsName space) ks
      → Distinct ks
      → Awaits ks out
      → parse_lines space number (map (setting_line space values) ks ++ [] ∷ []) out
        ≡ inr (put_all values ks out)
  unfolding put_all
  parse_lines-settings number values [] out plain d w =
      parse_lines-step number [] [] out out (parse_line-blank space spacing number out)
      ∙ parse_lines-end (suc number) out
  parse_lines-settings number values (k ∷ ks) out plain d w =
      parse_lines-step number (setting_line space values k)
        (map (setting_line space values) ks ++ [] ∷ []) out (put k (find values k) out)
        (parse_line-setting_line space spacing number values out k plain.0 w.0)
      ∙ parse_lines-settings (suc number) values ks (put k (find values k) out) plain.1 d.1
          (Awaits-put ks k (find values k) out d.0 w.1)

-- Lines without a line feed that a text of comments and settings is cut into.
All-append_both : (P : Str → Type 0) (xs ys : List Str) → All P xs → All P ys → All P (xs ++ ys)
All-append_both P [] ys h k = k
All-append_both P (x ∷ xs) ys h k = (h.0, All-append_both P xs ys h.1 k)

comments-Omits : (ls : List Str) → All IsComment ls → All (Omits 10) ls
comments-Omits [] h = tt
comments-Omits (l ∷ ls) h = (h.0.1, comments-Omits ls h.1)

lookup-empty : (ks : List Str) (out : Dict Str) → out ≡ [] → Awaits ks out
unfolding lookup
lookup-empty [] out e = tt
lookup-empty (k ∷ ks) out e = (rw e refl, lookup-empty ks out e)

append_assoc : (xs ys zs : List Str) → (xs ++ ys) ++ zs ≡ xs ++ (ys ++ zs)
append_assoc [] ys zs = refl
append_assoc (x ∷ xs) ys zs = ap (λ l. x ∷ l) (append_assoc xs ys zs)

module _ (space : ℕ → Bool) (spacing : IsSpacing space) where
  -- A text of comments, an empty line and settings is read as the settings.
  parse_lines-text :
      (comments : List Str) (values : Dict Str) (ks : List Str)
      → All IsComment comments
      → All (IsName space) ks
      → Distinct ks
      → Every (Omits 10) values
      → parse_lines space 1
          (split_at 10 (unlines (comments ++ [] ∷ map (setting_line space values) ks)))
          []
        ≡ inr (put_all values ks [])
  parse_lines-text comments values ks good plain d one_line =
      let settings = map (setting_line space values) ks in
      let cut : split_at 10 (unlines (comments ++ [] ∷ settings))
          ≡ comments ++ ([] ∷ settings ++ [] ∷ []) =
        split_at-unlines (comments ++ [] ∷ settings) (
          All-append_both (Omits 10) comments ([] ∷ settings) (comments-Omits comments good)
            (tt, setting_lines-Omits space spacing values ks plain one_line))
        ∙ append_assoc comments ([] ∷ settings) ([] ∷ []) in
      let (m, read) =
        parse_lines-comments space spacing 1 comments ([] ∷ settings ++ [] ∷ []) [] good in
      ap (λ ls. parse_lines space 1 ls []) cut
      ∙ read
      ∙ parse_lines-step space spacing m [] (settings ++ [] ∷ []) [] []
          (parse_line-blank space spacing m [])
      ∙ parse_lines-settings space spacing (suc m) values ks [] plain d (lookup-empty ks [] refl)

-- What the wizard writes is what the next start reads: ParseFile accepts the text of serialize and
-- gives a map with the same entries. The keys of the settings are distinct names, not empty, without
-- spaces and without "=", that do not begin with "#"; no value holds a line feed, nor does the
-- redirect URI. Of the characters, space, tab and line feed are spaces, and "=", "#" and "'" are not.
pub parse_file-serialize :
    (lib : UrlLibrary) (getenv : Str → Str) (read_file : Str → Option Str) (space : ℕ → Bool)
    (values : Dict Str)
    → IsSpacing space
    → Unique values
    → All (IsName space) (keys values)
    → Every (Omits 10) values
    → Omits 10 (redirect_uri lib getenv read_file values)
    → (read : Dict Str) × (parse_file space (some (serialize lib getenv read_file space values))
        ≡ inr read)
      × ((k : Str) → lookup k read ≡ lookup k values)
unfolding parse_file serialize lookup
parse_file-serialize lib getenv read_file space values spacing unique plain one_line uri =
    let ks = sort_by str_before (keys values) in
    let read =
      parse_lines-text space spacing (comment_lines lib getenv read_file values) values ks
        (comment_lines-IsComment lib getenv read_file values uri)
        (All-sort_by str_before (IsName space) (keys values) plain)
        (sort_by-Distinct str_before (keys values) (keys-Distinct values unique)) one_line in
    (
      put_all values ks [],
      read,
      λ k.
          lookup-put_all values ks [] k
          ∙ rw (contains-sort_by str_before k (keys values)) (lookup-keys values k),
    )
