-- ===== src/Jobs/Sanitize.antt =====
-- internal/jobs/job.go: SanitizeSubject and SanitizeDisplayName. A text is a list of code points,
-- so it is valid UTF-8 already and `strings.ToValidUTF8` leaves it alone.
pub mod SafeName
use scan2graph.Prelude.{
  ℕ, ◌++◌, Bool, false, not, ◌&&◌, ◌||◌, [], ◌∷◌, Str, codes, map, ltb, ◌==◌, if◌then◌else◌, length,
  is_empty, filter_by, take, trim_left, Unicode, fields, join_words, trim_space, has_suffix,
}

-- The loop of `SanitizeSubject`.
unfoldable pub printable : Unicode → Str → Str
printable u [] = []
printable u (r ∷ s) =
    let rest = printable u s in
    if u.is_space r then b' ' ∷ rest else if u.is_print r then r ∷ rest else rest

unfoldable pub sanitize_subject : Unicode → Str → Str
unfolding printable trim_space fields join_words
sanitize_subject u s =
    let subject = join_words (fields u.is_space (printable u s)) in
    if ltb 200 (length subject) then trim_space u.is_space (take 200 subject) else subject

abbrev slash : ℕ → ℕ
slash r = if r == b'\\' then b'/' else r

has_slash : Str → Bool
has_slash [] = false
has_slash (r ∷ s) = r == b'/' || has_slash s

-- What stands behind the last slash.
unfoldable pub base_name : Str → Str
unfolding has_slash
base_name [] = []
base_name (r ∷ s) =
    let rest = base_name s in if has_slash s then rest else if r == b'/' then s else r ∷ s

is_quote : ℕ → Bool
is_quote r = r == b'"' || r == b'\'' || r == b'\\' || r == b'/'

-- The code points that the loop of `SanitizeDisplayName` writes.
unfoldable pub is_kept : Unicode → ℕ → Bool
unfolding is_quote
is_kept u r = not (is_quote r) && (u.is_print r || r == b' ')

abbrev pub pdf : Str
pdf = codes ".pdf"

abbrev fallback : Str
fallback = codes "scan.pdf"

-- The name without its directory, unsafe code points, leading dots and outer spaces.
unfoldable pub tidy_name : Unicode → Str → Str
unfolding base_name is_kept trim_space fields join_words
tidy_name u name =
    let kept = filter_by (is_kept u) (base_name (map slash name)) in
    let words = join_words (fields u.is_space kept) in
    trim_space u.is_space (trim_left (λ r. r == b'.') words)

unfoldable pub with_pdf : Unicode → Str → Str
unfolding has_suffix
with_pdf u name = if has_suffix (map u.to_lower name) pdf then name else name ++ pdf

unfoldable pub cut_name : Str → Str
cut_name name = if ltb 100 (length name) then take 96 name ++ pdf else name

unfoldable pub or_fallback : Str → Str
or_fallback name = if is_empty name then fallback else name

unfoldable pub sanitize_display_name : Unicode → Str → Str
sanitize_display_name u name =
    let tidy = tidy_name u name in
    if is_empty tidy then fallback else or_fallback (cut_name (with_pdf u tidy))
