-- ===== src/Config/Address.antt =====
-- internal/config/config.go: NormalizeAddress, Profile, AnyOCR and RecipientAllowed.
use scan2graph.Prelude.{
  ℕ, Bool, true, false, not, ◌&&◌, ◌||◌, List, [], ◌∷◌, Option, none, some, Str, codes, str_eq, map,
  ltb, leb, ◌==◌, if◌then◌else◌, is_empty, Unicode, trim_space, has_prefix, has_suffix,
  has_substring, byte_len, count_rune, before_rune, after_rune,
}
use scan2graph.Prelude.Dict.{Dict, lookup}
use scan2graph.Jobs.Types.{Capabilities}
use scan2graph.Config.Types.{Config}

-- `s[1 : len(s)-1]` of a text whose first and last code points are one byte long.
drop_last : Str → Str
drop_last [] = []
drop_last (r ∷ s) = let rest = drop_last s in if is_empty s then [] else r ∷ rest

abbrev drop_first : Str → Str
drop_first [] = []
drop_first (r ∷ s) = s

unfoldable pub strip_brackets : Unicode → Str → Str
unfolding drop_last has_prefix has_suffix byte_len trim_space
strip_brackets u s =
    if leb 2 (byte_len s) && has_prefix s (codes "<") && has_suffix s (codes ">")
    then trim_space u.is_space (drop_last (drop_first s))
    else s

-- The loop of `NormalizeAddress`: whether some code point is a space or a control character.
unfoldable pub has_blank : Unicode → Str → Bool
has_blank u [] = false
has_blank u (r ∷ s) = if u.is_space r || u.is_control r then true else has_blank u s

-- The checks that follow the trimming.
unfoldable pub is_plausible : Unicode → Str → Bool
unfolding has_blank count_rune before_rune after_rune has_substring byte_len
is_plausible u s =
    not (is_empty s || ltb 254 (byte_len s))
    && not (has_blank u s)
    && (count_rune b'@' s == 1)
    && not (
        is_empty (before_rune b'@' s)
        || is_empty (after_rune b'@' s)
        || not (has_substring (after_rune b'@' s) (codes ".")))

unfoldable pub normalize_address : Unicode → Str → Str
unfolding strip_brackets is_plausible trim_space
normalize_address u s =
    let bare = strip_brackets u (trim_space u.is_space s) in
    if is_plausible u bare then map u.to_lower bare else []

unfoldable pub profile : Unicode → Config → Str → Option Capabilities
profile u c sender =
    let n = normalize_address u sender in
    if is_empty n
    then none
    else if is_empty c.profiles
    then some c.default_profile
    else lookup n c.profiles

unfoldable pub any_ocr_profile : Dict Capabilities → Bool
any_ocr_profile [] = false
any_ocr_profile ((k, caps) ∷ m) = if caps.ocr then true else any_ocr_profile m

unfoldable pub any_ocr : Config → Bool
unfolding any_ocr_profile
any_ocr c = if is_empty c.profiles then c.default_profile.ocr else any_ocr_profile c.profiles

-- What stands behind the last place of a code point that occurs.
unfoldable pub after_last : ℕ → Str → Str
unfolding count_rune
after_last c [] = []
after_last c (r ∷ s) =
    let rest = after_last c s in if r == c && (count_rune c s == 0) then s else rest

unfoldable pub matches_domain : Str → List Str → Bool
matches_domain domain [] = false
matches_domain domain (d ∷ ds) = if str_eq domain d then true else matches_domain domain ds

unfoldable pub recipient_allowed : Unicode → Config → Str → Bool
unfolding after_last matches_domain count_rune
recipient_allowed u c canonical =
    if is_empty c.allowed_recipient_domains
    then true
    else if count_rune b'@' canonical == 0
    then false
    else matches_domain (map u.to_lower (after_last b'@' canonical)) c.allowed_recipient_domains
