-- ===== src/Config/Loader.antt =====
-- internal/config/config.go: the profiles and the domains that Load reads.
-- What ParseProfiles makes of the JSON is an argument: the map in the order in which it is walked.
pub mod ProfileMap
pub mod Allowlist
pub mod Guards
use scan2graph.Prelude.{
  ◌/◌, ℕ, ◌≡◌, ◌≢◌, refl, Bool, true, false, not, ◌&&◌, ◌||◌, List, [], ◌∷◌, ◌++◌, Option, none,
  some, Str, codes, map, ltb, leb, ◌==◌, if◌then◌else◌, is_empty, contains, Unicode, byte_len,
  trim_space, split_at, has_prefix, has_suffix, has_substring, str_eq, str_eq_iff, str_eq_refl,
  arith, All, All-append, count_rune, ◌↔◌, Bool-cases, Option-cases, inl, inr,
}
use scan2graph.Prelude.Dict.{Dict, lookup, put, lookup-put, lookup-ne-nil}
use scan2graph.Jobs.Types.{Capabilities}
use scan2graph.Config.Types.{Limits, Config}
use scan2graph.Config.Env.{EnvError}
use scan2graph.Config.Address.{
  normalize_address, profile, after_last, matches_domain, recipient_allowed,
}

-- What errorf notes.
pub data Fault : Type 0 where
  bad_profiles open_relay : Fault
  anonymous_with_auth no_password empty_password empty_username budget_too_small : Fault
  bad_domain bad_key no_capability duplicate_key : Str → Fault
  setting : EnvError → Fault
  bad_log_level bad_log_format bad_sender bad_tenant_url relay_by_sender no_delivery : Fault

unfoldable pub key_fault : Unicode → Dict Capabilities → Str → Capabilities → Option Fault
key_fault u out k cp =
    if is_empty (normalize_address u k)
    then some (bad_key k)
    else if not cp.email && not cp.web && not cp.ocr
    then some (no_capability k)
    else elim (lookup (normalize_address u k) out) [ some _ ↦ some (duplicate_key k) | none ↦ none ]

-- The loop of `profiles`.
unfoldable pub collect :
    Unicode → Dict Capabilities → Dict Capabilities → Dict Capabilities × List Fault
collect u [] out = (out, [])
collect u ((k, cp) ∷ raw) out =
    let fault = key_fault u out k cp in
    let (out', faults) =
      collect u raw (elim fault [ some _ ↦ out | none ↦ put (normalize_address u k) cp out ]) in
    (out', elim fault [ some f ↦ f ∷ faults | none ↦ faults ])

unfoldable pub profiles : Unicode → Option (Dict Capabilities) → Dict Capabilities × List Fault
unfolding collect
profiles u none = ([], bad_profiles ∷ [])
profiles u (some raw) = collect u raw []

unfoldable pub is_domain_rune : ℕ → Bool
is_domain_rune r =
    (leb b'a' r && leb r b'z') || (leb b'0' r && leb r b'9') || (r == b'.') || (r == b'-')

all_domain_runes : Str → Bool
unfolding is_domain_rune
all_domain_runes [] = true
all_domain_runes (r ∷ d) = if is_domain_rune r then all_domain_runes d else false

unfoldable pub valid_domain : Str → Bool
unfolding all_domain_runes has_substring has_prefix has_suffix byte_len
valid_domain d =
    if is_empty d || ltb 253 (byte_len d)
    then false
    else if not (has_substring d (codes "."))
        || has_prefix d (codes ".")
        || has_suffix d (codes ".")
        || has_substring d (codes "..")
    then false
    else all_domain_runes d

-- The loop of `parseDomains`: `seen` are the domains so far, of which `out` is the list.
unfoldable pub parse_parts : Unicode → List Str → List Str → List Str × List Fault
parse_parts u [] out = (out, [])
parse_parts u (p ∷ parts) out =
    let d = map u.to_lower (trim_space u.is_space p) in
    let (out', faults) =
      parse_parts u parts (if valid_domain d && not (contains d out) then out ++ d ∷ [] else out) in
    (out', if is_empty d || valid_domain d then faults else bad_domain d ∷ faults)

unfoldable pub parse_domains : Unicode → Str → List Str × List Fault
unfolding parse_parts
parse_domains u raw = parse_parts u (split_at b',' raw) []

unfoldable pub domains_of : Unicode → Option Str → List Str × List Fault
unfolding parse_domains
domains_of u none = ([], [])
domains_of u (some raw) = parse_domains u raw

-- `domains`: `raw` is what `resolve` finds.
unfoldable pub domains : Unicode → Option Str → Bool → List Str × List Fault
unfolding domains_of
domains u raw required =
    let (out, faults) = domains_of u raw in
    (out, if required && is_empty out then faults ++ open_relay ∷ [] else faults)

pub record SmtpAuth : Type 0 where
  pub username : Str
  pub password : Str
  pub allow_anonymous : Bool
  pub generated : Bool

is_set : Option Str → Bool
is_set none = false
is_set (some _) = true

is_blank : Option Str → Bool
is_blank none = false
is_blank (some s) = is_empty s

unfoldable pub auth_faults : Option Str → Option Str → Bool → List Fault
unfolding is_set is_blank
auth_faults user pass anon =
    if anon
    then (if is_set user || is_set pass then anonymous_with_auth ∷ [] else [])
    else (if is_set user && not (is_set pass) then no_password ∷ [] else [])
      ++ ((if is_blank pass then empty_password ∷ [] else [])
          ++ (if is_blank user then empty_username ∷ [] else []))

with_password : Option Str → Option Str → Str → SmtpAuth
with_password user none random = record {
  username = codes "scanner";
  password = random;
  allow_anonymous = false;
  generated = true;
}
with_password none (some pass) random = record {
  username = codes "scanner";
  password = pass;
  allow_anonymous = false;
  generated = false;
}
with_password (some user) (some pass) random = record {
  username = user;
  password = pass;
  allow_anonymous = false;
  generated = false;
}

-- `smtpAuth`: the settings that `resolve` finds, and what `rand.Text` draws.
unfoldable pub smtp_auth : Option Str → Option Str → Bool → Str → SmtpAuth × List Fault
unfolding with_password auth_faults
smtp_auth user pass anon random = (
  if anon
      then record { username = []; password = []; allow_anonymous = true; generated = false }
      else with_password user pass random,
  auth_faults user pass anon,
)

-- `limits`: the three numbers are positive, or 0 where the setting was refused.
unfoldable pub limits_faults : Limits → List Fault
limits_faults lim =
    if ltb 0 lim.max_stored_bytes && ltb (lim.max_stored_bytes / 2) lim.max_message_bytes
    then budget_too_small ∷ []
    else []
