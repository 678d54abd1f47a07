-- ===== src/Config/Examples.antt =====
-- The theorems on the loader, applied to a small setting.
use scan2graph.Jobs.Stage.Examples.{ascii}
use scan2graph.Prelude.{
  ◌≡◌, ◌≢◌, ◌↔◌, refl, true, false, [], ◌∷◌, some, Str, codes, map, contains, All, count_rune,
}
use scan2graph.Prelude.Dict.{Dict}
use scan2graph.Jobs.Types.{Capabilities}
use scan2graph.Config.Types.{Config}
use scan2graph.Config.Address.{profile, after_last, recipient_allowed}
use scan2graph.Prelude.{◌*◌, ◌≤◌, ◌⊎◌, none, is_empty, arith}
use scan2graph.Config.Loader.Guards.{smtp_auth_guarded}
use scan2graph.Config.Loader.{smtp_auth, profiles, domains, valid_domain}
use scan2graph.Config.Loader.ProfileMap.{profiles-profile}
use scan2graph.Config.Loader.Allowlist.{domains-recipient_allowed}

abbrev web_only : Capabilities
web_only = record { email = false; web = true; ocr = false }

abbrev raw_profiles : Dict Capabilities
raw_profiles = (codes " a@b.c", web_only) ∷ []

abbrev loaded : Config
loaded = record {
  smtp_username = codes "scanner";
  smtp_password = codes "secret";
  smtp_allow_anonymous = false;
  smtp_password_generated = false;
  profiles = (codes "a@b.c", web_only) ∷ [];
  default_profile = web_only;
  allowed_recipient_domains = codes "b.c" ∷ [];
  limits = record { max_message_bytes = 60; max_stored_bytes = 100; max_concurrent_jobs = 1 };
}

profiles-profile_example : profile ascii loaded (codes "<a@b.c>") ≡ some web_only
unfolding profiles scan2graph.Config.Loader.key_fault scan2graph.Config.Address.normalize_address
    scan2graph.Prelude.Dict.lookup scan2graph.Prelude.Dict.put scan2graph.Prelude.str_eq
profiles-profile_example =
    profiles-profile ascii loaded raw_profiles (codes " a@b.c") (codes "<a@b.c>") web_only refl refl
      refl refl

domains-recipient_allowed_example :
    All (λ d. valid_domain d ≡ true) loaded.allowed_recipient_domains
    × ((recipient_allowed ascii loaded (codes "a@b.c") ≡ true) ↔ (
        (count_rune b'@' (codes "a@b.c") ≢ 0)
        × (contains
              (map ascii.to_lower (after_last b'@' (codes "a@b.c")))
              loaded.allowed_recipient_domains
            ≡ true)))
unfolding domains scan2graph.Prelude.split_at valid_domain scan2graph.Prelude.trim_space
    scan2graph.Prelude.str_eq contains
domains-recipient_allowed_example =
    domains-recipient_allowed ascii loaded (some (codes "b.c, b.c")) (codes "a@b.c") refl refl

smtp_auth_guarded_example :
    ((smtp_auth none (some (codes "secret")) false (codes "x")).0.allow_anonymous ≡ false)
    × ((false ≡ true)
        ⊎ (is_empty (smtp_auth none (some (codes "secret")) false (codes "x")).0.password ≡ false))
unfolding smtp_auth
smtp_auth_guarded_example =
    smtp_auth_guarded none (some (codes "secret")) false (codes "x") refl refl
