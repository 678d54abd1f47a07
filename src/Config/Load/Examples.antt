-- ===== src/Config/Load/Examples.antt =====
-- The theorems on Load, applied to a small environment.
use scan2graph.Jobs.Stage.Examples.{ascii}
use scan2graph.Prelude.{
  ◌≡◌, refl, ℕ, inr, true, false, [], ◌∷◌, ◌++◌, Option, none, some, Str, codes, if◌then◌else◌,
  has_prefix, has_suffix, Bool, ◌&&◌, drop, before_rune, is_empty, length,
}
use scan2graph.Prelude.Dict.{Dict, lookup}
use scan2graph.Config.Env.{UrlLibrary}
use scan2graph.Config.Choices.{LogLevel}
use scan2graph.Config.Settings.{Environment, Settings}
use scan2graph.Config.File.{find, layer}
use scan2graph.Config.File.Layers.{layer-spellings}
use scan2graph.Config.Load.{load}
use scan2graph.Config.Load.Deliverable.{load-IsServed, load-identity}

-- URLs of one scheme, a host and a path, held without the scheme.
unfoldable pub https_urls : UrlLibrary
unfolding has_prefix before_rune
https_urls = record {
  Url = Str;
  parse = λ s. if has_prefix s (codes "https://") then some (drop 8 s) else none;
  is_abs = λ url. true;
  scheme = λ url. codes "https";
  host = λ url. before_rune b'/' url;
  raw_query = λ url. [];
  fragment = λ url. [];
  path = λ url. drop (length (before_rune b'/' url)) url;
  escaped_path = λ url. drop (length (before_rune b'/' url)) url;
  with_path = λ p url. before_rune b'/' url ++ p;
  print = λ url. codes "https://" ++ url;
}

abbrev variables : Dict Str
variables =
    (codes "S2G_PUBLIC_BASE_URL", codes "https://a.b/scan/")
    ∷ (codes "S2G_ENTRA_TENANT_ID", codes "t")
    ∷ (codes "S2G_ENTRA_CLIENT_ID", codes "c")
    ∷ (codes "S2G_ENTRA_CLIENT_SECRET_FILE", codes "/s")
    ∷ (codes "S2G_SMTP_PASSWORD", codes "p")
    ∷ []

abbrev pub get_from : Dict Str → Str → Str
unfolding lookup
get_from m name = elim (lookup name m) [ none ↦ [] | some v ↦ v ]

abbrev pub machine : Environment
machine = record {
  getenv = get_from variables;
  read_file = λ path. some (codes "secret" ++ 10 ∷ []);
  parse_duration = λ s. none;
  urls = https_urls;
  parse_profiles = λ s. some [];
  temp_dir = codes "/tmp";
  random_text = codes "x";
  unicode = ascii;
}

abbrev accepted : Settings
accepted = record {
  http_addr = codes ":8080";
  smtp_addr = codes ":2525";
  temp_dir = codes "/tmp";
  log_format = codes "json";
  log_level = LogLevel.info;
  ui_title = codes "scan2graph";
  public_base_url = codes "https://a.b/scan";
  path_prefix = codes "/scan";
  tenant_id = codes "t";
  client_id = codes "c";
  client_secret = codes "secret";
  authority_url = codes "https://login.microsoftonline.com/t/v2.0";
  token_url = codes "https://login.microsoftonline.com/t/oauth2/v2.0/token";
  graph_base_url = codes "https://graph.microsoft.com/v1.0";
  graph_scope = codes "https://graph.microsoft.com/.default";
  graph_sender = [];
  di_endpoint = [];
  di_api_version = codes "2024-11-30";
  di_scope = codes "https://cognitiveservices.azure.com/.default";
  job_ttl = 28800000000000;
  core = record {
    smtp_username = codes "scanner";
    smtp_password = codes "p";
    smtp_allow_anonymous = false;
    smtp_password_generated = false;
    profiles = [];
    default_profile = record { email = false; web = true; ocr = false };
    allowed_recipient_domains = [];
    limits = record {
      max_message_bytes = 33554432;
      max_stored_bytes = 536870912;
      max_concurrent_jobs = 2;
    };
  };
}

load-identity_example :
    (is_empty (codes "t") ≡ false)
    × (is_empty (codes "c") ≡ false)
    × (is_empty (codes "secret") ≡ false)
unfolding load https_urls get_from scan2graph.Prelude.str_eq
load-identity_example = load-identity machine accepted refl

load-IsServed_example :
    (false ≡ true → (is_empty {A = ℕ} [] ≡ false) × (is_empty {A = Str} [] ≡ false))
    × (true ≡ true → is_empty (codes "https://a.b/scan") ≡ false)
    × (false ≡ true → is_empty {A = ℕ} [] ≡ false)
unfolding load https_urls scan2graph.Config.Address.profile get_from scan2graph.Prelude.str_eq
load-IsServed_example =
    load-IsServed machine (λ url p h. refl) accepted (codes "x@y.z") accepted.core.default_profile
      refl refl

-- The mounted secret of the environment hides the one in the file.
abbrev file_settings : Dict Str
file_settings = (codes "S2G_ENTRA_CLIENT_SECRET", codes "old") ∷ []

layer-spellings_example :
    (false ≡ false
      → (layer file_settings (get_from variables) (codes "S2G_ENTRA_CLIENT_SECRET") ≡ [])
        × (layer file_settings (get_from variables) (codes "S2G_ENTRA_CLIENT_SECRET_FILE")
            ≡ codes "/s"))
    × (false ≡ true
        → (layer file_settings (get_from variables) (codes "S2G_ENTRA_CLIENT_SECRET")
            ≡ find file_settings (codes "S2G_ENTRA_CLIENT_SECRET"))
          × (layer file_settings (get_from variables) (codes "S2G_ENTRA_CLIENT_SECRET_FILE")
              ≡ find file_settings (codes "S2G_ENTRA_CLIENT_SECRET_FILE")))
unfolding get_from scan2graph.Prelude.str_eq has_suffix scan2graph.Prelude.Dict.lookup
layer-spellings_example =
    layer-spellings file_settings (get_from variables) (codes "S2G_ENTRA_CLIENT_SECRET") refl
