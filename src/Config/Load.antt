-- ===== src/Config/Load.antt =====
-- internal/config/config.go: Load.
mod Given
pub mod Deliverable
pub mod Examples
use scan2graph.Prelude.{
  ℕ, ◌*◌, ◌≡◌, ◌⊎◌, inl, inr, Bool, true, false, not, ◌&&◌, ◌||◌, List, [], ◌∷◌, ◌++◌, Option, none,
  some, Str, codes, map, if◌then◌else◌, is_empty, Unicode, trim_space,
}
use scan2graph.Prelude.Dict.{Dict}
use scan2graph.Jobs.Types.{Capabilities}
use scan2graph.Config.Types.{Limits, Config}
use scan2graph.Config.Address.{normalize_address}
use scan2graph.Config.Env.{
  UrlLibrary, EnvError, resolve, required_if, string_default, duration_at_least, bool_value,
  int_positive,
}
use scan2graph.Config.Urls.{parse_base_url, base_url, public_base_url, base_url_default, base_path}
use scan2graph.Config.Choices.{LogLevel, log_level, log_format, tenant_url}
use scan2graph.Config.Loader.{
  Fault, setting, bad_log_level, bad_log_format, bad_sender, bad_tenant_url, relay_by_sender,
  no_delivery, profiles, domains, SmtpAuth, smtp_auth, limits_faults,
}
use scan2graph.Config.Settings.{
  Environment, Settings, flag, load_general, load_remote, load_identity,
}
use scan2graph.Config.Services.{load_delivery}

-- `&Config{}`.
unfoldable pub blank : Settings
blank = record {
  http_addr = [];
  smtp_addr = [];
  temp_dir = [];
  log_format = [];
  log_level = LogLevel.info;
  ui_title = [];
  public_base_url = [];
  path_prefix = [];
  tenant_id = [];
  client_id = [];
  client_secret = [];
  authority_url = [];
  token_url = [];
  graph_base_url = [];
  graph_scope = [];
  graph_sender = [];
  di_endpoint = [];
  di_api_version = [];
  di_scope = [];
  job_ttl = 0;
  core = record {
    smtp_username = [];
    smtp_password = [];
    smtp_allow_anonymous = false;
    smtp_password_generated = false;
    profiles = [];
    default_profile = record { email = false; web = false; ocr = false };
    allowed_recipient_domains = [];
    limits = record { max_message_bytes = 0; max_stored_bytes = 0; max_concurrent_jobs = 0 };
  };
}

-- The end of Load.
unfoldable pub accept : Settings × List Fault → List Fault ⊎ Settings
accept (s, []) = inr s
accept (s, f ∷ faults) = inl (f ∷ faults)

module _ (env : Environment) where
  unfoldable pub read_settings : Settings × List Fault
  unfolding blank load_general load_remote load_delivery load_identity
  read_settings =
      let (s1, f1) = load_general env blank in
      let (s2, f2) = load_remote env s1 in
      let (s3, f3) = load_delivery env s2 in
      let (s4, f4) = load_identity env s3 in (s4, f1 ++ (f2 ++ (f3 ++ f4)))

  -- `Load`: the errors, which are grouped by what they are about, or the settings.
  unfoldable pub load : List Fault ⊎ Settings
  unfolding read_settings accept
  load = accept read_settings
