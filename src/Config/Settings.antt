-- ===== src/Config/Settings.antt =====
-- internal/config/config.go: what Load reads and gives, and the settings that stand alone.
use scan2graph.Prelude.{
  ℕ, ◌*◌, Bool, true, false, List, [], ◌∷◌, ◌++◌, Option, none, some, Str, codes, map,
  if◌then◌else◌, is_empty, Unicode, trim_space,
}
use scan2graph.Prelude.Dict.{Dict}
use scan2graph.Jobs.Types.{Capabilities}
use scan2graph.Config.Types.{Config}
use scan2graph.Config.Env.{UrlLibrary, resolve, required_if, string_default, duration_at_least}
use scan2graph.Config.Urls.{parse_base_url, base_url_default}
use scan2graph.Config.Choices.{LogLevel, log_level, log_format, tenant_url}
use scan2graph.Config.Loader.{Fault, setting, bad_log_level, bad_log_format, bad_tenant_url}

-- What Load reads: the environment, the files, the clock's and the URLs' formats, what ParseProfiles
-- makes of a text, and what the operating system gives.
pub record Environment : Type 1 where
  pub getenv : Str → Str
  pub read_file : Str → Option Str
  pub parse_duration : Str → Option ℕ
  pub urls : UrlLibrary
  pub parse_profiles : Str → Option (Dict Capabilities)
  pub temp_dir : Str
  pub random_text : Str
  pub unicode : Unicode

-- The fields of Config that the SMTP session and the pipeline do not read, with those that they do.
pub record Settings : Type 0 where
  pub http_addr : Str
  pub smtp_addr : Str
  pub temp_dir : Str
  pub log_format : Str
  pub log_level : LogLevel
  pub ui_title : Str
  pub public_base_url : Str
  pub path_prefix : Str
  pub tenant_id : Str
  pub client_id : Str
  pub client_secret : Str
  pub authority_url : Str
  pub token_url : Str
  pub graph_base_url : Str
  pub graph_scope : Str
  pub graph_sender : Str
  pub di_endpoint : Str
  pub di_api_version : Str
  pub di_scope : Str
  pub job_ttl : ℕ
  pub core : Config

unfoldable pub flag : Fault → Bool → List Fault
flag f true = f ∷ []
flag f false = []

abbrev pub identity_reason : Str
identity_reason =
    codes "scan2graph always needs an Entra app registration "
    ++ codes "(for the web UI's OIDC login and for app-only Graph/Document Intelligence tokens)"

module _ (env : Environment) where
  tenant_endpoint : Str → Str → Str → Str × List Fault
  unfolding resolve tenant_url parse_base_url flag
  tenant_endpoint name tenant_id suffix =
      let (found, errs) = resolve env.getenv env.read_file name in
      let parsed : Option (Option Str) = elim found [
        | none ↦ none
        | some raw ↦
            let (v, e) = parse_base_url env.urls name raw (codes "http" ∷ codes "https" ∷ []) in
            some (elim e [ none ↦ some v | some _ ↦ none ])
      ] in
      let (url, bad) = tenant_url parsed tenant_id suffix in
      (url, map setting errs ++ flag bad_tenant_url bad)

  -- The settings of the listeners and of the log, the first of Load.
  unfoldable pub load_general : Settings → Settings × List Fault
  unfolding string_default log_level log_format trim_space flag resolve
  load_general s =
      let (http, e1) =
        string_default env.getenv env.read_file (codes "S2G_HTTP_ADDR") (codes ":8080") in
      let (smtp, e2) =
        string_default env.getenv env.read_file (codes "S2G_SMTP_ADDR") (codes ":2525") in
      let (temp, e3) =
        string_default env.getenv env.read_file (codes "S2G_TEMP_DIR") env.temp_dir in
      let (raw_format, e4) = resolve env.getenv env.read_file (codes "S2G_LOG_FORMAT") in
      let (format, bad_format) = log_format env.unicode raw_format in
      let (raw_level, e5) = resolve env.getenv env.read_file (codes "S2G_LOG_LEVEL") in
      let (level, bad_level) = log_level env.unicode raw_level in
      let (raw_title, e6) = string_default env.getenv env.read_file (codes "S2G_UI_TITLE") [] in
      let title = trim_space env.unicode.is_space raw_title in
      (
        record s {
          http_addr = http;
          smtp_addr = smtp;
          temp_dir = temp;
          log_format = format;
          log_level = level;
          ui_title = if is_empty title then codes "scan2graph" else title;
        },
        map setting (e1 ++ e2 ++ e3 ++ e4)
            ++ (flag bad_log_format bad_format
                ++ (map setting e5 ++ (flag bad_log_level bad_level ++ map setting e6))),
      )

  -- The registration with Entra, which is always required.
  unfoldable pub load_identity : Settings → Settings × List Fault
  unfolding required_if tenant_endpoint
  load_identity s =
      let (tenant, e1) =
        required_if env.getenv env.read_file (codes "S2G_ENTRA_TENANT_ID") true identity_reason in
      let (client, e2) =
        required_if env.getenv env.read_file (codes "S2G_ENTRA_CLIENT_ID") true identity_reason in
      let (secret, e3) =
        required_if env.getenv env.read_file (codes "S2G_ENTRA_CLIENT_SECRET") true
          identity_reason in
      let (authority, f4) =
        tenant_endpoint (codes "S2G_ENTRA_AUTHORITY_URL") tenant (codes "/v2.0") in
      let (token, f5) =
        tenant_endpoint (codes "S2G_ENTRA_TOKEN_URL") tenant (codes "/oauth2/v2.0/token") in
      (
        record s {
          tenant_id = tenant;
          client_id = client;
          client_secret = secret;
          authority_url = authority;
          token_url = token;
        },
        map setting e1 ++ (map setting e2 ++ (map setting e3 ++ (f4 ++ f5))),
      )

  -- The settings of Graph and of Document Intelligence that have a default, and the lifetime of a job.
  unfoldable pub load_remote : Settings → Settings × List Fault
  unfolding string_default base_url_default duration_at_least
  load_remote s =
      let (version, e1) =
        string_default env.getenv env.read_file (codes "S2G_DI_API_VERSION") (codes "2024-11-30") in
      let (di_scope, e2) =
        string_default env.getenv env.read_file (codes "S2G_DI_SCOPE")
          (codes "https://cognitiveservices.azure.com/.default") in
      let (graph, e3) =
        base_url_default env.urls env.getenv env.read_file (codes "S2G_GRAPH_BASE_URL")
          (codes "https://graph.microsoft.com/v1.0") (codes "http" ∷ codes "https" ∷ []) in
      let (scope, e4) =
        string_default env.getenv env.read_file (codes "S2G_GRAPH_SCOPE")
          (codes "https://graph.microsoft.com/.default") in
      let (ttl, e5) =
        duration_at_least env.getenv env.read_file env.parse_duration (codes "S2G_JOB_TTL")
          (8 * 3600000000000) 60000000000 in
      (
        record s {
          di_api_version = version;
          di_scope = di_scope;
          graph_base_url = graph;
          graph_scope = scope;
          job_ttl = ttl;
        },
        map setting (e1 ++ e2 ++ e3 ++ e4 ++ e5),
      )
