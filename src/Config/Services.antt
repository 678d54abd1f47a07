-- ===== src/Config/Services.antt =====
-- internal/config/config.go: the settings that the delivery of a scan needs.
use scan2graph.Prelude.{
  Bool, false, not, ◌&&◌, ◌||◌, List, [], ◌∷◌, ◌++◌, Str, codes, map, if◌then◌else◌, is_empty,
}
use scan2graph.Prelude.Dict.{Dict}
use scan2graph.Jobs.Types.{Capabilities}
use scan2graph.Config.Types.{Limits}
use scan2graph.Config.Address.{normalize_address}
use scan2graph.Config.Env.{
  EnvError, Noted, resolve, required_if, string_default, bool_value, int_positive,
}
use scan2graph.Config.Urls.{base_url, public_base_url, base_path}
use scan2graph.Config.Loader.{
  Fault, setting, bad_sender, relay_by_sender, no_delivery, profiles, domains, SmtpAuth, smtp_auth,
  limits_faults,
}
use scan2graph.Config.Settings.{Environment, Settings, flag}

-- The three flags that the loop over the profiles sets.
unfoldable pub any_capability : Dict Capabilities → Capabilities
any_capability [] = record { email = false; web = false; ocr = false }
any_capability ((k, cp) ∷ m) =
    let rest = any_capability m in
    record { email = cp.email || rest.email; web = cp.web || rest.web; ocr = cp.ocr || rest.ocr }

-- The services that a capability needs.
pub record Services : Type 0 where
  pub endpoint : Str
  pub allowed : List Str
  pub base : Str
  pub sender : Str

abbrev pub ocr_reason : Str
ocr_reason = codes "at least one sender profile has \"ocr\" enabled"

abbrev pub web_reason : Str
web_reason = codes "at least one sender profile has \"web\" enabled"

abbrev pub email_reason : Str
email_reason = codes "at least one sender profile has \"email\" enabled"

-- The four settings with what they note, in the order in which Load reads them.
unfoldable pub gather :
    Noted Str
    → List EnvError
    → List Str × List Fault
    → Noted Str
    → Str × List Fault
    → Services × List Fault
gather (endpoint, e1) e2 (allowed, e3) (base, e4) (sender, e5) = (
  record { endpoint = endpoint; allowed = allowed; base = base; sender = sender },
  map setting e1 ++ (map setting e2 ++ (e3 ++ (map setting e4 ++ e5))),
)

-- The block for a configuration without profiles.
unfoldable pub default_capabilities : Dict Capabilities → Services → Capabilities × List Fault
unfolding flag
default_capabilities (p ∷ ps) sv = (record { email = false; web = false; ocr = false }, [])
default_capabilities [] sv =
    let email = not (is_empty sv.sender) && not (is_empty sv.allowed) in
    let web = not (is_empty sv.base) in
    (
      record { email = email; web = web; ocr = not (is_empty sv.endpoint) },
      flag relay_by_sender (not (is_empty sv.sender) && is_empty sv.allowed)
          ++ flag no_delivery (not email && not web),
    )

module _ (env : Environment) where
  -- What graphSender does with the result of requiredIf.
  unfoldable pub normalize_sender : Noted Str → Str × List Fault
  unfolding normalize_address flag
  normalize_sender (raw, errs) =
      let n = normalize_address env.unicode raw in
      if is_empty raw
      then ([], map setting errs)
      else (n, map setting errs ++ flag bad_sender (is_empty n))

  unfoldable pub graph_sender : Bool → Str → Str × List Fault
  unfolding required_if normalize_sender
  graph_sender needed reason =
      normalize_sender
        (required_if env.getenv env.read_file (codes "S2G_GRAPH_SENDER") needed reason)

  unfoldable pub load_services : Capabilities → Services × List Fault
  unfolding base_url resolve domains public_base_url graph_sender gather
  load_services any =
      let (raw, errs) = resolve env.getenv env.read_file (codes "S2G_ALLOWED_RECIPIENT_DOMAINS") in
      gather
        (base_url env.urls env.getenv env.read_file (codes "S2G_DI_ENDPOINT") any.ocr ocr_reason
          (codes "https" ∷ []))
        errs (domains env.unicode raw any.email)
        (public_base_url env.urls env.getenv env.read_file (codes "S2G_PUBLIC_BASE_URL") any.web
          web_reason)
        (graph_sender any.email email_reason)

  unfoldable pub load_auth : SmtpAuth × List Fault
  unfolding resolve bool_value smtp_auth
  load_auth =
      let (user, e1) = resolve env.getenv env.read_file (codes "S2G_SMTP_USERNAME") in
      let (pass, e2) = resolve env.getenv env.read_file (codes "S2G_SMTP_PASSWORD") in
      let ((anon, _), e3) =
        bool_value env.getenv env.read_file (codes "S2G_SMTP_ALLOW_ANONYMOUS") false in
      let (auth, faults) = smtp_auth user pass anon env.random_text in
      (auth, map setting (e1 ++ e2 ++ e3) ++ faults)

  unfoldable pub load_profiles : Dict Capabilities × List Fault
  unfolding string_default profiles
  load_profiles =
      let (raw, e1) = string_default env.getenv env.read_file (codes "S2G_PROFILES") (codes "{}") in
      let (found, faults) = profiles env.unicode (env.parse_profiles raw) in
      (found, map setting e1 ++ faults)

  unfoldable pub load_limits : Limits × List Fault
  unfolding int_positive limits_faults
  load_limits =
      let (message, e1) =
        int_positive env.getenv env.read_file (codes "S2G_MAX_MESSAGE_BYTES") 33554432 in
      let (stored, e2) =
        int_positive env.getenv env.read_file (codes "S2G_MAX_STORED_BYTES") 536870912 in
      let (workers, e3) =
        int_positive env.getenv env.read_file (codes "S2G_MAX_CONCURRENT_JOBS") 2 in
      let lim : Limits = record {
        max_message_bytes = message;
        max_stored_bytes = stored;
        max_concurrent_jobs = workers;
      } in
      (lim, map setting (e1 ++ e2 ++ e3) ++ limits_faults lim)

  -- The settings that the delivery of a scan needs, checked against each other.
  unfoldable pub load_delivery : Settings → Settings × List Fault
  unfolding load_profiles load_services default_capabilities any_capability base_path load_auth
      load_limits
  load_delivery s =
      let (auth, f1) = load_auth in
      let (found, f2) = load_profiles in
      let (sv, f3) = load_services (any_capability found) in
      let (fallback, f4) = default_capabilities found sv in
      let (lim, f5) = load_limits in
      (
        record s {
          di_endpoint = sv.endpoint;
          public_base_url = sv.base;
          path_prefix = base_path env.urls sv.base;
          graph_sender = sv.sender;
          core = record {
            smtp_username = auth.username;
            smtp_password = auth.password;
            smtp_allow_anonymous = auth.allow_anonymous;
            smtp_password_generated = auth.generated;
            profiles = found;
            default_profile = fallback;
            allowed_recipient_domains = sv.allowed;
            limits = lim;
          };
        },
        f1 ++ (f2 ++ (f3 ++ (f4 ++ f5))),
      )
