-- ===== src/Config/Load/Deliverable.antt =====
-- What a configuration that Load accepts guarantees.
use scan2graph.Prelude.{
  ◌≡◌, inl, inr, refl, Bool, true, false, List, [], ◌∷◌, Option, none, some, Str, is_empty, arith,
  if◌then◌else◌, str_eq, subst, sym, Bool-cases, map, Unicode, codes,
}
use scan2graph.Prelude.Dict.{Dict, lookup}
use scan2graph.Jobs.Types.{Capabilities}
use scan2graph.Config.Address.{profile, normalize_address}
use scan2graph.Config.Env.{EnvError, Noted, required_if, resolve}
use scan2graph.Config.Urls.{base_url, public_base_url}
use scan2graph.Config.Loader.{Fault, setting, open_relay, open_relay, domains, domains_of}
use scan2graph.Config.Settings.{
  Environment, Settings, identity_reason, load_general, load_remote, load_identity,
}
use scan2graph.Config.Services.{
  any_capability, graph_sender, Services, ocr_reason, web_reason, email_reason, gather,
  load_services, default_capabilities, load_profiles, load_auth, load_delivery,
}
use scan2graph.Config.Load.{load, accept, read_settings, blank}
use scan2graph.Config.Load.Given.{
  nil-append, ne_nil-append, nil-map, IsGiven, required_if-IsGiven, parse_noted-IsGiven,
  check_subpath-IsGiven, normalize_sender-given,
}

-- Each capability has the services that it needs.
pub record IsServed (caps : Capabilities) (sv : Services) : Type 0 where
  pub mail : caps.email ≡ true → (is_empty sv.sender ≡ false) × (is_empty sv.allowed ≡ false)
  pub site : caps.web ≡ true → is_empty sv.base ≡ false
  pub recognition : caps.ocr ≡ true → is_empty sv.endpoint ≡ false

domains-listed :
    (u : Unicode) (raw : Option Str) (needed : Bool)
    → needed ≡ true
    → (domains u raw needed).1 ≡ []
    → is_empty (domains u raw needed).0 ≡ false
unfolding domains
domains-listed u raw needed h fine = ground (arith, ne_nil-append (domains_of u raw).1 open_relay)

gather-IsServed :
    (any : Capabilities) (r1 : Noted Str) (e2 : List EnvError) (r3 : List Str × List Fault)
    (r4 : Noted Str) (r5 : Str × List Fault)
    → (any.ocr ≡ true → IsGiven r1)
    → (any.email ≡ true → r3.1 ≡ [] → is_empty r3.0 ≡ false)
    → (any.web ≡ true → IsGiven r4)
    → (any.email ≡ true → r5.1 ≡ [] → is_empty r5.0 ≡ false)
    → (gather r1 e2 r3 r4 r5).1 ≡ []
    → IsServed any (gather r1 e2 r3 r4 r5).0
unfolding gather
gather-IsServed any (v1, e1) e2 (v3, e3) (v4, e4) (v5, e5) h1 h3 h4 h5 fine =
    let (f1, g1) = nil-append (map setting e1) _ fine in
    let (f2, g2) = nil-append (map setting e2) _ g1 in
    let (f3, g3) = nil-append e3 _ g2 in
    let (f4, f5) = nil-append (map setting e4) e5 g3 in
    record {
      mail = λ h. (h5 h f5, h3 h f3);
      site = λ h. h4 h (nil-map setting e4 f4);
      recognition = λ h. h1 h (nil-map setting e1 f1);
    }

module _ (env : Environment)
    (prints : (url : env.urls.Url) (p : Str)
      → env.urls.is_abs url ≡ true
      → is_empty (env.urls.print (env.urls.with_path p url)) ≡ false) where
  base_url-IsGiven :
      (name : Str) (needed : Bool) (reason : Str) (schemes : List Str)
      → needed ≡ true
      → IsGiven (base_url env.urls env.getenv env.read_file name needed reason schemes)
  unfolding base_url
  base_url-IsGiven name needed reason schemes h =
      parse_noted-IsGiven env.urls prints name schemes
        (required_if env.getenv env.read_file name needed reason)
        (rw h (required_if-IsGiven env.getenv env.read_file name reason))

  public_base_url-IsGiven :
      (name : Str) (needed : Bool) (reason : Str)
      → needed ≡ true
      → IsGiven (public_base_url env.urls env.getenv env.read_file name needed reason)
  unfolding public_base_url
  public_base_url-IsGiven name needed reason h =
      check_subpath-IsGiven env.urls prints name _
        (base_url-IsGiven name needed reason (codes "http" ∷ codes "https" ∷ []) h)

  graph_sender-given :
      (needed : Bool) (reason : Str)
      → needed ≡ true
      → (graph_sender env needed reason).1 ≡ []
      → is_empty (graph_sender env needed reason).0 ≡ false
  unfolding graph_sender
  graph_sender-given needed reason h =
      normalize_sender-given env
        (required_if env.getenv env.read_file (codes "S2G_GRAPH_SENDER") needed reason)
        (rw h (required_if-IsGiven env.getenv env.read_file (codes "S2G_GRAPH_SENDER") reason))

  load_services-IsServed :
      (any : Capabilities) → (load_services env any).1 ≡ [] → IsServed any (load_services env any).0
  unfolding load_services
  load_services-IsServed any fine =
      let (raw, errs) = resolve env.getenv env.read_file (codes "S2G_ALLOWED_RECIPIENT_DOMAINS") in
      gather-IsServed any
        (base_url env.urls env.getenv env.read_file (codes "S2G_DI_ENDPOINT") any.ocr ocr_reason
          (codes "https" ∷ []))
        errs (domains env.unicode raw any.email)
        (public_base_url env.urls env.getenv env.read_file (codes "S2G_PUBLIC_BASE_URL") any.web
          web_reason)
        (graph_sender env any.email email_reason)
        (base_url-IsGiven (codes "S2G_DI_ENDPOINT") any.ocr ocr_reason (codes "https" ∷ []))
        (domains-listed env.unicode raw any.email)
        (public_base_url-IsGiven (codes "S2G_PUBLIC_BASE_URL") any.web web_reason)
        (graph_sender-given any.email email_reason) fine

any_capability-lookup :
    (m : Dict Capabilities) (k : Str) (caps : Capabilities) (sv : Services)
    → lookup k m ≡ some caps
    → IsServed (any_capability m) sv
    → IsServed caps sv
unfolding any_capability lookup
any_capability-lookup [] k caps sv e served = cc
any_capability-lookup ((j, cp) ∷ m) k caps sv e served = elim (Bool-cases (str_eq j k)) [
  | inl same ↦
      let here : cp ≡ caps = ground (arith, same, e) in
      subst (λ c. IsServed c sv) here
        (record {
          mail = λ h. served.mail (ground (arith, h));
          site = λ h. served.site (ground (arith, h));
          recognition = λ h. served.recognition (ground (arith, h));
        })
  | inr other ↦ any_capability-lookup m k caps sv (ground (arith, other, e)) (record {
    mail = λ h. served.mail (ground (arith, h));
    site = λ h. served.site (ground (arith, h));
    recognition = λ h. served.recognition (ground (arith, h));
  })
]

default_capabilities-IsServed : (sv : Services) → IsServed (default_capabilities [] sv).0 sv
unfolding default_capabilities
default_capabilities-IsServed sv = record {
  mail = λ h. ground arith;
  site = λ h. ground arith;
  recognition = λ h. ground arith;
}

profile-IsServed :
    (found : Dict Capabilities) (sv : Services) (n : Str) (caps : Capabilities)
    → (if is_empty n
        then none
        else if is_empty found
        then some (default_capabilities found sv).0
        else lookup n found)
      ≡ some caps
    → IsServed (any_capability found) sv
    → IsServed caps sv
profile-IsServed found sv [] caps e served = cc
profile-IsServed [] sv (c ∷ n) caps e served =
    subst (λ d. IsServed d sv) (ground (arith, e)) (default_capabilities-IsServed sv)
profile-IsServed (p ∷ found) sv (c ∷ n) caps e served =
    any_capability-lookup (p ∷ found) (c ∷ n) caps sv e served

services_of : Settings → Services
services_of s = record {
  endpoint = s.di_endpoint;
  allowed = s.core.allowed_recipient_domains;
  base = s.public_base_url;
  sender = s.graph_sender;
}

accept-inr : (r : Settings × List Fault) (s : Settings) → accept r ≡ inr s → (r.0 ≡ s) × (r.1 ≡ [])
unfolding accept
accept-inr (t, []) s e = (ground (arith, e), refl)
accept-inr (t, f ∷ faults) s e = cc

module _ (env : Environment) where
  load-parts :
      (s : Settings)
      → load env ≡ inr s
      → (t : Settings) × ((load_delivery env t).1 ≡ [])
        × ((load_identity env (load_delivery env t).0).1 ≡ [])
        × (s ≡ (load_identity env (load_delivery env t).0).0)
  unfolding load read_settings
  load-parts s loaded =
      let (same, fine) = accept-inr (read_settings env) s loaded in
      let t1 = load_general env blank in
      let t2 = load_remote env t1.0 in
      let t3 = load_delivery env t2.0 in
      let (_, g1) = nil-append t1.1 _ fine in
      let (_, g2) = nil-append t2.1 _ g1 in
      let (f3, f4) = nil-append t3.1 (load_identity env t3.0).1 g2 in (t2.0, f3, f4, sym same)

  load_identity-given :
      (s : Settings)
      → (load_identity env s).1 ≡ []
      → (is_empty (load_identity env s).0.tenant_id ≡ false)
        × (is_empty (load_identity env s).0.client_id ≡ false)
        × (is_empty (load_identity env s).0.client_secret ≡ false)
  unfolding load_identity
  load_identity-given s fine =
      let ask : Str → Noted Str =
        λ name. required_if env.getenv env.read_file name true identity_reason in
      let (f1, g1) = nil-append (map setting (ask (codes "S2G_ENTRA_TENANT_ID")).1) _ fine in
      let (f2, g2) = nil-append (map setting (ask (codes "S2G_ENTRA_CLIENT_ID")).1) _ g1 in
      let (f3, _) = nil-append (map setting (ask (codes "S2G_ENTRA_CLIENT_SECRET")).1) _ g2 in
      let given : (name : Str) → map setting (ask name).1 ≡ [] → is_empty (ask name).0 ≡ false =
        λ name errs.
          required_if-IsGiven env.getenv env.read_file name identity_reason
            (nil-map setting (ask name).1 errs) in
      (
        given (codes "S2G_ENTRA_TENANT_ID") f1,
        given (codes "S2G_ENTRA_CLIENT_ID") f2,
        given (codes "S2G_ENTRA_CLIENT_SECRET") f3,
      )

  load_delivery-IsServed :
      (prints : (url : env.urls.Url) (p : Str)
        → env.urls.is_abs url ≡ true
        → is_empty (env.urls.print (env.urls.with_path p url)) ≡ false)
      (s : Settings) (address : Str) (caps : Capabilities)
      → (load_delivery env s).1 ≡ []
      → profile env.unicode (load_delivery env s).0.core address ≡ some caps
      → IsServed caps (services_of (load_delivery env s).0)
  unfolding load_delivery services_of profile
  load_delivery-IsServed prints s address caps fine found =
      let (_, g1) = nil-append (load_auth env).1 _ fine in
      let (_, g2) = nil-append (load_profiles env).1 _ g1 in
      let (f3, _) = nil-append (load_services env (any_capability (load_profiles env).0)).1 _ g2 in
      profile-IsServed (load_profiles env).0
        (load_services env (any_capability (load_profiles env).0)).0
        (normalize_address env.unicode address) caps found
        (load_services-IsServed env prints (any_capability (load_profiles env).0) f3)

-- If Load gives settings, no profile asks for a service that is missing. Whoever the sender is, if
-- his profile has email, then there is a mailbox to send from and a list of recipient domains; if it
-- has web, then there is the URL of the appliance; if it has ocr, then there is the endpoint. It is
-- assumed that an absolute URL is not printed as the empty text.
pub load-IsServed :
    (env : Environment)
    (prints : (url : env.urls.Url) (p : Str)
      → env.urls.is_abs url ≡ true
      → is_empty (env.urls.print (env.urls.with_path p url)) ≡ false)
    (s : Settings) (address : Str) (caps : Capabilities)
    → load env ≡ inr s
    → profile env.unicode s.core address ≡ some caps
    → (caps.email ≡ true
        → (is_empty s.graph_sender ≡ false) × (is_empty s.core.allowed_recipient_domains ≡ false))
      × (caps.web ≡ true → is_empty s.public_base_url ≡ false)
      × (caps.ocr ≡ true → is_empty s.di_endpoint ≡ false)
unfolding load_identity services_of
load-IsServed env prints s address caps loaded found =
    let (t, f3, _, same) = load-parts env s loaded in
    let served : IsServed caps (services_of s) =
      subst (λ x. IsServed caps (services_of x)) (sym same)
        (load_delivery-IsServed env prints t address caps f3
          (subst (λ x. profile env.unicode x.core address ≡ some caps) same found)) in
    (served.mail, served.site, served.recognition)

-- If Load gives settings, the Entra registration is there: a tenant, a client and its secret, none of
-- them empty.
pub load-identity :
    (env : Environment) (s : Settings)
    → load env ≡ inr s
    → (is_empty s.tenant_id ≡ false)
      × (is_empty s.client_id ≡ false)
      × (is_empty s.client_secret ≡ false)
load-identity env s loaded =
    let (t, _, f4, same) = load-parts env s loaded in
    rw same (load_identity-given env (load_delivery env t).0 f4)
