-- ===== src/Config/Choices.antt =====
-- internal/config/config.go: the settings that choose among a few values.
-- Each function that can fail gives the value, and whether errorf notes an error.
use scan2graph.Prelude.{
  Bool, true, false, not, ◌&&◌, ◌||◌, ◌++◌, Option, none, some, Str, codes, [], map, if◌then◌else◌,
  is_empty, str_eq, Unicode, trim_space,
}
use scan2graph.Config.Types.{Config}

pub data LogLevel : Type 0 where
  debug info warn error : LogLevel

level_of : Str → LogLevel × Bool
level_of v =
    if str_eq v (codes "debug")
    then (debug, false)
    else if str_eq v (codes "info")
    then (info, false)
    else if str_eq v (codes "warn") || str_eq v (codes "warning")
    then (warn, false)
    else if str_eq v (codes "error")
    then (error, false)
    else (info, true)

-- `logLevel`, on what `resolve` finds.
unfoldable pub log_level : Unicode → Option Str → LogLevel × Bool
unfolding level_of
log_level u none = (info, false)
log_level u (some raw) = level_of (map u.to_lower (trim_space u.is_space raw))

unfoldable pub log_format : Unicode → Option Str → Str × Bool
log_format u none = (codes "json", false)
log_format u (some raw) =
    let v = map u.to_lower (trim_space u.is_space raw) in
    if not (str_eq v (codes "json")) && not (str_eq v (codes "text"))
    then (codes "json", true)
    else (v, false)

-- `tenantURL`: a URL that is set comes with what parseBaseURL makes of it.
unfoldable pub tenant_url : Option (Option Str) → Str → Str → Str × Bool
tenant_url (some none) tenant_id suffix = ([], true)
tenant_url (some (some url)) tenant_id suffix = (url, false)
tenant_url none tenant_id suffix =
    if is_empty tenant_id
    then ([], false)
    else (codes "https://login.microsoftonline.com/" ++ tenant_id ++ suffix, false)

unfoldable pub smtp_auth_mode : Config → Str
smtp_auth_mode c =
    if c.smtp_allow_anonymous
    then codes "disabled"
    else if c.smtp_password_generated
    then codes "ephemeral"
    else codes "configured"
