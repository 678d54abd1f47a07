-- ===== src/Config/Types.antt =====
-- internal/config/config.go: the settings that the SMTP session and the pipeline read.
-- Capabilities is the record of internal/jobs, which has the same three fields: Data copies one into
-- the other.
use scan2graph.Prelude.{ℕ, Bool, List, Str}
use scan2graph.Prelude.Dict.{Dict}
use scan2graph.Jobs.Types.{Capabilities}

pub record Limits : Type 0 where
  pub max_message_bytes : ℕ
  pub max_stored_bytes : ℕ
  pub max_concurrent_jobs : ℕ

pub record Config : Type 0 where
  pub smtp_username : Str
  pub smtp_password : Str
  pub smtp_allow_anonymous : Bool
  pub smtp_password_generated : Bool
  pub profiles : Dict Capabilities
  pub default_profile : Capabilities
  pub allowed_recipient_domains : List Str
  pub limits : Limits
