-- ===== src/Web/Sessions.antt =====
-- internal/web/session.go: the store of sessions. `id` is what crypto/rand draws.
pub mod Lifetime
use scan2graph.Prelude.{ℕ, ◌+◌, List, Option, none, some, Str, ltb, if◌then◌else◌}
use scan2graph.Prelude.Dict.{Dict, lookup, put, delete, retain}

-- 8 hours.
abbrev pub session_ttl : ℕ
session_ttl = 28800000000000

pub record WebSession : Type 0 where
  pub identities : List Str
  pub name : Str
  pub expires_at : ℕ

unfoldable pub create : Dict WebSession → WebSession → Str → ℕ → Dict WebSession
create m sess id now =
    put id (record sess { expires_at = now + session_ttl }) (retain (λ v. ltb now v.expires_at) m)

unfoldable pub get : Dict WebSession → Str → ℕ → Dict WebSession × Option WebSession
get m id now = elim (lookup id m) [
  | none ↦ (m, none)
  | some sess ↦ if ltb now sess.expires_at then (m, some sess) else (delete id m, none)
]

unfoldable pub drop_session : Dict WebSession → Str → Dict WebSession
drop_session m id = delete id m
