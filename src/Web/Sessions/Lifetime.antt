-- ===== src/Web/Sessions/Lifetime.antt =====
-- How long a session is found.
use scan2graph.Prelude.{
  ℕ, ◌+◌, ◌≤◌, ◌≡◌, refl, false, none, some, Str, ltb, if◌then◌else◌, str_eq, str_eq_refl, arith,
}
use scan2graph.Prelude.Dict.{Dict, retain, Unique, lookup-put, lookup-retain, lookup-delete}
use scan2graph.Web.Sessions.{WebSession, session_ttl, create, get, drop_session}

get-create :
    (m : Dict WebSession) (sess : WebSession) (id k : Str) (now later : ℕ)
    → Unique m
    → now ≤ later
    → (get (create m sess id now) k later).1 ≡ (
        if str_eq id k
        then (if ltb later (now + session_ttl)
            then some (record sess { expires_at = now + session_ttl })
            else none)
        else (get m k later).1)
unfolding get create
get-create m sess id k now later u h = ground (
  arith,
  lookup-put id k (record sess { expires_at = now + session_ttl })
      (retain (λ (v : WebSession). ltb now v.expires_at) m),
  lookup-retain k (λ (v : WebSession). ltb now v.expires_at) m u,
)

get-drop_session :
    (m : Dict WebSession) (k : Str) (later : ℕ)
    → Unique m
    → (get (drop_session m k) k later).1 ≡ none
unfolding get drop_session
get-drop_session m k later u = ground (arith, lookup-delete k k m u, str_eq_refl k)

-- A session that create stores is found under its id for 8 hours, with its identities and its name,
-- and no longer. The other sessions are found as before, although create sweeps. A session that is
-- dropped is not found. Time does not run backwards, and no id stands twice.
pub session_lives :
    (m : Dict WebSession) (sess : WebSession) (id k : Str) (now later : ℕ)
    → Unique m
    → now ≤ later
    → str_eq id k ≡ false
    → ((get (create m sess id now) id later).1 ≡ (
        if ltb later (now + session_ttl)
        then some (record sess { expires_at = now + session_ttl })
        else none))
      × ((get (create m sess id now) k later).1 ≡ (get m k later).1)
      × ((get (drop_session m k) k later).1 ≡ none)
session_lives m sess id k now later u h other = (
  rw (get-create m sess id id now later u h, str_eq_refl id) refl,
  rw (get-create m sess id k now later u h, other) refl,
  get-drop_session m k later u,
)
