-- ===== src/Web/SignIn.antt =====
-- internal/web/auth.go: the end of a sign-in. The exchange of the code and the verification of the
-- ID token, which are oauth2's and go-oidc's, are parameters.
pub mod Checked
pub mod Known
use scan2graph.Prelude.{
  ℕ, Bool, true, false, not, ◌&&◌, ◌||◌, List, [], ◌∷◌, ◌++◌, Option, none, some, Str, str_eq,
  contains, if◌then◌else◌, is_empty, split_at, Unicode,
}
use scan2graph.Prelude.Dict.{Dict}
use scan2graph.Config.Address.{normalize_address}
use scan2graph.Web.Sessions.{WebSession, create, drop_session}

-- A verified ID token, and whether its claims can be read.
pub record IdToken : Type 0 where
  pub nonce : Str
  pub readable : Bool
  pub email : Str
  pub preferred_username : Str
  pub name : Str

-- `Exchange` of a code and a verifier, which may fail, and may give no ID token, and `Verify`.
pub record Provider : Type 0 where
  pub exchange : Str → Str → Option (Option Str)
  pub verify : Str → Option IdToken

-- The query of the callback.
pub record Query : Type 0 where
  pub error : Str
  pub state : Str
  pub code : Str

-- 400, or a redirect with the cookie of the new session.
pub data SignInAnswer : Type 0 where
  sign_in_failed : SignInAnswer
  signed_in : Str → SignInAnswer

-- The loop of `identities` over the claims.
unfoldable pub add_identities : Unicode → List Str → List Str → List Str
unfolding contains normalize_address
add_identities u [] out = out
add_identities u (c ∷ claims) out =
    let id = normalize_address u c in
    add_identities u claims
      (if not (is_empty id) && not (contains id out) then out ++ id ∷ [] else out)

unfoldable pub identities : Unicode → IdToken → List Str
unfolding add_identities
identities u token = add_identities u (token.email ∷ token.preferred_username ∷ []) []

-- The checks on the ID token.
unfoldable pub accept_token : Str → Option IdToken → Option IdToken
unfolding str_eq
accept_token nonce none = none
accept_token nonce (some t) =
    if not (str_eq t.nonce nonce) then none else if t.readable then some t else none

unfoldable pub accept_exchange : Provider → Str → Option (Option Str) → Option IdToken
unfolding accept_token
accept_exchange p nonce none = none
accept_exchange p nonce (some none) = none
accept_exchange p nonce (some (some raw)) = accept_token nonce (p.verify raw)

-- The checks from the parts of the cookie on.
unfoldable pub accept_parts : Provider → Query → List Str → Option IdToken
unfolding accept_exchange str_eq
accept_parts p q (state ∷ nonce ∷ verifier ∷ []) =
    if is_empty state || is_empty nonce || is_empty verifier
    then none
    else if not (is_empty q.error)
    then none
    else if not (str_eq state q.state)
    then none
    else accept_exchange p nonce (p.exchange q.code verifier)
accept_parts p q parts = none

unfoldable pub accept_cookie : Provider → Query → Option Str → Option IdToken
unfolding accept_parts split_at
accept_cookie p q none = none
accept_cookie p q (some cookie) = accept_parts p q (split_at b'|' cookie)

unfoldable pub open_session :
    Unicode → Dict WebSession → Str → ℕ → Option IdToken → Dict WebSession × SignInAnswer
unfolding identities
open_session u sessions id now none = (sessions, sign_in_failed)
open_session u sessions id now (some t) = (
  create sessions (record { identities = identities u t; name = t.name; expires_at = 0 }) id now,
  signed_in id,
)

-- `handleCallback`; `id` is what crypto/rand draws for a session.
unfoldable pub handle_callback :
    Unicode
    → Provider
    → Query
    → Option Str
    → Dict WebSession
    → Str
    → ℕ
    → Dict WebSession × SignInAnswer
unfolding accept_cookie open_session
handle_callback u p q cookie sessions id now =
    open_session u sessions id now (accept_cookie p q cookie)

-- `handleLogout`: the sessions that stay.
unfoldable pub handle_logout : Dict WebSession → Option Str → Dict WebSession
handle_logout sessions none = sessions
handle_logout sessions (some cookie) = drop_session sessions cookie
