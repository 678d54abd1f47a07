-- ===== src/Smtp/Auth.antt =====
-- internal/smtpin/session.go: the authentication of a session, by PLAIN or LOGIN.
-- `subtle.ConstantTimeCompare` is 1 exactly when its arguments are equal; the time that it takes is
-- not modelled. The server of PLAIN is go-sasl's, and calls `authenticate`.
use scan2graph.Prelude.{
  ℕ, zero, suc, ◌≡◌, ◌↔◌, ◌⊎◌, Bool, true, false, not, ◌||◌, Option, none, some, Str, codes, [],
  str_eq, str_eq_iff, if◌then◌else◌, arith,
}
use scan2graph.Config.Types.{Config}
use scan2graph.Smtp.Session.{World, Reply, accepted, auth_failed}

unfoldable pub authenticate : Config → World → Str → Str → World × Reply
authenticate cfg w username password =
    if not (str_eq username cfg.smtp_username) || not (str_eq password cfg.smtp_password)
    then (w, auth_failed)
    else (record w { session = record w.session { authenticated = true } }, accepted)

pub record LoginServer : Type 0 where
  pub step : ℕ
  pub username : Str

-- `nil`, a challenge with which it goes on, or the end and what `authenticate` says.
pub data Challenge : Type 0 where
  nothing : Challenge
  prompt : Str → Challenge
  done : Reply → Challenge

-- What authSession.Auth makes.
abbrev pub login_server : LoginServer
login_server = record { step = 0; username = [] }

-- `loginServer.Next`: a response may be nil. As a text, nil is empty.
abbrev pub response_text : Option Str → Str
response_text none = []
response_text (some r) = r

next_at : ℕ → Config → World → LoginServer → Option Str → World × LoginServer × Challenge
unfolding authenticate
next_at zero cfg w l none = (w, record l { step = 1 }, prompt (codes "Username:"))
next_at zero cfg w l (some r) = (w, record { step = 2; username = r }, prompt (codes "Password:"))
next_at (suc zero) cfg w l r =
    (w, record { step = 2; username = response_text r }, prompt (codes "Password:"))
next_at (suc (suc zero)) cfg w l r =
    let (w', reply) = authenticate cfg w l.username (response_text r) in (w', l, done reply)
next_at _ cfg w l r = (w, l, nothing)

unfoldable pub login_next :
    Config → World → LoginServer → Option Str → World × LoginServer × Challenge
unfolding next_at
login_next cfg w l r = next_at l.step cfg w l r

-- The exchange of LOGIN, with the user name in an initial response or not: the last challenge.
unfoldable pub login : Config → World → Bool → Str → Str → World × Challenge
unfolding login_next
login cfg w true username password =
    let (w1, l1, _) = login_next cfg w login_server (some username) in
    let (w2, _, c) = login_next cfg w1 l1 (some password) in (w2, c)
login cfg w false username password =
    let (w1, l1, _) = login_next cfg w login_server none in
    let (w2, l2, _) = login_next cfg w1 l1 (some username) in
    let (w3, _, c) = login_next cfg w2 l2 (some password) in (w3, c)

-- A LOGIN, whether the user name comes in an initial response or is asked for, ends with success
-- exactly when user name and password are the configured ones. The session is authenticated after
-- it exactly when that is so or it was before, and the store is as it was.
pub login_succeeds_iff :
    (cfg : Config) (w : World) (first : Bool) (username password : Str)
    → let (w', c) = login cfg w first username password in
      ((c ≡ done accepted) ↔ ((username ≡ cfg.smtp_username) × (password ≡ cfg.smtp_password)))
      × ((w'.session.authenticated ≡ true)
          ↔ ((c ≡ done accepted) ⊎ (w.session.authenticated ≡ true)))
      × (w'.store ≡ w.store)
unfolding login
login_succeeds_iff cfg w true username password =
    ground (arith, str_eq_iff username cfg.smtp_username, str_eq_iff password cfg.smtp_password)
login_succeeds_iff cfg w false username password =
    ground (arith, str_eq_iff username cfg.smtp_username, str_eq_iff password cfg.smtp_password)
