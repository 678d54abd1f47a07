-- ===== src/Web/SignIn/Checked.antt =====
-- What is checked before a session is opened.
use scan2graph.Prelude.{
  ◌≡◌, ◌⊎◌, refl, subst, ℕ, Bool, true, false, not, ◌||◌, List, [], ◌∷◌, Option, none, some, Str,
  arith, str_eq, str_eq_iff, if◌then◌else◌, is_empty, split_at, Unicode, inl, inr,
}
use scan2graph.Prelude.Dict.{Dict}
use scan2graph.Web.Sessions.{WebSession, create}
use scan2graph.Web.SignIn.{
  IdToken, Provider, Query, sign_in_failed, signed_in, identities, accept_token, accept_exchange,
  accept_parts, accept_cookie, open_session, handle_callback,
}

-- What was checked of a sign-in: the three parts of the cookie are there, the provider reports no
-- error, the state is the browser's own, the code was exchanged for a token that is verified, and
-- the token was issued for this browser.
pub record IsChecked (p : Provider) (q : Query) (cookie : Option Str) (t : IdToken) : Type 0 where
  pub value : Str
  pub state : Str
  pub nonce : Str
  pub verifier : Str
  pub raw : Str
  pub sent : cookie ≡ some value
  pub parts : split_at b'|' value ≡ state ∷ nonce ∷ verifier ∷ []
  pub filled : is_empty state || is_empty nonce || is_empty verifier ≡ false
  pub no_error : is_empty q.error ≡ true
  pub same_state : state ≡ q.state
  pub exchanged : p.exchange q.code verifier ≡ some (some raw)
  pub verified : p.verify raw ≡ some t
  pub same_nonce : t.nonce ≡ nonce

some_token : {x t : IdToken} → some x ≡ some t → x ≡ t
some_token h = cc

accept_token-some :
    (nonce : Str) (o : Option IdToken) (t : IdToken)
    → accept_token nonce o ≡ some t
    → (o ≡ some t) × (t.nonce ≡ nonce)
unfolding accept_token
accept_token-some nonce none t h = cc
accept_token-some nonce (some x) t h =
    pick (str_eq x.nonce nonce) x.readable (str_eq_iff x.nonce nonce).0 h
  where
    pick :
        (same readable : Bool)
        → (same ≡ true → x.nonce ≡ nonce)
        → (if not same then none else if readable then some x else none) ≡ some t
        → (some x ≡ some t) × (t.nonce ≡ nonce)
    pick false readable k e = cc
    pick true false k e = cc
    pick true true k e = (e, subst (λ y. y.nonce ≡ nonce) (some_token e) (k refl))

accept_exchange-some :
    (p : Provider) (nonce : Str) (o : Option (Option Str)) (t : IdToken)
    → accept_exchange p nonce o ≡ some t
    → (raw : Str) × (o ≡ some (some raw)) × (p.verify raw ≡ some t) × (t.nonce ≡ nonce)
unfolding accept_exchange
accept_exchange-some p nonce none t h = cc
accept_exchange-some p nonce (some none) t h = cc
accept_exchange-some p nonce (some (some raw)) t h =
    let (verified, same) = accept_token-some nonce (p.verify raw) t h in (raw, refl, verified, same)

passed :
    {o : Option IdToken} {t : IdToken} (b : Bool)
    → (if b then none else o) ≡ some t
    → (b ≡ false) × (o ≡ some t)
passed true h = cc
passed false h = (refl, h)

accept_parts-IsChecked :
    (p : Provider) (q : Query) (value : Str) (ps : List Str) (t : IdToken)
    → split_at b'|' value ≡ ps
    → accept_parts p q ps ≡ some t
    → IsChecked p q (some value) t
unfolding accept_parts
accept_parts-IsChecked p q value [] t e h = cc
accept_parts-IsChecked p q value (a ∷ []) t e h = cc
accept_parts-IsChecked p q value (a ∷ b ∷ []) t e h = cc
accept_parts-IsChecked p q value (state ∷ nonce ∷ verifier ∷ []) t e h =
    let (filled, h1) = passed (is_empty state || is_empty nonce || is_empty verifier) h in
    let (no_error, h2) = passed (not (is_empty q.error)) h1 in
    let (same, h3) = passed (not (str_eq state q.state)) h2 in
    let (raw, exchanged, verified, same_nonce) =
      accept_exchange-some p nonce (p.exchange q.code verifier) t h3 in
    record {
      value = value;
      state = state;
      nonce = nonce;
      verifier = verifier;
      raw = raw;
      sent = refl;
      parts = e;
      filled = filled;
      no_error = ground (arith, no_error);
      same_state = (str_eq_iff state q.state).0 (ground (arith, same));
      exchanged = exchanged;
      verified = verified;
      same_nonce = same_nonce;
    }
accept_parts-IsChecked p q value (a ∷ b ∷ c ∷ d ∷ ps) t e h = cc

accept_cookie-IsChecked :
    (p : Provider) (q : Query) (cookie : Option Str) (t : IdToken)
    → accept_cookie p q cookie ≡ some t
    → IsChecked p q cookie t
unfolding accept_cookie
accept_cookie-IsChecked p q none t h = cc
accept_cookie-IsChecked p q (some value) t h =
    accept_parts-IsChecked p q value (split_at b'|' value) t refl h

-- A session is opened only after a sign-in that was checked: either the answer is 400 and the
-- sessions stay as they are, or the browser's cookie holds a state, a nonce and a verifier, none of
-- them empty, the callback has this state and no error, its code and the verifier were exchanged for
-- an ID token that is verified and has this nonce, and the new session has the identities and the
-- name of this token.
pub handle_callback-cases :
    (u : Unicode) (p : Provider) (q : Query) (cookie : Option Str) (sessions : Dict WebSession)
    (id : Str) (now : ℕ)
    → (handle_callback u p q cookie sessions id now ≡ (sessions, sign_in_failed))
      ⊎ ((t : IdToken) × IsChecked p q cookie t
          × (handle_callback u p q cookie sessions id now ≡ (
            create sessions
                (record { identities = identities u t; name = t.name; expires_at = 0 })
                id
                now,
            signed_in id,
          )))
unfolding handle_callback
handle_callback-cases u p q cookie sessions id now =
    by_token (accept_cookie p q cookie) (accept_cookie-IsChecked p q cookie)
  where
    by_token :
        (o : Option IdToken)
        → ((t : IdToken) → o ≡ some t → IsChecked p q cookie t)
        → (open_session u sessions id now o ≡ (sessions, sign_in_failed))
          ⊎ ((t : IdToken) × IsChecked p q cookie t
              × (open_session u sessions id now o ≡ (
                create sessions
                    (record { identities = identities u t; name = t.name; expires_at = 0 })
                    id
                    now,
                signed_in id,
              )))
    by_token none checked = inl refl
    by_token (some t) checked = inr (t, checked t refl, refl)
