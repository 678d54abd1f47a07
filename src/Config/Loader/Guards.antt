-- ===== src/Config/Loader/Guards.antt =====
-- What settings without an error guarantee to the listener.
use scan2graph.Prelude.{
  ◌≡◌, ◌⊎◌, refl, inl, inr, Bool, true, false, [], Option, none, some, Str, arith, is_empty,
}
use scan2graph.Config.Loader.{is_set, is_blank, smtp_auth}

-- If smtpAuth notes no error, the listener is open only if that was asked for, and else there is a
-- password: it is never empty, whatever is set, since what is drawn is not.
pub smtp_auth_guarded :
    (user pass : Option Str) (anon : Bool) (random : Str)
    → is_empty random ≡ false
    → (smtp_auth user pass anon random).1 ≡ []
    → ((smtp_auth user pass anon random).0.allow_anonymous ≡ anon)
      × ((anon ≡ true) ⊎ (is_empty (smtp_auth user pass anon random).0.password ≡ false))
unfolding smtp_auth is_set is_blank
smtp_auth_guarded user pass true random h fine = (refl, inl refl)
smtp_auth_guarded none none false random h fine = (refl, inr h)
smtp_auth_guarded (some u) none false random h fine = (refl, inr h)
smtp_auth_guarded none (some p) false random h fine = (refl, inr (ground arith))
smtp_auth_guarded (some u) (some p) false random h fine = (refl, inr (ground arith))
