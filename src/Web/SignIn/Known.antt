-- ===== src/Web/SignIn/Known.antt =====
-- The identities of a session that a sign-in opens.
use scan2graph.Prelude.{
  ◌≡◌, false, not, ◌&&◌, List, [], ◌∷◌, ◌++◌, Str, is_empty, contains, Bool-cases, inl, inr,
  Unicode, arith,
}
use scan2graph.Config.Address.{normalize_address}
use scan2graph.Web.Pages.Listing.{AreReal}
use scan2graph.Web.SignIn.{IdToken, add_identities, identities}

AreReal-snoc :
    (ids : List Str) (id : Str) → AreReal ids → is_empty id ≡ false → AreReal (ids ++ id ∷ [])
AreReal-snoc [] id h e = (e, tt)
AreReal-snoc (i ∷ ids) id (p, h) e = (p, AreReal-snoc ids id h e)

add_identities-AreReal :
    (u : Unicode) (claims out : List Str) → AreReal out → AreReal (add_identities u claims out)
unfolding add_identities
add_identities-AreReal u [] out h = h
add_identities-AreReal u (c ∷ claims) out h =
    let id = normalize_address u c in
    elim (Bool-cases (not (is_empty id) && not (contains id out))) [
      | inl e ↦ rw e (
          add_identities-AreReal u claims (out ++ id ∷ [])
            (AreReal-snoc out id h (ground (arith, e))))
      | inr e ↦ rw e (add_identities-AreReal u claims out h)
    ]

pub identities-AreReal : (u : Unicode) (t : IdToken) → AreReal (identities u t)
unfolding identities
identities-AreReal u t = add_identities-AreReal u (t.email ∷ t.preferred_username ∷ []) [] tt
