-- ===== src/Smtp/Session/Recipients.antt =====
-- Whom a session accepts as recipients.
use scan2graph.Prelude.{
  All-append, ◌≡◌, refl, not, ◌||◌, true, false, List, [], ◌∷◌, ◌++◌, Str, arith, Unicode,
  Bool-cases, inl, inr, All, contains, str_eq, str_eq_iff, is_empty, ap, ℕ,
}
use scan2graph.Config.Types.{Config}
use scan2graph.Config.Address.{normalize_address, recipient_allowed}
use scan2graph.Smtp.Session.{World, Session, cleared, add_recipient, reset, mail, rcpt}
use scan2graph.Smtp.Session.Reset.{Later, now, resets, mails, rcpts, others, reset-session}

abbrev Distinct : List Str → Type 0
Distinct [] = Unit {0}
Distinct (r ∷ rs) = (contains r rs ≡ false) × Distinct rs

-- What NormalizeAddress makes of some text, if the configuration allows it.
abbrev pub Accepted : Unicode → Config → Str → Type 0
Accepted u cfg r =
    (is_empty r ≡ false)
    × (recipient_allowed u cfg r ≡ true)
    × ((to : Str) × (normalize_address u to ≡ r))

-- Every recipient is an address that the configuration allows, and none stands twice.
pub record IsAddressed (u : Unicode) (cfg : Config) (rs : List Str) : Type 0 where
  pub addresses : All (Accepted u cfg) rs
  pub distinct : Distinct rs

contains-append :
    (k r : Str) (rs : List Str)
    → contains k rs ≡ false
    → str_eq r k ≡ false
    → contains k (rs ++ r ∷ []) ≡ false
unfolding contains
contains-append k r [] h n = ground arith
contains-append k r (q ∷ rs) h n = ground (arith, contains-append k r rs)

Distinct-append :
    (r : Str) (rs : List Str) → contains r rs ≡ false → Distinct rs → Distinct (rs ++ r ∷ [])
unfolding contains
Distinct-append r [] h d = (refl, tt)
Distinct-append r (q ∷ rs) h d = (
  ground (arith, contains-append q r rs, str_eq_iff r q, str_eq_iff q r),
  Distinct-append r rs (ground arith) d.1,
)

add_recipient-IsAddressed :
    (u : Unicode) (cfg : Config) (rs : List Str) (r : Str)
    → Accepted u cfg r
    → IsAddressed u cfg rs
    → IsAddressed u cfg (add_recipient rs r)
unfolding add_recipient
add_recipient-IsAddressed u cfg rs r a v = elim (Bool-cases (contains r rs)) [
  | inl c ↦ rw c v
  | inr c ↦ rw c (record {
    addresses = All-append _ r rs a v.addresses;
    distinct = Distinct-append r rs c v.distinct;
  })
]

rcpt-IsAddressed :
    (u : Unicode) (cfg : Config) (w : World) (to : Str)
    → IsAddressed u cfg w.session.recipients
    → IsAddressed u cfg (rcpt u cfg w to).0.session.recipients
unfolding rcpt
rcpt-IsAddressed u cfg w to v =
    let canon = normalize_address u to in
    elim (Bool-cases (is_empty canon || not (recipient_allowed u cfg canon))) [
      | inl e ↦ rw e v
      | inr e ↦ rw e (
          add_recipient-IsAddressed u cfg w.session.recipients canon
            (ground arith, ground arith, (to, refl)) v)
    ]

reset-recipients : (w : World) → (reset w).session.recipients ≡ []
unfolding cleared
reset-recipients w = ap (λ (s : Session). s.recipients) (reset-session w)

mail-recipients :
    (u : Unicode) (cfg : Config) (w : World) (sender : Str)
    → (mail u cfg w sender).0.session.recipients ≡ []
unfolding mail
mail-recipients u cfg w sender = ground (arith, reset-recipients w)

none-IsAddressed : (u : Unicode) (cfg : Config) → IsAddressed u cfg []
none-IsAddressed u cfg = record { addresses = tt; distinct = tt }

-- Whatever commands a session runs, its recipients stay what NormalizeAddress makes of some text,
-- not empty and allowed by the configuration, and none stands twice: if it was so, it is so after
-- any RCPT, MAIL, RSET or end of the connection, and whatever other goroutines do in between.
pub commands-IsAddressed :
    (u : Unicode) (cfg : Config) (w v : World) (n : ℕ)
    → IsAddressed u cfg w.session.recipients
    → Later u cfg w n v
    → IsAddressed u cfg v.session.recipients
commands-IsAddressed u cfg w v n h now = h
commands-IsAddressed u cfg w v n h (resets {v = v'} l) =
    rw (reset-recipients v') (none-IsAddressed u cfg)
commands-IsAddressed u cfg w v n h (mails {v = v'} sender l) =
    rw (mail-recipients u cfg v' sender) (none-IsAddressed u cfg)
commands-IsAddressed u cfg w v n h (rcpts {n = n'} {v = v'} to l) =
    rcpt-IsAddressed u cfg v' to (commands-IsAddressed u cfg w v' n' h l)
commands-IsAddressed u cfg w v n h (others {n = n'} {v = v'} _ e l) =
    rw e (commands-IsAddressed u cfg w v' n' h l)
