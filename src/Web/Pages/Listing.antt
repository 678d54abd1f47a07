-- ===== src/Web/Pages/Listing.antt =====
-- The job behind a link, and the list of ListForUser.
use mathlib.Core.List.{Memᴰ}
use scan2graph.Prelude.{
  ◌≡◌, ◌≢◌, ◌↔◌, refl, sym, ap, ◌∙◌, subst, ℕ, Bool, true, false, List, [], ◌∷◌, Option, some, Str,
  arith, str_eq, str_eq_iff, str_eq_refl, contains, Bool-cases, Option-cases, inl, inr, All,
  All-map, All-sort_by, is_empty, filter_by, not,
}
use scan2graph.Prelude.Dict.{Dict, lookup, Lacks, Unique}
use scan2graph.Jobs.Types.{Store, Job, JobRecord, ok}
use scan2graph.Jobs.Reserve.{new}
use scan2graph.Jobs.History.{Reach, Reach-Inv, new-Inv}
use scan2graph.Jobs.Keyed.{IsKeyed, Reach-IsKeyed, new-IsKeyed}
use scan2graph.Jobs.Read.{live, is_recipient, is_listed, listed, received_after, list_for_user}
use scan2graph.Jobs.Visible.{
  is_recipient-Shares, is_recipient_of, list_for_user_sound, list_for_user_complete,
}
use scan2graph.Web.Sessions.{WebSession}
use scan2graph.Web.Pages.{find_job}
use scan2graph.Web.Pages.Access.{find_job-get, listed-some}

pub All-Memᴰ {ℓ} : {A : Type ℓ} (P : A → Type 0) {x : A} (xs : List A) → All P xs → Memᴰ x xs → P x
All-Memᴰ {A = A} P [] h m = elim m [ ]
All-Memᴰ P (y ∷ xs) (p, ps) (Memᴰ.head e) = subst P (sym e) p
All-Memᴰ P (y ∷ xs) (p, ps) (Memᴰ.tail m) = All-Memᴰ P xs ps m

-- No identity is empty.
abbrev pub AreReal : List Str → Type 0
AreReal = All λ (i : Str). is_empty i ≡ false

real : (r : Str) (ids : List Str) → AreReal ids → contains r ids ≡ true → r ≢ []
unfolding contains
real r [] h k = cc
real r (i ∷ ids) (p, h) k = elim (Bool-cases (str_eq i r)) [
  | inl e ↦ λ bare.
      let same : i ≡ r = (str_eq_iff i r).0 e in
      let empty : is_empty i ≡ true = ap is_empty (same ∙ bare) in
      let clash : true ≡ false = sym empty ∙ p in cc
  | inr e ↦ real r ids h (ground (arith, k, e))
]

-- A job of the store, under its id.
abbrev IsStored : Dict JobRecord → Job → Type 0
IsStored m j = (rec : JobRecord) × (lookup j.id m ≡ some rec) × (rec.job ≡ j)

listed-IsStored :
    (want : List Str) (now : ℕ) (whole m : Dict JobRecord)
    → All (λ e. lookup e.1.job.id whole ≡ some e.1) m
    → All (IsStored whole) (listed want now m)
unfolding listed
listed-IsStored want now whole [] h = tt
listed-IsStored want now whole ((k, rec) ∷ m) (e, h) =
    elim (Bool-cases (is_listed want now rec.job)) [
      | inl b ↦ rw b ((rec, e, refl), listed-IsStored want now whole m h)
      | inr b ↦ rw b (listed-IsStored want now whole m h)
    ]

lookup-cons :
    (k : Str) (r : JobRecord) (m cs : Dict JobRecord)
    → Lacks k cs
    → All (λ e. lookup e.0 m ≡ some e.1) cs
    → All (λ e. lookup e.0 ((k, r) ∷ m) ≡ some e.1) cs
unfolding lookup
lookup-cons k r m [] l h = tt
lookup-cons k r m ((j, rec) ∷ cs) l h =
    (ground (arith, str_eq_iff k j, str_eq_iff j k), lookup-cons k r m cs l.1 h.1)

entries-lookup : (m : Dict JobRecord) → Unique m → All (λ e. lookup e.0 m ≡ some e.1) m
unfolding lookup
entries-lookup [] u = tt
entries-lookup ((k, rec) ∷ m) u =
    (rw (str_eq_refl k) refl, lookup-cons k rec m m u.0 (entries-lookup m u.1))

entries-IsStored :
    (m : Dict JobRecord) → Unique m → IsKeyed m → All (λ e. lookup e.1.job.id m ≡ some e.1) m
entries-IsStored m u keyed =
    All-map _ _ m (λ e h. subst (λ k. lookup k m ≡ some e.1) (sym (keyed e.0 e.1 h)) h)
      (entries-lookup m u)

list_for_user-IsStored :
    (s : Store) (identities : List Str) (now : ℕ)
    → Unique s.jobs
    → IsKeyed s.jobs
    → All (IsStored s.jobs) (list_for_user s identities now)
unfolding list_for_user
list_for_user-IsStored s identities now u keyed =
    elim (Bool-cases (is_empty (filter_by (λ (i : Str). not (is_empty i)) identities))) [
      | inl e ↦ rw e tt
      | inr e ↦ rw e (
          All-sort_by received_after (IsStored s.jobs) (listed _ now s.jobs)
            (listed-IsStored _ now s.jobs s.jobs (entries-IsStored s.jobs u keyed)))
    ]

-- The record behind what Get finds.
get-record :
    (s : Store) (id : Str) (now : ℕ) (j : Job)
    → scan2graph.Jobs.Read.get s id now ≡ some j
    → (rec : JobRecord) × (lookup id s.jobs ≡ some rec) × (rec.job ≡ j)
unfolding scan2graph.Jobs.Read.get
get-record s id now j h = elim (Option-cases (lookup id s.jobs)) [
  | inl e ↦ ground (arith, h, e)
  | inr (rec, e) ↦ (rec, e, ground (arith, h, e))
]

get-some :
    (s : Store) (id : Str) (now : ℕ) (rec : JobRecord)
    → lookup id s.jobs ≡ some rec
    → live rec.job now ≡ true
    → scan2graph.Jobs.Read.get s id now ≡ some rec.job
unfolding scan2graph.Jobs.Read.get
get-some s id now rec e l = ground (arith, e, l)

is_listed-parts :
    (identities : List Str) (now : ℕ) (j : Job)
    → is_listed identities now j ≡ true
    → (j.caps.web ≡ true) × (live j now ≡ true) × (is_recipient identities j.recipients ≡ true)
unfolding is_listed
is_listed-parts identities now j h = ground (arith, h)

module _ (s : Store) (sess : WebSession) (now : ℕ) (unique : Unique s.jobs) (keyed : IsKeyed s.jobs)
    (known : AreReal sess.identities) where
  found-listed :
      (id : Str) (j : Job)
      → find_job s sess id now ≡ some j
      → (j.id ≡ id) × Memᴰ j (list_for_user s sess.identities now)
  found-listed id j h =
      let (got, wanted) =
        listed-some (scan2graph.Jobs.Read.get s id now) sess now j
          (sym (find_job-get s sess id now) ∙ h) in
      let (rec, there, same) = get-record s id now j got in
      let (web, alive, mine) = is_listed-parts sess.identities now j wanted in
      let (r, addressed, own) = is_recipient-Shares sess.identities j.recipients mine in
      (
        ap (λ (x : Job). x.id) (sym same) ∙ keyed id rec there,
        subst (λ x. Memᴰ x (list_for_user s sess.identities now)) same
            (list_for_user_complete s sess.identities now id rec there
              (ap (λ (x : Job). x.caps.web) same ∙ web) (ap (λ (x : Job). live x now) same ∙ alive)
              (
                r,
                real r sess.identities known own,
                ap (λ (x : Job). contains r x.recipients) same ∙ addressed,
                own,
              )),
      )

  listed-found :
      (j : Job) → Memᴰ j (list_for_user s sess.identities now) → find_job s sess j.id now ≡ some j
  unfolding is_listed
  listed-found j m =
      let (web, alive, (r, _, addressed, own)) =
        All-Memᴰ _ (list_for_user s sess.identities now)
          (list_for_user_sound s sess.identities now).0 m in
      let (rec, there, same) =
        All-Memᴰ (IsStored s.jobs) (list_for_user s sess.identities now)
          (list_for_user-IsStored s sess.identities now unique keyed) m in
      let got : scan2graph.Jobs.Read.get s j.id now ≡ some j =
        get-some s j.id now rec there (ap (λ (x : Job). live x now) same ∙ alive) ∙ ap some same in
      let mine = is_recipient_of r sess.identities j.recipients addressed own in
      let wanted : is_listed sess.identities now j ≡ true = ground (arith, web, alive, mine) in
      find_job-get s sess j.id now ∙ rw (got, wanted) refl

-- A caller can open a scan exactly when it stands in his list. In every store that is reached from
-- one that New has made, for a session none of whose identities is empty: the job behind a link is
-- found if and only if ListForUser lists it for the session's identities, under the link's id.
pub find_job-listed :
    (clean : Str → Str) (option_root : Str) (ttl max_bytes : ℕ) (root : Option Str) (a b c : Bool)
    {s t : Store}
    → new option_root ttl max_bytes root a b c ≡ ok s
    → Reach clean s t
    → (sess : WebSession) → AreReal sess.identities
    → (id : Str) (now : ℕ) (j : Job)
    → (find_job t sess id now ≡ some j)
      ↔ ((j.id ≡ id) × Memᴰ j (list_for_user t sess.identities now))
find_job-listed clean option_root ttl max_bytes root a b c {t = t} made reached sess known id now
      j =
    let books = new-Inv option_root ttl max_bytes root a b c made in
    let keyed =
      Reach-IsKeyed books (new-IsKeyed option_root ttl max_bytes root a b c made) reached in
    let unique = (Reach-Inv books reached).unique_jobs in
    (
      found-listed t sess now unique keyed known id j,
      λ (same, m).
          subst (λ k. find_job t sess k now ≡ some j) same
            (listed-found t sess now unique keyed known j m),
    )
