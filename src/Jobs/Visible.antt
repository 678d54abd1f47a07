-- ===== src/Jobs/Visible.antt =====
-- What readers see: Get before and after a sweep, and what ListForUser lists for a user.
use mathlib.Core.List.{Memᴰ}
use scan2graph.Prelude.{
  ℕ, ◌+◌, ◌≡◌, ◌≢◌, ◌↔◌, refl, sym, true, false, not, ◌&&◌, List, [], ◌∷◌, some, none, Str, str_eq,
  str_eq_iff, arith, if◌then◌else◌, Bool-cases, inl, inr, add64, sub64, contains, All, length,
  is_empty, filter_by, IsSortedBy, sort_by, All-sort_by, sort_by-IsSortedBy, All-map, sort_by-Memᴰ,
  ap, ◌∙◌,
}
use scan2graph.Prelude.Dict.{Dict, lookup, lookup-retain}
use scan2graph.Jobs.Types.{Job, JobRecord, Store}
use scan2graph.Jobs.Read.{
  live, get, is_recipient, is_listed, listed, received_after, list_for_user, sweep_jobs,
  clean_expired,
}
use scan2graph.Jobs.Invariant.{Inv}
use scan2graph.Jobs.Invariant.Sweep.{is_live, clean_expired-jobs}

lookup-clean_expired :
    (s : Store) (id : Str) (now : ℕ)
    → Inv s
    → lookup id (clean_expired s now).0.jobs ≡ elim (lookup id s.jobs) [
      | none ↦ none
      | some rec ↦ if live rec.job now then some rec else none
    ]
lookup-clean_expired s id now v =
    rw clean_expired-jobs (lookup-retain id (is_live now) s.jobs v.unique_jobs)

-- A sweep removes what no reader was shown any more, and nothing else: at the time of the sweep Get
-- answers as before, and a job is no longer in the store exactly when Get does not find it. The store
-- keeps its books before the sweep.
pub clean_expired-get :
    (s : Store) (id : Str) (now : ℕ)
    → Inv s
    → (get (clean_expired s now).0 id now ≡ get s id now)
      × ((lookup id (clean_expired s now).0.jobs ≡ none) ↔ (get s id now ≡ none))
unfolding get
clean_expired-get s id now v = ground (arith, lookup-clean_expired s id now v)

sweep_jobs-length :
    (now used : ℕ) (m : Dict JobRecord)
    → length (sweep_jobs now used m).2 + length (sweep_jobs now used m).0 ≡ length m
unfolding sweep_jobs
sweep_jobs-length now used [] = refl
sweep_jobs-length now used ((k, rec) ∷ m) = ground (
  arith,
  sweep_jobs-length now (if live rec.job now then used else add64 used (sub64 0 rec.bytes)) m,
)

-- The number of jobs that a sweep reports is the number that it removes: with those that stay it
-- makes up all that there were.
pub clean_expired-length :
    (s : Store) (now : ℕ)
    → (clean_expired s now).1 + length (clean_expired s now).0.jobs ≡ length s.jobs
unfolding clean_expired
clean_expired-length s now = sweep_jobs-length now s.used s.jobs

-- A recipient whom the user is known as.
abbrev pub Shares : List Str → Job → Type 0
Shares identities j =
    (r : Str) × (r ≢ []) × (contains r j.recipients ≡ true) × (contains r identities ≡ true)

contains-filter :
    (r : Str) (ids : List Str)
    → contains r (filter_by (λ (i : Str). not (is_empty i)) ids)
      ≡ (contains r ids && not (is_empty r))
unfolding contains
contains-filter [] [] = refl
contains-filter r [] = ground arith
contains-filter r (i ∷ ids) = ground (arith, contains-filter r ids, str_eq_iff i r)

pub is_recipient-Shares :
    (want rs : List Str)
    → is_recipient want rs ≡ true
    → (r : Str) × (contains r rs ≡ true) × (contains r want ≡ true)
unfolding is_recipient contains
is_recipient-Shares want [] h = cc
is_recipient-Shares want (r ∷ rs) h = elim (Bool-cases (contains r want)) [
  | inl e ↦ (r, ground (arith, str_eq_iff r r), e)
  | inr e ↦
      let (q, q_in, q_wanted) = is_recipient-Shares want rs (ground arith) in
      (q, ground arith, q_wanted)
]

listed_sound :
    (want : List Str) (now : ℕ) (m : Dict JobRecord)
    → All (λ j. is_listed want now j ≡ true) (listed want now m)
unfolding listed
listed_sound want now [] = tt
listed_sound want now ((k, rec) ∷ m) = elim (Bool-cases (is_listed want now rec.job)) [
  | inl e ↦ rw e (e, listed_sound want now m)
  | inr e ↦ rw e (listed_sound want now m)
]

-- The identities that ListForUser looks for.
abbrev wanted : List Str → List Str
wanted = filter_by λ (i : Str). not (is_empty i)

is_listed-Shares :
    (identities : List Str) (now : ℕ) (j : Job)
    → is_listed (wanted identities) now j ≡ true
    → (j.caps.web ≡ true) × (live j now ≡ true) × Shares identities j
unfolding is_listed
is_listed-Shares identities now j h =
    let (r, there, known) = is_recipient-Shares (wanted identities) j.recipients (ground arith) in
    let both : (contains r identities && not (is_empty r)) ≡ true =
      sym (contains-filter r identities) ∙ known in
    (ground arith, ground arith, (r, ground arith, there, ground arith))

listed-IsSortedBy : (js : List Job) → IsSortedBy received_after (sort_by received_after js)
unfolding received_after
listed-IsSortedBy js =
    sort_by-IsSortedBy received_after (λ a b h. ground arith) (λ a b c h k. ground arith) js

-- Every job that ListForUser returns is for the web, not expired, and has among its recipients one
-- of the identities, and not the empty one; the newest come first.
pub list_for_user_sound :
    (s : Store) (identities : List Str) (now : ℕ)
    → All
        (λ j. (j.caps.web ≡ true) × (live j now ≡ true) × Shares identities j)
        (list_for_user s identities now)
      × IsSortedBy received_after (list_for_user s identities now)
unfolding list_for_user
list_for_user_sound s identities now = elim (Bool-cases (is_empty (wanted identities))) [
  | inl e ↦ rw e (tt, tt)
  | inr e ↦ rw e (
    All-sort_by received_after _ (listed (wanted identities) now s.jobs) (
        All-map _ _ _ (is_listed-Shares identities now)
          (listed_sound (wanted identities) now s.jobs)),
    listed-IsSortedBy (listed (wanted identities) now s.jobs),
  )
]

pub is_recipient_of :
    (r : Str) (want rs : List Str)
    → contains r rs ≡ true
    → contains r want ≡ true
    → is_recipient want rs ≡ true
unfolding is_recipient contains
is_recipient_of r want [] h k = cc
is_recipient_of r want (q ∷ rs) h k =
    ground (arith, is_recipient_of r want rs, str_eq_iff q r, ap (λ x. contains x want))

listed-Memᴰ :
    (want : List Str) (now : ℕ) (k : Str) (m : Dict JobRecord) {rec : JobRecord}
    → lookup k m ≡ some rec
    → is_listed want now rec.job ≡ true
    → Memᴰ rec.job (listed want now m)
unfolding listed lookup
listed-Memᴰ want now k [] h l = cc
listed-Memᴰ want now k ((j, r) ∷ m) {rec} h l = elim (Bool-cases (str_eq j k)) [
  | inl e ↦ let same : r ≡ rec = ground arith in rw (same, l) (Memᴰ.head refl)
  | inr e ↦
      let rest = listed-Memᴰ want now k m {rec = rec} (ground arith) l in
      elim (Bool-cases (is_listed want now r.job)) [
        | inl b ↦ rw b (Memᴰ.tail rest)
        | inr b ↦ rw b rest
      ]
]

contains-is_empty : (r : Str) (rs : List Str) → contains r rs ≡ true → is_empty rs ≡ false
unfolding contains
contains-is_empty r [] h = cc
contains-is_empty r (q ∷ rs) h = refl

-- ListForUser returns every job of the store that is for the web, not expired, and shares a recipient
-- with the identities.
pub list_for_user_complete :
    (s : Store) (identities : List Str) (now : ℕ) (id : Str) (rec : JobRecord)
    → lookup id s.jobs ≡ some rec
    → rec.job.caps.web ≡ true
    → live rec.job now ≡ true
    → Shares identities rec.job
    → Memᴰ rec.job (list_for_user s identities now)
unfolding list_for_user is_listed
list_for_user_complete s identities now id rec found web alive (r, real, there, known) =
    let wants : contains r (wanted identities) ≡ true =
      ground (arith, contains-filter r identities) in
    rw (contains-is_empty r (wanted identities) wants) (
      sort_by-Memᴰ received_after rec.job (listed (wanted identities) now s.jobs) (
        listed-Memᴰ (wanted identities) now id s.jobs found
          (ground (arith, is_recipient_of r (wanted identities) rec.job.recipients there wants))))
