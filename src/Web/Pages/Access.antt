-- ===== src/Web/Pages/Access.antt =====
-- What stands behind a scan that a caller is sent.
use scan2graph.Prelude.{
  ◌≡◌, refl, sym, ap, ◌∙◌, ℕ, Bool, true, false, List, [], ◌∷◌, Option, none, some, Str, arith,
  str_eq_iff, contains, if◌then◌else◌, Option-cases, inl, inr, subst,
}
use scan2graph.Prelude.Dict.{Dict, lookup}
use scan2graph.Jobs.Types.{Store, Job, Document}
use scan2graph.Jobs.Read.{live, is_recipient, is_listed}
use scan2graph.Web.Sessions.{WebSession}
use scan2graph.Web.Pages.{
  Answer, file, has_identity, authorize, find_job, find_document, is_unfinished, hand_out,
  download_from, admit, guard, still_processing, unavailable, handle_download,
}

has_identity-cons :
    (ids : List Str) (r : Str) (rs : List Str)
    → has_identity ids (r ∷ rs) ≡ (if contains r ids then true else has_identity ids rs)
unfolding has_identity contains
has_identity-cons [] r rs = refl
has_identity-cons (id ∷ ids) r rs =
    ground (arith, has_identity-cons ids r rs, str_eq_iff r id, str_eq_iff id r)

has_identity-nil : (ids : List Str) → has_identity ids [] ≡ false
unfolding has_identity contains
has_identity-nil [] = refl
has_identity-nil (id ∷ ids) = has_identity-nil ids

-- The two loops, over the identities and over the recipients, find the same.
has_identity-is_recipient : (ids rs : List Str) → has_identity ids rs ≡ is_recipient ids rs
unfolding is_recipient
has_identity-is_recipient ids [] = has_identity-nil ids
has_identity-is_recipient ids (r ∷ rs) =
    has_identity-cons ids r rs ∙ rw (has_identity-is_recipient ids rs) refl

get-live :
    (o : Option Job) (sess : WebSession) (now : ℕ)
    → ((j : Job) → o ≡ some j → live j now ≡ true)
    → authorize sess o
      ≡ elim o [ none ↦ none | some j ↦ if is_listed sess.identities now j then some j else none ]
unfolding authorize is_listed
get-live none sess now h = refl
get-live (some j) sess now h =
    ground (arith, h j refl, has_identity-is_recipient sess.identities j.recipients)

get-is_live :
    (s : Store) (id : Str) (now : ℕ) (j : Job)
    → scan2graph.Jobs.Read.get s id now ≡ some j
    → live j now ≡ true
unfolding scan2graph.Jobs.Read.get
get-is_live s id now j h = elim (Option-cases (lookup id s.jobs)) [
  | inl e ↦ ground (arith, h, e)
  | inr (rec, e) ↦ ground (arith, h, e)
]

-- The job behind a link, by the test that ListForUser makes.
pub find_job-get :
    (s : Store) (sess : WebSession) (id : Str) (now : ℕ)
    → find_job s sess id now ≡ elim (scan2graph.Jobs.Read.get s id now) [
      | none ↦ none
      | some j ↦ if is_listed sess.identities now j then some j else none
    ]
unfolding find_job
find_job-get s sess id now =
    get-live (scan2graph.Jobs.Read.get s id now) sess now (get-is_live s id now)

some_injective : (x j : Job) → some x ≡ some j → x ≡ j
some_injective x j h = cc

kept-some : (b : Bool) (x j : Job) → (if b then some x else none) ≡ some j → (b ≡ true) × (x ≡ j)
kept-some true x j h = (refl, some_injective x j h)
kept-some false x j h = cc

pub listed-some :
    (o : Option Job) (sess : WebSession) (now : ℕ) (j : Job)
    → (elim o [ none ↦ none | some x ↦ if is_listed sess.identities now x then some x else none ])
      ≡ some j
    → (o ≡ some j) × (is_listed sess.identities now j ≡ true)
listed-some none sess now j h = cc
listed-some (some x) sess now j h =
    let (is_there, same) = kept-some (is_listed sess.identities now x) x j h in
    (ap some same, subst (λ y. is_listed sess.identities now y ≡ true) same is_there)

-- What stands behind a file that is sent.
abbrev IsSent : (Str → Bool) → Str → Job → Document → Type 0
IsSent opens doc_id j d =
    (is_unfinished j.status ≡ false)
    × (find_document doc_id j.documents ≡ some d)
    × (opens d.path ≡ true)

file_injective : (x d : Document) → file x ≡ file d → x ≡ d
file_injective x d h = cc

choice-file :
    (unfinished opened : Bool) (x d : Document)
    → (if unfinished then still_processing else if opened then file x else unavailable) ≡ file d
    → (unfinished ≡ false) × (opened ≡ true) × (x ≡ d)
choice-file true opened x d h = cc
choice-file false true x d h = (refl, refl, file_injective x d h)
choice-file false false x d h = cc

hand_out-file :
    (opens : Str → Bool) (j : Job) (o : Option Document) (d : Document)
    → hand_out opens j o ≡ file d
    → (is_unfinished j.status ≡ false) × (o ≡ some d) × (opens d.path ≡ true)
unfolding hand_out
hand_out-file opens j none d h = cc
hand_out-file opens j (some x) d h =
    let (finished, opened, same) = choice-file (is_unfinished j.status) (opens x.path) x d h in
    (finished, ap some same, subst (λ y. opens y.path ≡ true) same opened)

download_from-file :
    (opens : Str → Bool) (doc_id : Str) (o : Option Job) (d : Document)
    → download_from opens doc_id o ≡ file d
    → (j : Job) × (o ≡ some j) × IsSent opens doc_id j d
unfolding download_from
download_from-file opens doc_id none d h = cc
download_from-file opens doc_id (some j) d h =
    (j, refl, hand_out-file opens j (find_document doc_id j.documents) d h)

admit-file :
    (handler : WebSession → Answer) (o : Option WebSession) (d : Document)
    → admit handler o ≡ file d
    → (sess : WebSession) × (o ≡ some sess) × (handler sess ≡ file d)
unfolding admit
admit-file handler none d h = cc
admit-file handler (some sess) d h = (sess, refl, h)

-- A file is sent only to a caller who is signed in, and only of a scan that stands in his list: if
-- the answer to a download is a document, then the cookie is that of a live session, the link's job
-- exists and is listed for this session's identities, it is neither pending nor processing, so that
-- no document from before the OCR is handed out, and the document is one of this job's.
pub guard-download :
    (opens : Str → Bool) (s : Store) (sessions sessions' : Dict WebSession)
    (cookie job_id doc_id : Str) (now : ℕ) (d : Document)
    → guard (λ sess. handle_download opens s sess job_id doc_id now) sessions (some cookie) now
      ≡ (sessions', file d)
    → (sess : WebSession) × (j : Job) × ((scan2graph.Web.Sessions.get sessions cookie now).1
        ≡ some sess)
      × (scan2graph.Jobs.Read.get s job_id now ≡ some j)
      × (is_listed sess.identities now j ≡ true)
      × (is_unfinished j.status ≡ false)
      × (find_document doc_id j.documents ≡ some d)
unfolding guard handle_download
guard-download opens s sessions sessions' cookie job_id doc_id now d h =
    let (sess, in_session, answer) =
      admit-file (λ x. handle_download opens s x job_id doc_id now)
        (scan2graph.Web.Sessions.get sessions cookie now).1 d (ap (λ r. r.1) h) in
    let (j, found, (finished, there, _)) =
      download_from-file opens doc_id (find_job s sess job_id now) d answer in
    let (exists, wanted) =
      listed-some (scan2graph.Jobs.Read.get s job_id now) sess now j
        (sym (find_job-get s sess job_id now) ∙ found) in
    (sess, j, in_session, exists, wanted, finished, there)
