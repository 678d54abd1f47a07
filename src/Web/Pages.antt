-- ===== src/Web/Pages.antt =====
-- internal/web/web.go: who sees which scan. What the templates print is left out of a page.
pub mod Access
pub mod Listing
use scan2graph.Prelude.{
  ℕ, Bool, true, false, not, ◌&&◌, ◌||◌, List, [], ◌∷◌, Option, none, some, Str, str_eq, contains,
  if◌then◌else◌,
}
use scan2graph.Prelude.Dict.{Dict}
use scan2graph.Jobs.Types.{Store, Job, Document, Status, pending, processing}
use scan2graph.Jobs.Read.{list_for_user}
use scan2graph.Web.Sessions.{WebSession}

-- What a handler answers: a redirect to the sign-in, 404, 409, 500, a page that refreshes itself or
-- does not, or the bytes of a document.
pub data Answer : Type 0 where
  sign_in not_found still_processing unavailable : Answer
  list_page : List Job → Bool → Answer
  detail_page : Job → Bool → Answer
  file : Document → Answer

-- The loop of `job` over the caller's identities.
unfoldable pub has_identity : List Str → List Str → Bool
unfolding contains
has_identity [] recipients = false
has_identity (id ∷ ids) recipients =
    if contains id recipients then true else has_identity ids recipients

unfoldable pub authorize : WebSession → Option Job → Option Job
unfolding has_identity
authorize sess none = none
authorize sess (some j) =
    if not j.caps.web
    then none
    else if has_identity sess.identities j.recipients
    then some j
    else none

-- `job`.
unfoldable pub find_job : Store → WebSession → Str → ℕ → Option Job
unfolding authorize
find_job store sess job_id now = authorize sess (scan2graph.Jobs.Read.get store job_id now)

unfoldable pub is_unfinished : Status → Bool
is_unfinished pending = true
is_unfinished processing = true
is_unfinished _ = false

any_unfinished : List Job → Bool
unfolding is_unfinished
any_unfinished [] = false
any_unfinished (j ∷ js) = if is_unfinished j.status then true else any_unfinished js

unfoldable pub handle_list : Store → WebSession → ℕ → Answer
unfolding list_for_user any_unfinished
handle_list store sess now =
    let found = list_for_user store sess.identities now in list_page found (any_unfinished found)

unfoldable pub handle_detail : Store → WebSession → Str → ℕ → Answer
unfolding find_job is_unfinished
handle_detail store sess job_id now = elim (find_job store sess job_id now) [
  | none ↦ not_found
  | some j ↦ detail_page j (is_unfinished j.status)
]

unfoldable pub find_document : Str → List Document → Option Document
unfolding str_eq
find_document doc_id [] = none
find_document doc_id (d ∷ ds) = if str_eq d.id doc_id then some d else find_document doc_id ds

-- `handleDownload` once the document is found; `opens` says which paths os.Open opens.
unfoldable pub hand_out : (Str → Bool) → Job → Option Document → Answer
unfolding is_unfinished
hand_out opens j none = not_found
hand_out opens j (some d) =
    if is_unfinished j.status
    then still_processing
    else if opens d.path
    then file d
    else unavailable

unfoldable pub download_from : (Str → Bool) → Str → Option Job → Answer
unfolding hand_out find_document
download_from opens doc_id none = not_found
download_from opens doc_id (some j) = hand_out opens j (find_document doc_id j.documents)

unfoldable pub handle_download : (Str → Bool) → Store → WebSession → Str → Str → ℕ → Answer
unfolding download_from find_job
handle_download opens store sess job_id doc_id now =
    download_from opens doc_id (find_job store sess job_id now)

unfoldable pub admit : (WebSession → Answer) → Option WebSession → Answer
admit handler none = sign_in
admit handler (some sess) = handler sess

-- `guard`: the sessions, and the answer. The request's cookie is the id of a session.
unfoldable pub guard :
    (WebSession → Answer) → Dict WebSession → Option Str → ℕ → Dict WebSession × Answer
unfolding admit
guard handler sessions none now = (sessions, sign_in)
guard handler sessions (some cookie) now =
    let (sessions', found) = scan2graph.Web.Sessions.get sessions cookie now in
    (sessions', admit handler found)
