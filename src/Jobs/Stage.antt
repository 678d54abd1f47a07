-- ===== src/Jobs/Stage.antt =====
-- internal/jobs/store.go: Staging, a reserved directory that ends in a Commit or an Abort.
-- `lstat` is what the disk says of a path, `new_id i` the i-th id that is drawn, if it can be.
pub mod Protocol
pub mod Settle
pub mod Examples
use scan2graph.Prelude.{
  ℕ, zero, suc, ◌+◌, Bool, true, false, List, [], ◌∷◌, Option, none, some, Str, contains,
  if◌then◌else◌, length, is_empty, Unicode,
}
use scan2graph.Jobs.Types.{
  pending, Document, Job, NewDocument, NewJob, Store, Staging, StagingState, staging_open,
  staging_committed, staging_aborted, no_random, no_file, not_regular, not_created,
  already_committed, already_aborted, no_documents, Result, ok, err, DiskOp, remove_all, FileInfo,
  missing, irregular, regular,
}
use scan2graph.Jobs.Sanitize.{sanitize_subject, sanitize_display_name}
use scan2graph.Jobs.Reserve.{release_reservation, commit_reservation}

-- `Staging.CreateFile`, with the file that the disk has made.
add_file : StagingState → Staging → Option Str → Staging × Result Str
add_file staging_open st none = (st, err no_file)
add_file staging_open st (some f) = (record st { files = f ∷ st.files }, ok f)
add_file staging_committed st temp = (st, err already_committed)
add_file staging_aborted st temp = (st, err already_aborted)

unfoldable pub stage_file : Staging → Option Str → Staging × Result Str
unfolding add_file
stage_file st temp = add_file st.state st temp

unfoldable pub make_document :
    Unicode → (Str → Str) → NewDocument → FileInfo → Option Str → Result Document
make_document u clean d missing id = err no_file
make_document u clean d irregular id = err not_regular
make_document u clean d (regular size) none = err no_random
make_document u clean d (regular size) (some id) = ok (record {
  id = id;
  display_name = sanitize_display_name u d.display_name;
  path = clean d.path;
  size = size;
  ocr_applied = false;
})

-- The loop of `Commit` over the documents, the first of which has index `i`.
unfoldable pub make_documents :
    Unicode
    → (Str → Str)
    → List Str
    → (Str → FileInfo)
    → (ℕ → Option Str)
    → ℕ
    → List NewDocument
    → Result (List Document)
unfolding make_document
make_documents u clean files lstat new_id i [] = ok []
make_documents u clean files lstat new_id i (d ∷ ds) =
    let rest = make_documents u clean files lstat new_id (suc i) ds in
    if contains d.path files
    then elim (make_document u clean d (lstat d.path) (new_id i)) [
      | err e ↦ err e
      | ok doc ↦ elim rest [ err e ↦ err e | ok docs ↦ ok (doc ∷ docs) ]
    ]
    else err not_created

unfoldable pub make_job : Unicode → Str → ℕ → ℕ → NewJob → List Document → Job
make_job u id now ttl n docs = record {
  id = id;
  received_at = now;
  expires_at = now + ttl;
  profile = n.profile;
  caps = n.caps;
  subject = sanitize_subject u n.subject;
  recipients = n.recipients;
  documents = docs;
  status = pending;
  error = [];
}

-- `Commit` of an open staging whose documents are made.
unfoldable pub commit_job : Store → Staging → Job → Store × Staging × Result Job × List DiskOp
commit_job s st job =
    let (s', r, ops) = commit_reservation s st.id job st.dir st.files in
    elim r [
      | err e ↦ (s', st, err e, ops)
      | ok _ ↦ (s', record st { state = staging_committed }, ok job, ops)
    ]

unfoldable pub commit_documents :
    Unicode
    → Store
    → Staging
    → NewJob
    → Option Str
    → ℕ
    → Result (List Document)
    → Store × Staging × Result Job × List DiskOp
unfolding commit_job make_job
commit_documents u s st n id now (err e) = (s, st, err e, [])
commit_documents u s st n none now (ok docs) = (s, st, err no_random, [])
commit_documents u s st n (some id) now (ok docs) = commit_job s st (make_job u id now s.ttl n docs)

unfoldable pub commit_in :
    StagingState
    → Unicode
    → (Str → Str)
    → Store
    → Staging
    → NewJob
    → (Str → FileInfo)
    → (ℕ → Option Str)
    → ℕ
    → Store × Staging × Result Job × List DiskOp
unfolding commit_documents make_documents
commit_in staging_committed u clean s st n lstat new_id now = (s, st, err already_committed, [])
commit_in staging_aborted u clean s st n lstat new_id now = (s, st, err already_aborted, [])
commit_in staging_open u clean s st n lstat new_id now =
    if is_empty n.documents
    then (s, st, err no_documents, [])
    else commit_documents u s st n (new_id (length n.documents)) now
        (make_documents u clean st.files lstat new_id 0 n.documents)

unfoldable pub commit :
    Unicode
    → (Str → Str)
    → Store
    → Staging
    → NewJob
    → (Str → FileInfo)
    → (ℕ → Option Str)
    → ℕ
    → Store × Staging × Result Job × List DiskOp
unfolding commit_in
commit u clean s st n lstat new_id now = commit_in st.state u clean s st n lstat new_id now

unfoldable pub abort : Store → Staging → Store × Staging × List DiskOp
abort s st = elim st.state [
  | staging_open ↦
      (release_reservation s st.id, record st { state = staging_aborted }, remove_all st.dir ∷ [])
  | _ ↦ (s, st, [])
]
