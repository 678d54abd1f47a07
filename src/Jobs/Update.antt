-- ===== src/Jobs/Update.antt =====
-- internal/jobs/store.go: what the pipeline does to a committed job.
-- `clean` is `filepath.Clean`.
use scan2graph.Prelude.{
  ℕ, ◌+◌, ◌++◌, Bool, true, false, not, List, [], ◌∷◌, Option, none, some, Str, str_eq, map,
  if◌then◌else◌, contains, filter_by,
}
use scan2graph.Prelude.Dict.{lookup, put, delete}
use scan2graph.Jobs.Types.{
  Status, failed, evicted, Document, JobRecord, Store, not_found, no_file, not_regular, not_created,
  Result, ok, err, DiskOp, remove_all, remove_file, FileInfo, missing, irregular, regular,
}
use scan2graph.Jobs.Budget.{finished, doc_bytes, charge, make_room}
use scan2graph.Jobs.Reserve.{drop_evicted}

unfoldable pub is_evicted : Status → Bool
is_evicted evicted = true
is_evicted _ = false

unfoldable pub is_failed : Status → Bool
is_failed failed = true
is_failed _ = false

unfoldable pub doc_paths : (Str → Str) → List Document → List Str
doc_paths clean docs = map (λ d. clean d.path) docs

-- The status and the error text, before the TTL starts.
unfoldable pub with_status : JobRecord → Status → Str → JobRecord
unfolding is_failed
with_status rec st msg = record rec {
  job = record rec.job { status = st; error = if is_failed st then msg else [] };
}

-- A job that has reached a final state: its deadline, and the files that a document still names.
unfoldable pub settle : (Str → Str) → ℕ → JobRecord → JobRecord
unfolding doc_paths
settle clean deadline rec = record rec {
  job = record rec.job { expires_at = deadline };
  files = filter_by (λ (f : Str). contains (clean f) (doc_paths clean rec.job.documents)) rec.files;
}

unfoldable pub leftovers : (Str → Str) → JobRecord → List Str
unfolding doc_paths
leftovers clean rec =
    filter_by (λ (f : Str). not (contains (clean f) (doc_paths clean rec.job.documents))) rec.files

unfoldable pub set_status_found :
    (Str → Str)
    → JobRecord
    → Store
    → Str
    → Status
    → Str
    → ℕ
    → Store × Result (Unit {0}) × List DiskOp
unfolding with_status settle leftovers finished is_evicted
set_status_found clean rec s id st msg now =
    let rec' = with_status rec st msg in
    if is_evicted rec.job.status
    then (s, err not_found, [])
    else if finished st
    then (let (s', gone) =
          make_room
            (charge id (settle clean (now + s.ttl) rec') (doc_bytes rec'.job.documents) s) in
        (s', ok tt, drop_evicted gone ++ map remove_file (leftovers clean rec')))
    else (record s { jobs = put id rec' s.jobs }, ok tt, [])

unfoldable pub set_status :
    (Str → Str) → Store → Str → Status → Str → ℕ → Store × Result (Unit {0}) × List DiskOp
unfolding set_status_found
set_status clean s id st msg now = elim (lookup id s.jobs) [
  | none ↦ (s, err not_found, [])
  | some rec ↦ set_status_found clean rec s id st msg now
]

-- The document with this id rewritten, and the path that it had.
unfoldable pub replace_in : Str → Str → ℕ → Bool → List Document → Option (Str × List Document)
replace_in id path size ocr [] = none
replace_in id path size ocr (d ∷ ds) =
    let rest = replace_in id path size ocr ds in
    if str_eq d.id id
    then some (d.path, record d { path = path; size = size; ocr_applied = ocr } ∷ ds)
    else elim rest [ none ↦ none | some (old, ds') ↦ some (old, d ∷ ds') ]

unfoldable pub with_documents : JobRecord → List Document → JobRecord
with_documents rec docs = record rec { job = record rec.job { documents = docs } }

-- The part of `ReplaceDocument` behind the checks.
unfoldable pub replace_at :
    JobRecord → Store → Str → Str → Str × List Document → Store × Result (Unit {0}) × List DiskOp
unfolding with_documents
replace_at rec s job_id path (old, docs) =
    let rec' = with_documents rec docs in
    let (s', gone) =
      if finished rec.job.status
      then make_room (charge job_id rec' (doc_bytes docs) s)
      else (record s { jobs = put job_id rec' s.jobs }, []) in
    (s', ok tt, drop_evicted gone ++ (if str_eq old path then [] else remove_file old ∷ []))

unfoldable pub replace_found :
    (Str → Str)
    → JobRecord
    → Store
    → Str
    → Str
    → Str
    → ℕ
    → Bool
    → Store × Result (Unit {0}) × List DiskOp
unfolding replace_at replace_in
replace_found clean rec s job_id doc_id path size ocr =
    if contains (clean path) rec.files
    then elim (replace_in doc_id (clean path) size ocr rec.job.documents) [
      | none ↦ (s, err not_found, [])
      | some r ↦ replace_at rec s job_id (clean path) r
    ]
    else (s, err not_created, [])

unfoldable pub replace_document :
    (Str → Str)
    → Store
    → Str
    → Str
    → Str
    → Bool
    → FileInfo
    → Store × Result (Unit {0}) × List DiskOp
unfolding replace_found
replace_document clean s job_id doc_id path ocr missing = (s, err no_file, [])
replace_document clean s job_id doc_id path ocr irregular = (s, err not_regular, [])
replace_document clean s job_id doc_id path ocr (regular size) = elim (lookup job_id s.jobs) [
  | none ↦ (s, err not_found, [])
  | some rec ↦ replace_found clean rec s job_id doc_id path size ocr
]

-- The record under an id, unless it is a tombstone.
unfoldable pub find_writable : Store → Str → Option JobRecord
unfolding is_evicted
find_writable s id = elim (lookup id s.jobs) [
  | none ↦ none
  | some rec ↦ if is_evicted rec.job.status then none else some rec
]

-- The second critical section of `CreateFile`: the new file is entered, or removed again.
unfoldable pub register_file : Store → Str → Str → Store × Result Str × List DiskOp
unfolding find_writable
register_file s id file = elim (find_writable s id) [
  | none ↦ (s, err not_found, remove_file file ∷ [])
  | some rec ↦
      (record s { jobs = put id (record rec { files = file ∷ rec.files }) s.jobs }, ok file, [])
]

unfoldable pub create_file :
    Store → Str → Option Str → (Store → Store) → Store × Result Str × List DiskOp
unfolding find_writable register_file
create_file s id temp meanwhile = elim (find_writable s id) [
  | none ↦ (s, err not_found, [])
  | some rec ↦ elim temp [
    | none ↦ (meanwhile s, err no_file, [])
    | some file ↦ register_file (meanwhile s) id file
  ]
]

unfoldable pub delete_job : Store → Str → Store × Result (Unit {0}) × List DiskOp
delete_job s id = elim (lookup id s.jobs) [
  | none ↦ (s, err not_found, [])
  | some rec ↦
      let s' = charge id rec 0 s in
      (record s' { jobs = delete id s'.jobs }, ok tt, remove_all rec.dir ∷ [])
]
