-- ===== src/Jobs/Stage/Protocol.antt =====
-- The branches of Commit: what it has found when it succeeds, and what it leaves when it fails.
use scan2graph.Prelude.{
  ◌∙◌, Unicode, ℕ, suc, ◌≡◌, refl, true, false, List, [], ◌∷◌, Option, some, none, Str, arith,
  Bool-cases, Option-cases, inl, inr, contains, length, is_empty,
}
use scan2graph.Prelude.Dict.{lookup}
use scan2graph.Jobs.Types.{
  Document, NewDocument, NewJob, Job, Reservation, Store, Staging, StagingState, staging_open,
  staging_committed, staging_aborted, Error, Result, ok, err, FileInfo, regular,
}
use scan2graph.Jobs.Budget.{make_room}
use scan2graph.Jobs.Cases.{moved}
use scan2graph.Jobs.Reserve.{commit_reservation}
use scan2graph.Jobs.Sanitize.{sanitize_display_name}
use scan2graph.Jobs.Stage.{make_documents, make_job, commit_job, commit_documents, commit_in}

-- The documents of a job against those that it was asked to have: each is a regular file that the
-- staging created, under its clean path, with its size on disk and a safe name.
abbrev pub Describes :
    Unicode → (Str → Str) → List Str → (Str → FileInfo) → List NewDocument → List Document → Type 0
Describes u clean files lstat [] [] = Unit {0}
Describes u clean files lstat (d ∷ ds) (e ∷ es) =
    ((contains d.path files ≡ true)
      × (lstat d.path ≡ regular e.size)
      × (e.path ≡ clean d.path)
      × (e.display_name ≡ sanitize_display_name u d.display_name)
      × (e.ocr_applied ≡ false))
    × Describes u clean files lstat ds es
Describes u clean files lstat _ _ = ⊥

make_documents-Describes :
    (u : Unicode) (clean : Str → Str) (files : List Str) (lstat : Str → FileInfo)
    (new_id : ℕ → Option Str) (i : ℕ) (ds : List NewDocument) {docs : List Document}
    → make_documents u clean files lstat new_id i ds ≡ ok docs
    → Describes u clean files lstat ds docs
unfolding make_documents
make_documents-Describes u clean files lstat new_id i [] {docs = []} h = tt
make_documents-Describes u clean files lstat new_id i [] {docs = e ∷ es} h = cc
make_documents-Describes u clean files lstat new_id i (d ∷ ds) {docs = []} h = ground arith
make_documents-Describes u clean files lstat new_id i (d ∷ ds) {docs = e ∷ es} h =
    (ground arith, make_documents-Describes u clean files lstat new_id (suc i) ds (ground arith))

commit_reservation_ok :
    (s : Store) (id : Str) (job : Job) (dir : Str) (files : List Str)
    → (commit_reservation s id job dir files).1 ≡ ok tt
    → (r : Reservation) × (lookup id s.reservations ≡ some r)
      × ((commit_reservation s id job dir files).0 ≡ (make_room (moved s id r job dir files)).0)
unfolding commit_reservation
commit_reservation_ok s id job dir files h = elim (Option-cases (lookup id s.reservations)) [
  | inl e ↦ absurd (ground arith)
  | inr (r, e) ↦ (r, e, ground arith)
]

commit_reservation_err :
    (s : Store) (id : Str) (job : Job) (dir : Str) (files : List Str) {x : Error}
    → (commit_reservation s id job dir files).1 ≡ err x
    → ((commit_reservation s id job dir files).0 ≡ s)
      × ((commit_reservation s id job dir files).2 ≡ [])
unfolding commit_reservation
commit_reservation_err s id job dir files h = ground arith

commit_job_err :
    (s : Store) (st : Staging) (job : Job) {x : Error}
    → (commit_job s st job).2 ≡ err x
    → ((commit_job s st job).0 ≡ s)
      × ((commit_job s st job).1 ≡ st)
      × ((commit_job s st job).3 ≡ [])
unfolding commit_job
commit_job_err s st job {x} h =
    ground (arith, commit_reservation_err s st.id job st.dir st.files {x = x})

commit_documents_err :
    (u : Unicode) (s : Store) (st : Staging) (n : NewJob) (id : Option Str) (now : ℕ)
    (docs : Result (List Document)) {x : Error}
    → let c = commit_documents u s st n id now docs in
      c.2 ≡ err x → (c.0 ≡ s) × (c.1 ≡ st) × (c.3 ≡ [])
unfolding commit_documents
commit_documents_err u s st n id now (err e) h = (refl, refl, refl)
commit_documents_err u s st n none now (ok docs) h = (refl, refl, refl)
commit_documents_err u s st n (some id) now (ok docs) h = commit_job_err s st _ h

pub commit_in_err :
    (state : StagingState) (u : Unicode) (clean : Str → Str) (s : Store) (st : Staging) (n : NewJob)
    (lstat : Str → FileInfo) (new_id : ℕ → Option Str) (now : ℕ) {x : Error}
    → let c = commit_in state u clean s st n lstat new_id now in
      c.2 ≡ err x → (c.0 ≡ s) × (c.1 ≡ st) × (c.3 ≡ [])
unfolding commit_in
commit_in_err staging_committed u clean s st n lstat new_id now h = (refl, refl, refl)
commit_in_err staging_aborted u clean s st n lstat new_id now h = (refl, refl, refl)
commit_in_err staging_open u clean s st n lstat new_id now h =
    elim (Bool-cases (is_empty n.documents)) [
      | inl e ↦ rw e (refl, refl, refl)
      | inr e ↦ rw e (commit_documents_err u s st n _ now _ (rw e at h))
    ]

-- What a Commit that succeeds has found, and what it has made of it.
abbrev pub Committed :
    Unicode
    → (Str → Str)
    → Store
    → Staging
    → NewJob
    → (Str → FileInfo)
    → Option Str
    → ℕ
    → Job
    → Store
    → Staging
    → Type 0
Committed u clean s st n lstat id now job s' st' =
    (st.state ≡ staging_open)
    × (st' ≡ record st { state = staging_committed })
    × (r : Reservation) × (lookup st.id s.reservations ≡ some r)
    × (s' ≡ (make_room (moved s st.id r job st.dir st.files)).0)
    × (id ≡ some job.id)
    × (job ≡ make_job u job.id now s.ttl n job.documents)
    × Describes u clean st.files lstat n.documents job.documents

commit_job_ok :
    (s : Store) (st : Staging) (job j : Job)
    → (commit_job s st job).2 ≡ ok j
    → (j ≡ job)
      × ((commit_job s st job).1 ≡ record st { state = staging_committed })
      × (r : Reservation) × (lookup st.id s.reservations ≡ some r)
      × ((commit_job s st job).0 ≡ (make_room (moved s st.id r job st.dir st.files)).0)
unfolding commit_job
commit_job_ok s st job j h =
    let (r, e, t) = commit_reservation_ok s st.id job st.dir st.files (ground arith) in
    (ground arith, ground arith, r, e, ground arith)

commit_documents_ok :
    (u : Unicode) (clean : Str → Str) (s : Store) (st : Staging) (n : NewJob)
    (lstat : Str → FileInfo) (id : Option Str) (now : ℕ) (docs : Result (List Document)) {job : Job}
    → ((ds : List Document) → docs ≡ ok ds → Describes u clean st.files lstat n.documents ds)
    → st.state ≡ staging_open
    → let c = commit_documents u s st n id now docs in
      c.2 ≡ ok job → Committed u clean s st n lstat id now job c.0 c.1
unfolding commit_documents make_job
commit_documents_ok u clean s st n lstat id now (err e) fits opened h = cc
commit_documents_ok u clean s st n lstat none now (ok docs) fits opened h = cc
commit_documents_ok u clean s st n lstat (some id) now (ok docs) {job} fits opened h =
    let (same, closed, r, e, t) = commit_job_ok s st (make_job u id now s.ttl n docs) job h in
    (opened, closed, r, e, t ∙ rw same, rw same, rw same, rw same (fits docs refl))

pub commit_in_ok :
    (state : StagingState) (u : Unicode) (clean : Str → Str) (s : Store) (st : Staging) (n : NewJob)
    (lstat : Str → FileInfo) (new_id : ℕ → Option Str) (now : ℕ) {job : Job}
    → st.state ≡ state
    → let c = commit_in state u clean s st n lstat new_id now in
      c.2 ≡ ok job → Committed u clean s st n lstat (new_id (length n.documents)) now job c.0 c.1
unfolding commit_in
commit_in_ok staging_committed u clean s st n lstat new_id now e h = cc
commit_in_ok staging_aborted u clean s st n lstat new_id now e h = cc
commit_in_ok staging_open u clean s st n lstat new_id now opened h =
    elim (Bool-cases (is_empty n.documents)) [
      | inl e ↦ absurd (ground arith)
      | inr e ↦ rw e (
          commit_documents_ok u clean s st n lstat _ now _
            (λ ds. make_documents-Describes u clean st.files lstat new_id 0 n.documents) opened
            (rw e at h))
    ]
