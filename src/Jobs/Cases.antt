-- ===== src/Jobs/Cases.antt =====
-- The branches of the store's methods: what holds of the store in each of them holds afterwards.
use scan2graph.Prelude.{
  ℕ, ◌+◌, ◌≡◌, Bool, true, false, List, ◌∷◌, refl, some, Str, add64, sub64, Bool-cases,
  Option-cases, inl, inr, contains,
}
use scan2graph.Prelude.Dict.{lookup, put, delete, delete-put}
use scan2graph.Jobs.Types.{
  Status, Document, Job, JobRecord, Reservation, Store, FileInfo, missing, irregular, regular,
}
use scan2graph.Jobs.Budget.{finished, doc_bytes, charge, make_room}
use scan2graph.Jobs.Reserve.{release_reservation, commit_reservation}
use scan2graph.Jobs.Update.{
  is_evicted, with_status, settle, set_status_found, set_status, with_documents, replace_in,
  replace_at, replace_found, replace_document, find_writable, register_file, delete_job,
}

-- A reservation released; turned into a job, before room is made; a job entered anew; dropped.
abbrev pub released : Store → Str → Reservation → Store
released s id r = record s { used = sub64 s.used r.bytes; reservations = delete id s.reservations }

abbrev pub moved : Store → Str → Reservation → Job → Str → List Str → Store
moved s id r job dir files = record s {
  reservations = delete id s.reservations;
  jobs = put job.id (record { job = job; dir = dir; bytes = r.bytes; files = files }) s.jobs;
}

abbrev pub rewritten : Store → Str → JobRecord → Store
rewritten s id rec = record s { jobs = put id rec s.jobs }

abbrev pub dropped : Store → Str → JobRecord → Store
dropped s id rec = record s { used = add64 s.used (sub64 0 rec.bytes); jobs = delete id s.jobs }

-- What the record of a job becomes, if the document and the file are the job's.
abbrev pub Replaced : (Str → Str) → JobRecord → Str → Str → ℕ → Bool → List Document → Type 0
Replaced clean rec doc_id path size ocr docs =
    (contains (clean path) rec.files ≡ true)
    × ((old : Str) × (replace_in doc_id (clean path) size ocr rec.job.documents ≡ some (old, docs)))

module _ (P : Store → Type 0) (s : Store) where
  pub release_cases :
      (id : Str)
      → P s
      → ((r : Reservation) → lookup id s.reservations ≡ some r → P (released s id r))
      → P (release_reservation s id)
  unfolding release_reservation
  release_cases id p found = elim (Option-cases (lookup id s.reservations)) [
    | inl e ↦ rw (e, release_reservation) p
    | inr (r, e) ↦ rw (e, release_reservation) (found r e)
  ]

  pub commit_cases :
      (id : Str) (job : Job) (dir : Str) (files : List Str)
      → P s
      → ((r : Reservation)
          → lookup id s.reservations ≡ some r
          → s.closed ≡ false
          → P (make_room (moved s id r job dir files)).0)
      → P (commit_reservation s id job dir files).0
  unfolding commit_reservation
  commit_cases id job dir files p found = elim (Bool-cases s.closed) [
    | inl c ↦ simp (c, commit_reservation) p
    | inr c ↦
        simp (c, commit_reservation)
          (elim (Option-cases (lookup id s.reservations)) [
            | inl e ↦ rw (e, commit_reservation) p
            | inr (r, e) ↦ rw (e, commit_reservation) (found r e c)
          ])
  ]

  set_status_found_cases :
      (clean : Str → Str) (rec : JobRecord) (id : Str) (st : Status) (msg : Str) (now : ℕ)
      → P s
      → (is_evicted rec.job.status ≡ false
          → finished st ≡ true
          → P
              (make_room (
                charge id
                  (settle clean (now + s.ttl) (with_status rec st msg))
                  (doc_bytes rec.job.documents)
                  s)).0)
      → (is_evicted rec.job.status ≡ false
          → finished st ≡ false
          → P (rewritten s id (with_status rec st msg)))
      → P (set_status_found clean rec s id st msg now).0
  unfolding set_status_found with_status
  set_status_found_cases clean rec id st msg now p done busy =
      elim (Bool-cases (is_evicted rec.job.status)) [
        | inl b ↦ rw (b, set_status_found) p
        | inr b ↦
            rw (b, set_status_found)
              (elim (Bool-cases (finished st)) [
                | inl f ↦ rw (f, set_status_found) (done b f)
                | inr f ↦ rw (f, set_status_found) (busy b f)
              ])
      ]

  pub set_status_cases :
      (clean : Str → Str) (id : Str) (st : Status) (msg : Str) (now : ℕ)
      → P s
      → ((rec : JobRecord)
          → lookup id s.jobs ≡ some rec
          → is_evicted rec.job.status ≡ false
          → finished st ≡ true
          → P
              (make_room (
                charge id
                  (settle clean (now + s.ttl) (with_status rec st msg))
                  (doc_bytes rec.job.documents)
                  s)).0)
      → ((rec : JobRecord)
          → lookup id s.jobs ≡ some rec
          → is_evicted rec.job.status ≡ false
          → finished st ≡ false
          → P (rewritten s id (with_status rec st msg)))
      → P (set_status clean s id st msg now).0
  unfolding set_status
  set_status_cases clean id st msg now p done busy = elim (Option-cases (lookup id s.jobs)) [
    | inl e ↦ rw (e, set_status) p
    | inr (rec, e) ↦
        rw (e, set_status)
          (set_status_found_cases clean rec id st msg now p (done rec e) (busy rec e))
  ]

  replace_at_cases :
      (rec : JobRecord) (id path old : Str) (docs : List Document)
      → (finished rec.job.status ≡ true
          → P (make_room (charge id (with_documents rec docs) (doc_bytes docs) s)).0)
      → (finished rec.job.status ≡ false → P (rewritten s id (with_documents rec docs)))
      → P (replace_at rec s id path (old, docs)).0
  unfolding replace_at
  replace_at_cases rec id path old docs done busy = elim (Bool-cases (finished rec.job.status)) [
    | inl f ↦ rw (f, replace_at) (done f)
    | inr f ↦ rw (f, replace_at) (busy f)
  ]

  pub replace_cases :
      (clean : Str → Str) (id doc_id path : Str) (ocr : Bool) (fi : FileInfo)
      → P s
      → ((rec : JobRecord) (size : ℕ) (docs : List Document)
          → lookup id s.jobs ≡ some rec
          → fi ≡ regular size
          → Replaced clean rec doc_id path size ocr docs
          → finished rec.job.status ≡ true
          → P (make_room (charge id (with_documents rec docs) (doc_bytes docs) s)).0)
      → ((rec : JobRecord) (size : ℕ) (docs : List Document)
          → lookup id s.jobs ≡ some rec
          → fi ≡ regular size
          → Replaced clean rec doc_id path size ocr docs
          → finished rec.job.status ≡ false
          → P (rewritten s id (with_documents rec docs)))
      → P (replace_document clean s id doc_id path ocr fi).0
  unfolding replace_document replace_found
  replace_cases clean id doc_id path ocr missing p done busy = p
  replace_cases clean id doc_id path ocr irregular p done busy = p
  replace_cases clean id doc_id path ocr (regular size) p done busy =
      elim (Option-cases (lookup id s.jobs)) [
        | inl e ↦ rw (e, replace_document) p
        | inr (rec, e) ↦
            rw (e, replace_document)
              (elim (Bool-cases (contains (clean path) rec.files)) [
                | inr c ↦ rw (c, replace_found) p
                | inl c ↦
                    rw (c, replace_found)
                      (elim (Option-cases
                        (replace_in doc_id (clean path) size ocr rec.job.documents)) [
                          | inl n ↦ rw (n, replace_found) p
                          | inr ((old, docs), n) ↦
                              rw (n, replace_found)
                                (replace_at_cases rec id (clean path) old docs
                                  (done rec size docs e refl (c, (old, n)))
                                  (busy rec size docs e refl (c, (old, n))))
                        ])
              ])
      ]

  pub register_cases :
      (id file : Str)
      → P s
      → ((rec : JobRecord)
          → lookup id s.jobs ≡ some rec
          → is_evicted rec.job.status ≡ false
          → P (rewritten s id (record rec { files = file ∷ rec.files })))
      → P (register_file s id file).0
  unfolding register_file find_writable
  register_cases id file p found = elim (Option-cases (lookup id s.jobs)) [
    | inl e ↦ rw (e, register_file) p
    | inr (rec, e) ↦
        rw (e, register_file)
          (elim (Bool-cases (is_evicted rec.job.status)) [
            | inl b ↦ rw (b, register_file) p
            | inr b ↦ rw (b, register_file) (found rec e b)
          ])
  ]

  pub delete_cases :
      (id : Str)
      → P s
      → ((rec : JobRecord) → lookup id s.jobs ≡ some rec → P (dropped s id rec))
      → P (delete_job s id).0
  unfolding delete_job charge
  delete_cases id p found = elim (Option-cases (lookup id s.jobs)) [
    | inl e ↦ rw (e, delete_job) p
    | inr (rec, e) ↦ rw (e, delete_job, delete-put) (found rec e)
  ]
