-- ===== src/Pipeline/Settle.antt =====
-- In which state a worker leaves a job in the store.
use scan2graph.Prelude.{
  ℕ, suc, ◌≡◌, ◌⊎◌, refl, inl, inr, true, List, [], ◌∷◌, Option, none, some, Str, arith,
  if◌then◌else◌, Bool-cases, Option-cases, str_eq_refl,
}
use scan2graph.Prelude.Dict.{lookup, put, Unique-put, lookup-put, lookup-delete, delete-put}
use scan2graph.Jobs.Types.{
  Status, processing, ready, failed, evicted, Document, Job, JobRecord, Store, Error, Result, ok,
  err, Result-cases,
}
use scan2graph.Jobs.Budget.{finished, charge, make_room}
use scan2graph.Jobs.Invariant.{Inv}
use scan2graph.Jobs.Invariant.Update.{set_status-Inv, replace_document-Inv, register_file-Inv}
use scan2graph.Jobs.Tombstone.{make_room-Survives}
use scan2graph.Jobs.Update.{
  is_evicted, set_status, set_status_found, with_status, settle, create_file, find_writable,
  delete_job,
}
use scan2graph.Pipeline.{
  Machine, reason_ocr_failed, reason_ocr_failed_web, at_start, at_ready, at_failed, at_delete,
  at_create, in_create, at_replace, Delivery, sent, too_large, send_failed, Moment, Run, ocr_into,
  ocr_document, run_ocr, scan_message, notice, delivered, deliver, after_delivery, delete_done,
  fail, finish, mail_and_finish, recognize_and_finish, process,
}
use scan2graph.Pipeline.Outcome.{if_true, if_false}

-- Nothing is left to be done for the job: it is gone, ready, failed or a tombstone.
abbrev pub Settled : Str → Store → Type 0
Settled id s =
    (lookup id s.jobs ≡ none)
    ⊎ ((rec : JobRecord) × (lookup id s.jobs ≡ some rec)
        × ((finished rec.job.status ≡ true) ⊎ (rec.job.status ≡ evicted)))

is_evicted_lem : (st : Status) → is_evicted st ≡ true → st ≡ evicted
unfolding is_evicted
is_evicted_lem st h = ground arith

charge-Settled :
    (id : Str) (rec : JobRecord) (n : ℕ) (s : Store)
    → finished rec.job.status ≡ true
    → Inv s
    → Settled id (make_room (charge id rec n s)).0
unfolding charge scan2graph.Jobs.Budget.tombstone
charge-Settled id rec n s f v =
    let new : JobRecord = record rec { bytes = n } in
    let here : lookup id (put id new s.jobs) ≡ some new =
      ground (arith, lookup-put id id new s.jobs, str_eq_refl id) in
    elim (make_room-Survives id new (charge id rec n s) (Unique-put id new s.jobs v.unique_jobs)
      here) [ inl e ↦ inr (_, e, inl f) | inr (e, _) ↦ inr (_, e, inr refl) ]

set_status-Settled :
    (clean : Str → Str) (s : Store) (id : Str) (st : Status) (msg : Str) (now : ℕ)
    → finished st ≡ true
    → Inv s
    → Settled id (set_status clean s id st msg now).0
unfolding set_status set_status_found with_status settle
set_status-Settled clean s id st msg now f v = elim (Option-cases (lookup id s.jobs)) [
  | inl e ↦ rw (e, set_status) (inl e)
  | inr (rec, e) ↦
      rw (e, set_status)
        (elim (Bool-cases (is_evicted rec.job.status)) [
          | inl b ↦ rw (if_true _ _ b) (inr (rec, e, inr (is_evicted_lem rec.job.status b)))
          | inr b ↦ rw (if_false _ _ b, if_true _ _ f) (charge-Settled id _ _ s f v)
        ])
]

delete_job-Settled : (s : Store) (id : Str) → Inv s → Settled id (delete_job s id).0
unfolding delete_job charge
delete_job-Settled s id v = elim (Option-cases (lookup id s.jobs)) [
  | inl e ↦ rw (e, delete_job) (inl e)
  | inr (rec, e) ↦
      rw (e, delete_job, delete-put)
        (inl (ground (arith, lookup-delete id id s.jobs v.unique_jobs, str_eq_refl id)))
]

module _ (m : Machine) (keeps : (w : Moment) (s : Store) → Inv s → Inv (m.meanwhile w s)) where
  delete_done-Settled : (id : Str) (r : Run) → Inv r.store → Settled id (delete_done m id r).store
  unfolding delete_done
  delete_done-Settled id r v = delete_job-Settled _ id (keeps at_delete _ v)

  finish-Settled : (job : Job) (r : Run) → Inv r.store → Settled job.id (finish m job r).store
  unfolding finish finished
  finish-Settled job r v = elim (Bool-cases job.caps.web) [
    | inl w ↦
        rw (if_true _ _ w)
          (set_status-Settled m.clean _ job.id ready [] (m.now at_ready) refl (keeps at_ready _ v))
    | inr w ↦ rw (if_false _ _ w) (delete_done-Settled job.id r v)
  ]

  notice_if-store :
      (job : Job) (reason : Str) (r : Run)
      → (if job.caps.email then notice m job reason r else r).store ≡ r.store
  unfolding notice
  notice_if-store job reason r = ground arith

  fail-Settled :
      (job : Job) (reason : Str) (r : Run)
      → Inv r.store
      → Settled job.id (fail m job reason r).store
  unfolding fail finished
  fail-Settled job reason r v =
      let s = m.meanwhile at_failed r.store in
      let v' = keeps at_failed r.store v in
      let r' : Run = record r {
        store = (set_status m.clean s job.id failed reason (m.now at_failed)).0;
      } in
      let books = set_status-Inv m.clean s job.id failed reason (m.now at_failed) (λ e. cc) v' in
      elim (Bool-cases job.caps.web) [
        | inl w ↦
            rw (if_true _ _ w, notice_if-store job reason r')
              (set_status-Settled m.clean s job.id failed reason (m.now at_failed) refl v')
        | inr w ↦ rw (if_false _ _ w) (
            delete_done-Settled job.id (if job.caps.email then notice m job reason r' else r')
              (rw (notice_if-store job reason r') books))
      ]

  after_delivery-Settled :
      (job : Job) (r : Run) (d : Delivery)
      → Inv r.store
      → Settled job.id (after_delivery m job (delivered m job r d)).store
  unfolding after_delivery delivered notice
  after_delivery-Settled job r sent v = finish-Settled job r v
  after_delivery-Settled job r too_large v = finish-Settled job _ v
  after_delivery-Settled job r send_failed v = fail-Settled job _ r v

  mail_and_finish-Settled :
      (job : Job) (r : Run) → Inv r.store → Settled job.id (mail_and_finish m job r).store
  unfolding mail_and_finish deliver
  mail_and_finish-Settled job r v = elim (Bool-cases job.caps.email) [
    | inl e ↦ rw (if_true _ _ e) (after_delivery-Settled job _ (m.send (scan_message m job)) v)
    | inr e ↦ rw (if_false _ _ e) (finish-Settled job r v)
  ]

  create_file-Inv :
      (s : Store) (id : Str) (temp : Option Str) (w : Moment)
      → Inv s
      → Inv (create_file s id temp (m.meanwhile w)).0
  unfolding create_file
  create_file-Inv s id temp w v = elim (Option-cases (find_writable s id)) [
    | inl e ↦ rw (e, create_file) v
    | inr (rec, e) ↦ elim (Option-cases temp) [
      | inl t ↦ rw (e, t, create_file) (keeps w s v)
      | inr (f, t) ↦ rw (e, t, create_file) (register_file-Inv _ id f (keeps w s v))
    ]
  ]

  ocr_into-Inv :
      (id : Str) (i : ℕ) (d : Document) (s : Store) (made : Result Str)
      → Inv s
      → Inv (ocr_into m id i d s made).0
  unfolding ocr_into
  ocr_into-Inv id i d s (err e) v = v
  ocr_into-Inv id i d s (ok file) v = ground (
    arith,
    v,
    replace_document-Inv m.clean _ id d.id file true (m.lstat i) (keeps (at_replace i) s v),
  )

  ocr_document-Inv :
      (id : Str) (i : ℕ) (d : Document) (s : Store) → Inv s → Inv (ocr_document m id i d s).0
  unfolding ocr_document
  ocr_document-Inv id i d s v = elim (Bool-cases (m.opens d.path)) [
    | inl o ↦ rw (if_true _ _ o) (
        ocr_into-Inv id i d _ _ (
          create_file-Inv (m.meanwhile (at_create i) s) id (m.temp i) (in_create i)
            (keeps (at_create i) s v)))
    | inr o ↦ rw (if_false _ _ o) v
  ]

  run_ocr-Inv :
      (id : Str) (i : ℕ) (ds : List Document) (s : Store) → Inv s → Inv (run_ocr m id i ds s).0
  unfolding run_ocr
  run_ocr-Inv id i [] s v = v
  run_ocr-Inv id i (d ∷ ds) s v =
      ground
        (arith, ocr_document-Inv id i d s v, run_ocr-Inv id (suc i) ds (ocr_document m id i d s).0)

  recognize_and_finish-Settled :
      (job : Job) (r : Run) → Inv r.store → Settled job.id (recognize_and_finish m job r).store
  unfolding recognize_and_finish
  recognize_and_finish-Settled job r v =
      let books = run_ocr-Inv job.id 0 job.documents r.store v in
      elim (Bool-cases job.caps.ocr) [
        | inr o ↦ rw (if_false _ _ o) (mail_and_finish-Settled job r v)
        | inl o ↦ elim (Bool-cases (run_ocr m job.id 0 job.documents r.store).1) [
          | inl f ↦ rw (if_true _ _ o, if_true _ _ f) (mail_and_finish-Settled _ _ books)
          | inr f ↦
              rw (if_true _ _ o, if_false _ _ f)
                (fail-Settled job
                  (if job.caps.web then reason_ocr_failed_web else reason_ocr_failed) _ books)
        ]
      ]

-- A status that cannot be set is that of a job that is gone, or of a tombstone.
set_status_found-refused :
    (clean : Str → Str) (rec : JobRecord) (s : Store) (id : Str) (st : Status) (msg : Str) (now : ℕ)
    {e : Error}
    → lookup id s.jobs ≡ some rec
    → (set_status_found clean rec s id st msg now).1 ≡ err e
    → Settled id (set_status_found clean rec s id st msg now).0
unfolding set_status_found
set_status_found-refused clean rec s id st msg now found h =
    elim (Bool-cases (is_evicted rec.job.status)) [
      | inl b ↦ rw (if_true _ _ b) (inr (rec, found, inr (is_evicted_lem rec.job.status b)))
      | inr b ↦ absurd (ground arith)
    ]

set_status-refused :
    (clean : Str → Str) (s : Store) (id : Str) (st : Status) (msg : Str) (now : ℕ) {e : Error}
    → (set_status clean s id st msg now).1 ≡ err e
    → Settled id (set_status clean s id st msg now).0
unfolding set_status
set_status-refused clean s id st msg now h = elim (Option-cases (lookup id s.jobs)) [
  | inl e ↦ rw (e, set_status) (inl e)
  | inr (rec, e) ↦
      rw (e, set_status)
        (set_status_found-refused clean rec s id st msg now e (rw (e, set_status) at h))
]

-- When a worker is done with a job, the job is not left pending or processing: it is no longer in
-- the store, or it is ready, failed or a tombstone. This holds whatever the disk, the OCR service
-- and the mailer answer, and whatever the other goroutines do in between, as long as they keep the
-- store's books.
pub process_settles :
    (m : Machine) (job : Job) (r : Run)
    → ((w : Moment) (s : Store) → Inv s → Inv (m.meanwhile w s))
    → Inv r.store
    → Settled job.id (process m job r).store
unfolding process
process_settles m job r keeps v =
    let s = m.meanwhile at_start r.store in
    let books =
      set_status-Inv m.clean s job.id processing [] (m.now at_start) (λ e. cc)
        (keeps at_start r.store v) in
    elim (Result-cases (set_status m.clean s job.id processing [] (m.now at_start)).1) [
      | inl (_, e) ↦ rw (e, process) (recognize_and_finish-Settled m keeps job _ books)
      | inr (x, e) ↦
          rw (e, process) (set_status-refused m.clean s job.id processing [] (m.now at_start) e)
    ]
