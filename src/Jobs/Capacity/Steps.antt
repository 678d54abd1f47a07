-- ===== src/Jobs/Capacity/Steps.antt =====
-- The disk budget over the steps of the store.
use scan2graph.Prelude.{
  ℕ, ◌+◌, ◌*◌, ◌≤◌, ◌<◌, ◌≡◌, ◌≢◌, refl, Bool, true, false, List, [], ◌∷◌, Option, none, some, Str,
  arith, half,
}
use scan2graph.Prelude.Dict.{
  Dict, lookup, retain, total, total-put, total-put_new, total-delete, le-total, total-retain,
  Every-lookup,
}
use scan2graph.Jobs.Types.{
  Status, pending, evicted, Document, Job, JobRecord, Reservation, Store, FileInfo, regular,
}
use scan2graph.Jobs.Budget.{finished, doc_bytes, charge, make_room}
use scan2graph.Jobs.Budget.Held.{job_bytes, reserved_bytes, freeable_bytes, freeable-le}
use scan2graph.Jobs.Cases.{
  rewritten, Replaced, release_cases, commit_cases, set_status_cases, replace_cases, register_cases,
  delete_cases,
}
use scan2graph.Jobs.Reserve.{
  reserve_locked, release_reservation, commit_reservation, close, join_path,
}
use scan2graph.Jobs.Read.{clean_expired}
use scan2graph.Jobs.Update.{
  is_failed, with_status, settle, set_status, with_documents, replace_document, register_file,
  delete_job,
}
use scan2graph.Jobs.Invariant.{Inv, IsSound, charged}
use scan2graph.Jobs.Invariant.Reserve.{moved-Inv}
use scan2graph.Jobs.Invariant.Room.{charge-Inv}
use scan2graph.Jobs.Invariant.Sweep.{
  is_live, is_fresh, clean_expired-jobs, clean_expired-reservations, clean_expired-max_bytes,
}
use scan2graph.Jobs.Invariant.Update.{with_documents-IsSound, doc_bytes-lt}
use scan2graph.Jobs.Capacity.{IsWithin, admits_iff, make_room-IsWithin}

pub reserve_locked-IsWithin :
    (s : Store) (want : ℕ) (id : Option Str) (now : ℕ)
    → ((i : Str) → id ≡ some i → lookup i s.reservations ≡ none)
    → want ≤ s.max_bytes
    → Inv s
    → IsWithin s
    → IsWithin (reserve_locked s want id now).0
unfolding reserve_locked charged
reserve_locked-IsWithin s want none now fresh fits v w = ground arith
reserve_locked-IsWithin s want (some id) now fresh fits v w =
    let r : Reservation = record { dir = join_path s.dir id; reserved_at = now; bytes = want } in
    let le = freeable-le s.jobs in
    ground (
      arith,
      total-put_new reserved_bytes id r s.reservations (fresh id refl),
      admits_iff s want v (omega arith) (omega arith),
    )

pub release_reservation-IsWithin :
    (s : Store) (id : Str) → IsWithin s → IsWithin (release_reservation s id)
unfolding charged
release_reservation-IsWithin s id w =
    release_cases IsWithin s id w
      λ r e. ground (arith, total-delete reserved_bytes id s.reservations e)

pub commit_reservation-IsWithin :
    (s : Store) (id : Str) (job : Job) (dir : Str) (files : List Str)
    → lookup job.id s.jobs ≡ none
    → job.status ≡ pending
    → job.error ≡ []
    → Inv s
    → IsWithin s
    → IsWithin (commit_reservation s id job dir files).0
unfolding charged freeable_bytes finished
commit_reservation-IsWithin s id job dir files fresh new quiet v w =
    commit_cases IsWithin s id job dir files w λ r e c.
      let rec : JobRecord = record { job = job; dir = dir; bytes = r.bytes; files = files } in
      let gone = total-delete reserved_bytes id s.reservations e in
      let came = total-put_new job_bytes job.id rec s.jobs fresh in
      let free = total-put_new freeable_bytes job.id rec s.jobs fresh in
      let le = freeable-le s.jobs in
      make_room-IsWithin _ (moved-Inv s id r job dir files e fresh new quiet c v) w.roomy
        (ground arith) (ground arith) (ground arith)

-- A finished job is charged for `n` bytes: the sums, and that they do not wrap.
charged-IsWithin :
    (s : Store) (id : Str) (old rec : JobRecord) (n : ℕ)
    → lookup id s.jobs ≡ some old
    → rec.bytes ≡ old.bytes
    → finished rec.job.status ≡ true
    → IsSound (record rec { bytes = n })
    → n * 4 < half
    → Inv s
    → IsWithin s
    → IsWithin (make_room (charge id rec n s)).0
unfolding charge charged freeable_bytes
charged-IsWithin s id old rec n e same done sound small v w =
    let held = total-put job_bytes id (record rec { bytes = n }) s.jobs e in
    let free = total-put freeable_bytes id (record rec { bytes = n }) s.jobs e in
    let le = freeable-le s.jobs in
    let cost = le-total job_bytes id s.jobs e in
    make_room-IsWithin _ (charge-Inv id old rec n s e same sound v) w.roomy (ground arith)
      (ground arith) (ground arith)

-- A new version of a record at the same cost, which is finished if the old one was.
rewritten-IsWithin :
    (s : Store) (id : Str) (old rec : JobRecord)
    → lookup id s.jobs ≡ some old
    → rec.bytes ≡ old.bytes
    → (finished rec.job.status ≡ false → finished old.job.status ≡ false)
    → IsWithin s
    → IsWithin (rewritten s id rec)
unfolding charged freeable_bytes
rewritten-IsWithin s id old rec e same kept w =
    ground (arith, total-put job_bytes id rec s.jobs e, total-put freeable_bytes id rec s.jobs e)

pub set_status-IsWithin :
    (clean : Str → Str) (s : Store) (id : Str) (st : Status) (msg : Str) (now : ℕ)
    → st ≢ evicted
    → ((rec : JobRecord)
        → lookup id s.jobs ≡ some rec
        → (doc_bytes rec.job.documents * 4 < half)
          × (finished st ≡ false → finished rec.job.status ≡ false))
    → Inv s
    → IsWithin s
    → IsWithin (set_status clean s id st msg now).0
unfolding with_status settle finished is_failed
set_status-IsWithin clean s id st msg now live small v w =
    set_status_cases IsWithin s clean id st msg now w
      (λ rec e _ done.
        charged-IsWithin s id rec _ _ e refl done (ground (arith, doc_bytes-lt rec.job.documents))
          (small rec e).0 v w)
      (λ rec e _ busy. rewritten-IsWithin s id rec _ e refl (λ _. (small rec e).1 busy) w)

pub replace_document-IsWithin :
    (clean : Str → Str) (s : Store) (id doc_id path : Str) (ocr : Bool) (fi : FileInfo)
    → ((rec : JobRecord) (size : ℕ) (docs : List Document)
        → lookup id s.jobs ≡ some rec
        → fi ≡ regular size
        → Replaced clean rec doc_id path size ocr docs
        → doc_bytes docs * 4 < half)
    → Inv s
    → IsWithin s
    → IsWithin (replace_document clean s id doc_id path ocr fi).0
unfolding with_documents
replace_document-IsWithin clean s id doc_id path ocr fi small v w =
    replace_cases IsWithin s clean id doc_id path ocr fi w
      (λ rec size docs e i own f.
        charged-IsWithin s id rec _ _ e refl f
          (with_documents-IsSound rec docs (clean path) own.0
            (Every-lookup IsSound id s.jobs v.sound e)).0
          (small rec size docs e i own) v w)
      (λ rec size docs e _ own f. rewritten-IsWithin s id rec _ e refl (λ _. f) w)

pub register_file-IsWithin :
    (s : Store) (id file : Str) → IsWithin s → IsWithin (register_file s id file).0
register_file-IsWithin s id file w =
    register_cases IsWithin s id file w λ rec e _. rewritten-IsWithin s id rec _ e refl (λ f. f) w

pub delete_job-IsWithin : (s : Store) (id : Str) → IsWithin s → IsWithin (delete_job s id).0
unfolding charged freeable_bytes
delete_job-IsWithin s id w = delete_cases IsWithin s id w λ rec e.
    ground (arith, total-delete job_bytes id s.jobs e, total-delete freeable_bytes id s.jobs e)

-- A sweep takes no more from what could give way than from what is held.
retain_totals :
    (now : ℕ) (m : Dict JobRecord)
    → (total freeable_bytes m + total job_bytes (retain (is_live now) m)
        ≤ total job_bytes m + total freeable_bytes (retain (is_live now) m))
      × (total job_bytes (retain (is_live now) m) ≤ total job_bytes m)
unfolding total retain freeable_bytes
retain_totals now [] = omega arith
retain_totals now ((k, rec) ∷ m) = ground (arith, retain_totals now m)

pub clean_expired-IsWithin : (s : Store) (now : ℕ) → IsWithin s → IsWithin (clean_expired s now).0
unfolding charged
clean_expired-IsWithin s now w =
    let jobs = retain_totals now s.jobs in
    let reservations = total-retain reserved_bytes (is_fresh now) s.reservations in
    record {
      roomy = rw (clean_expired-max_bytes s now) w.roomy;
      promised =
          rw
            (
              clean_expired-jobs s now,
              clean_expired-reservations s now,
              clean_expired-max_bytes s now,
            )
            (omega arith);
      kept = rw (clean_expired-jobs s now, clean_expired-max_bytes s now) (omega arith);
    }

pub close-IsWithin : (s : Store) → IsWithin s → IsWithin (close s).0
unfolding close charged total
close-IsWithin s w = ground arith
