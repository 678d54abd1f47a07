-- ===== src/Jobs/Invariant/Update.antt =====
-- SetStatus, ReplaceDocument, CreateFile and Delete keep the invariant.
use scan2graph.Prelude.{
  ℕ, ◌<◌, ◌≡◌, refl, Bool, true, false, [], ◌∷◌, some, Str, List, modulus, arith, add64, settle-mod,
  ◌≢◌, contains, add64-lt,
}
use scan2graph.Prelude.Dict.{
  lookup, Every-lookup, Every-put, Every-delete, Unique-put, Unique-delete, total-put, total-delete,
  lookup-ne-nil,
}
use scan2graph.Jobs.Types.{Status, evicted, Document, JobRecord, Store, FileInfo}
use scan2graph.Jobs.Cases.{
  rewritten, dropped, set_status_cases, replace_cases, register_cases, delete_cases,
}
use scan2graph.Jobs.Budget.{finished, add_doc_bytes, doc_bytes}
use scan2graph.Jobs.Update.{
  is_evicted, is_failed, with_status, settle, set_status, with_documents, replace_document,
  register_file, delete_job,
}
use scan2graph.Jobs.Invariant.{Inv, IsSound, charged}
use scan2graph.Jobs.Budget.Held.{job_bytes}
use scan2graph.Jobs.Invariant.Room.{charge-Inv, make_room-Inv}

add_doc_bytes-lt : (n : ℕ) (docs : List Document) → n < modulus → add_doc_bytes n docs < modulus
unfolding add_doc_bytes
add_doc_bytes-lt n [] h = h
add_doc_bytes-lt n (d ∷ ds) h = add_doc_bytes-lt (add64 n d.size) ds (add64-lt n d.size)

pub doc_bytes-lt : (docs : List Document) → doc_bytes docs < modulus
unfolding doc_bytes
doc_bytes-lt docs = add_doc_bytes-lt 0 docs (omega arith)

-- A new version of a record, at the same cost.
pub rewritten-Inv :
    (k : Str) (old rec : JobRecord) (s : Store)
    → lookup k s.jobs ≡ some old
    → rec.bytes ≡ old.bytes
    → IsSound rec
    → Inv s
    → Inv (rewritten s k rec)
unfolding charged
rewritten-Inv k old rec s found same sound v = record {
  accounted = ground (arith, total-put job_bytes k rec s.jobs found);
  sound = Every-put IsSound k rec s.jobs sound v.sound;
  words = v.words;
  unique_jobs = Unique-put k rec s.jobs v.unique_jobs;
  unique_reservations = v.unique_reservations;
  emptied = λ c. absurd (lookup-ne-nil k s.jobs found (v.emptied c).0);
}

pub set_status-Inv :
    (clean : Str → Str) (s : Store) (id : Str) (st : Status) (msg : Str) (now : ℕ)
    → st ≢ evicted
    → Inv s
    → Inv (set_status clean s id st msg now).0
unfolding with_status settle finished is_failed
set_status-Inv clean s id st msg now live v =
    set_status_cases Inv s clean id st msg now v
      (λ rec e _ _.
        make_room-Inv _
          (charge-Inv id rec _ _ s e refl (ground (arith, doc_bytes-lt rec.job.documents)) v))
      (λ rec e _ busy.
        rewritten-Inv id rec _ s e refl (ground (arith, Every-lookup IsSound id s.jobs v.sound e))
          v)

pub with_documents-IsSound :
    (rec : JobRecord) (docs : List Document) (path : Str)
    → contains path rec.files ≡ true
    → IsSound rec
    → IsSound (record (with_documents rec docs) { bytes = doc_bytes docs })
      × (finished rec.job.status ≡ false → IsSound (with_documents rec docs))
unfolding with_documents contains
with_documents-IsSound rec docs path own sound = ground (arith, doc_bytes-lt docs)

pub replace_document-Inv :
    (clean : Str → Str) (s : Store) (id doc_id path : Str) (ocr : Bool) (fi : FileInfo)
    → Inv s
    → Inv (replace_document clean s id doc_id path ocr fi).0
unfolding with_documents
replace_document-Inv clean s id doc_id path ocr fi v =
    replace_cases Inv s clean id doc_id path ocr fi v
      (λ rec size docs e _ own f. make_room-Inv _ (
        charge-Inv id rec _ _ s e refl
          (with_documents-IsSound rec docs (clean path) own.0
            (Every-lookup IsSound id s.jobs v.sound e)).0
          v))
      (λ rec size docs e _ own f.
        rewritten-Inv id rec _ s e refl
          ((with_documents-IsSound rec docs (clean path) own.0
              (Every-lookup IsSound id s.jobs v.sound e)).1
            f)
          v)

pub register_file-Inv : (s : Store) (id file : Str) → Inv s → Inv (register_file s id file).0
unfolding is_evicted
register_file-Inv s id file v = register_cases Inv s id file v λ rec e live.
    rewritten-Inv id rec _ s e refl (ground (arith, Every-lookup IsSound id s.jobs v.sound e)) v

-- A job that is dropped gives its charge back.
pub dropped-Inv :
    (k : Str) (rec : JobRecord) (s : Store)
    → lookup k s.jobs ≡ some rec
    → Inv s
    → Inv (dropped s k rec)
unfolding charged
dropped-Inv k rec s found v = record {
  accounted = ground (
    arith,
    settle-mod (charged s) rec.bytes 0,
    total-delete job_bytes k s.jobs found,
    Every-lookup IsSound k s.jobs v.sound found,
  );
  sound = Every-delete IsSound k s.jobs v.sound;
  words = v.words;
  unique_jobs = Unique-delete k s.jobs v.unique_jobs;
  unique_reservations = v.unique_reservations;
  emptied = λ c. absurd (lookup-ne-nil k s.jobs found (v.emptied c).0);
}

pub delete_job-Inv : (s : Store) (id : Str) → Inv s → Inv (delete_job s id).0
delete_job-Inv s id v = delete_cases Inv s id v λ rec e. dropped-Inv id rec s e v
