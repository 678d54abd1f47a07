-- ===== src/Pipeline.antt =====
-- internal/pipeline/pipeline.go: the worker that takes a job to its final state, and the queue.
-- What the disk, the OCR service and the mailer answer is in the record Machine, and so is what the
-- other goroutines do to the store before each of the worker's critical sections.
pub mod Recognized
pub mod Outcome
pub mod Settle
pub mod Examples
use scan2graph.Prelude.{
  ℕ, suc, ◌*◌, ◌++◌, Bool, true, false, not, ◌&&◌, List, [], ◌∷◌, Option, none, some, Str, codes,
  map, ltb, length, is_empty, if◌then◌else◌,
}
use scan2graph.Jobs.Types.{
  processing, ready, failed, Document, Job, Store, Result, ok, err, FileInfo,
}
use scan2graph.Jobs.Budget.{doc_bytes}
use scan2graph.Jobs.Update.{set_status, replace_document, create_file, delete_job}

abbrev pub queue_per_worker : ℕ
queue_per_worker = 8

abbrev pub reason_ocr_failed : Str
reason_ocr_failed = codes "Text recognition failed, so the scan was not delivered."

abbrev pub reason_ocr_failed_web : Str
reason_ocr_failed_web = codes "Text recognition failed, so the scan could not be made searchable."

abbrev pub reason_send_failed : Str
reason_send_failed = codes "The scan could not be sent by email."

-- A message to the mailer: `attachments` are names and paths.
pub record Message : Type 0 where
  pub recipients : List Str
  pub subject : Str
  pub body : Str
  pub attachments : List (Str × Str)

pub data Delivery : Type 0 where
  sent too_large send_failed : Delivery

-- The critical sections of the worker; those of the OCR bear the document's index. `in_create` is
-- between the two of CreateFile.
pub data Moment : Type 0 where
  at_start at_ready at_failed at_delete : Moment
  at_create in_create at_replace : ℕ → Moment

-- `opens` is os.Open, `temp` the file that the disk makes, `recognizes` whether SearchablePDF and
-- Close succeed, `lstat` and `stat` what the disk says of the file that was written; `day` and
-- `too_large_reason` print a date and the notice on sizes.
pub record Machine : Type 0 where
  pub base_url : Str
  pub clean : Str → Str
  pub now : Moment → ℕ
  pub meanwhile : Moment → Store → Store
  pub opens : Str → Bool
  pub temp : ℕ → Option Str
  pub recognizes : ℕ → Bool
  pub lstat : ℕ → FileInfo
  pub stat : ℕ → Option ℕ
  pub send : Message → Delivery
  pub day : ℕ → Str
  pub too_large_reason : ℕ → Str

-- The store, and the messages that the mailer was asked to send, the oldest first.
pub record Run : Type 0 where
  pub store : Store
  pub mail : List Message

-- The channel holds at most `workers * queue_per_worker` jobs.
unfoldable pub enqueue : ℕ → List Job → Job → List Job × Bool
enqueue workers queue job =
    if ltb (length queue) (workers * queue_per_worker)
    then (queue ++ job ∷ [], true)
    else (queue, false)

-- The document when ReplaceDocument has answered, and `os.Stat`.
unfoldable pub recognized : Document → Str → Result (Unit {0}) → Option ℕ → Option Document
recognized d file (ok _) (some n) = some (record d { path = file; size = n; ocr_applied = true })
recognized d file _ _ = none

-- The rest of a round, by what CreateFile has answered.
unfoldable pub ocr_into :
    Machine → Str → ℕ → Document → Store → Result Str → Store × Option Document
unfolding recognized
ocr_into m id i d s (err e) = (s, none)
ocr_into m id i d s (ok file) =
    let (s', replaced, _) =
      replace_document m.clean (m.meanwhile (at_replace i) s) id d.id file true (m.lstat i) in
    if m.recognizes i then (s', recognized d file replaced (m.stat i)) else (s, none)

-- One round of the loop of `runOCR`: the document as it is now, if nothing failed.
unfoldable pub ocr_document : Machine → Str → ℕ → Document → Store → Store × Option Document
unfolding ocr_into
ocr_document m id i d s =
    let (s', made, _) =
      create_file (m.meanwhile (at_create i) s) id (m.temp i) (m.meanwhile (in_create i)) in
    if m.opens d.path then ocr_into m id i d s' made else (s, none)

-- `runOCR` over the documents, the first of which has index `i`: whether all went well, and the
-- documents as they are then.
unfoldable pub run_ocr : Machine → Str → ℕ → List Document → Store → Store × Bool × List Document
unfolding ocr_document
run_ocr m id i [] s = (s, true, [])
run_ocr m id i (d ∷ ds) s =
    let (s', found) = ocr_document m id i d s in
    let (s'', fine, ds') = run_ocr m id (suc i) ds s' in
    elim found [ none ↦ (s', false, d ∷ ds) | some d' ↦ (s'', fine, d' ∷ ds') ]

unfoldable pub scan_message : Machine → Job → Message
scan_message m job = record {
  recipients = job.recipients;
  subject = if is_empty job.subject then codes "Scan " ++ m.day job.received_at else job.subject;
  body = codes "Your scan is attached.";
  attachments = map (λ (d : Document). (d.display_name, d.path)) job.documents;
}

-- A line feed, and the text of a notice.
abbrev pub newline : Str
newline = 10 ∷ []

unfoldable pub notice_body : Machine → Job → Str → Str
notice_body m job reason =
    reason
    ++ newline
    ++ newline
    ++ (if job.caps.web && not (is_empty m.base_url)
        then codes "You can download the scan here until it expires:"
          ++ newline
          ++ m.base_url
          ++ codes "/scan/"
          ++ job.id
          ++ newline
        else codes "Try scanning fewer pages or at a lower resolution, "
          ++ codes "or ask your administrator to enable web downloads."
          ++ newline)

unfoldable pub notice_message : Machine → Job → Str → Message
unfolding notice_body
notice_message m job reason = record {
  recipients = job.recipients;
  subject =
      if is_empty job.subject
      then codes "Scan not delivered"
      else codes "Scan not delivered" ++ codes ": " ++ job.subject;
  body = notice_body m job reason;
  attachments = [];
}

-- What the mailer answers to a notice is only logged.
unfoldable pub notice : Machine → Job → Str → Run → Run
notice m job reason r = record r { mail = r.mail ++ notice_message m job reason ∷ [] }

-- The end of `deliver`, by what the mailer answers: a scan that is too large counts as delivered.
unfoldable pub delivered : Machine → Job → Run → Delivery → Run × Bool
unfolding notice
delivered m job r sent = (r, true)
delivered m job r too_large = (notice m job (m.too_large_reason (doc_bytes job.documents)) r, true)
delivered m job r send_failed = (r, false)

unfoldable pub deliver : Machine → Job → Run → Run × Bool
unfolding delivered
deliver m job r =
    delivered m job (record r { mail = r.mail ++ scan_message m job ∷ [] })
      (m.send (scan_message m job))

unfoldable pub delete_done : Machine → Str → Run → Run
delete_done m id r = record r { store = (delete_job (m.meanwhile at_delete r.store) id).0 }

unfoldable pub fail : Machine → Job → Str → Run → Run
unfolding notice delete_done
fail m job reason r =
    let store =
      (set_status m.clean (m.meanwhile at_failed r.store) job.id failed reason
        (m.now at_failed)).0 in
    let r' : Run = record r { store = store } in
    let told = if job.caps.email then notice m job reason r' else r' in
    if job.caps.web then told else delete_done m job.id told

-- The end of `process`: ready for the web, or deleted.
unfoldable pub finish : Machine → Job → Run → Run
unfolding delete_done
finish m job r =
    if job.caps.web
    then record r {
      store =
          (set_status m.clean (m.meanwhile at_ready r.store) job.id ready [] (m.now at_ready)).0;
    }
    else delete_done m job.id r

-- `process` behind the delivery, and from the email on.
unfoldable pub after_delivery : Machine → Job → Run × Bool → Run
unfolding fail finish
after_delivery m job (r, fine) = if fine then finish m job r else fail m job reason_send_failed r

unfoldable pub mail_and_finish : Machine → Job → Run → Run
unfolding deliver after_delivery
mail_and_finish m job r =
    if job.caps.email then after_delivery m job (deliver m job r) else finish m job r

-- `process` from the OCR on.
unfoldable pub recognize_and_finish : Machine → Job → Run → Run
unfolding run_ocr mail_and_finish fail
recognize_and_finish m job r =
    if job.caps.ocr
    then (let (store, fine, docs) = run_ocr m job.id 0 job.documents r.store in
        let r' : Run = record r { store = store } in
        if fine
        then mail_and_finish m (record job { documents = docs }) r'
        else fail m job (if job.caps.web then reason_ocr_failed_web else reason_ocr_failed) r')
    else mail_and_finish m job r

unfoldable pub process : Machine → Job → Run → Run
unfolding recognize_and_finish
process m job r =
    let (store, started, _) =
      set_status m.clean (m.meanwhile at_start r.store) job.id processing [] (m.now at_start) in
    let r' : Run = record r { store = store } in
    elim started [ err e ↦ r' | ok _ ↦ recognize_and_finish m job r' ]
