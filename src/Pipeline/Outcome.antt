-- ===== src/Pipeline/Outcome.antt =====
-- What a worker mails for a job.
use scan2graph.Prelude.{◌≡◌, ◌⊎◌, refl, Bool, true, false, List, [], ◌∷◌, ◌++◌, if◌then◌else◌}
use scan2graph.Jobs.Types.{Document, Store, Job}
use scan2graph.Jobs.Budget.{doc_bytes}
use scan2graph.Pipeline.{
  Machine, reason_ocr_failed, reason_ocr_failed_web, reason_send_failed, Delivery, sent, too_large,
  send_failed, Run, Message, scan_message, notice_message, finish, mail_and_finish,
}
use scan2graph.Pipeline.Recognized.{AreRecognized, SomeFails}

pub if_true : {A : Type 0} {b : Bool} (x y : A) → b ≡ true → (if b then x else y) ≡ x
if_true x y e = rw e refl

pub if_false : {A : Type 0} {b : Bool} (x y : A) → b ≡ false → (if b then x else y) ≡ y
if_false x y e = rw e refl

-- What follows the scan: nothing where it was sent, and else a notice with the reason.
unfoldable pub follow_up : Machine → Job → Delivery → List Message
follow_up m job sent = []
follow_up m job too_large = notice_message m job (m.too_large_reason (doc_bytes job.documents)) ∷ []
follow_up m job send_failed = notice_message m job reason_send_failed ∷ []

-- The mail of a job that has email, from the delivery on.
abbrev pub Mailed : Machine → Job → List Message → List Message → Type 0
Mailed m job before after =
    after ≡ before ++ scan_message m job ∷ follow_up m job (m.send (scan_message m job))

module _ (m : Machine) (job : Job) (r : Run) where
  silent : job.caps.email ≡ false → mail_and_finish m job r ≡ finish m job r
  unfolding mail_and_finish
  silent = if_false _ _

-- The documents that are sent: what the OCR has made of the job's, if the job has it, and else its
-- own.
abbrev pub AreSendable : Machine → Job → List Document → Type 0
AreSendable m job docs =
    ((job.caps.ocr ≡ true) × AreRecognized m 0 job.documents docs)
    ⊎ ((job.caps.ocr ≡ false) × (docs ≡ job.documents))

-- The mail that a worker adds for a job with email, which it has started in this store: the scan with
-- such documents and what follows it, or one notice if the OCR failed.
abbrev pub Informed : Machine → Job → Store → List Message → List Message → Type 0
Informed m job s before after =
    ((docs : List Document) × AreSendable m job docs
      × Mailed m (record job { documents = docs }) before after)
    ⊎ ((job.caps.ocr ≡ true)
        × SomeFails m job.id 0 job.documents s
        × (after
            ≡ before
              ++ notice_message m job
                  (if job.caps.web then reason_ocr_failed_web else reason_ocr_failed)
                ∷ []))
