-- ===== src/Smtp/Session.antt =====
-- internal/smtpin/session.go: the session's state and its commands.
-- A Staging is an object that Data and Reset share, so the world keeps the stagings by their ids
-- and the session and a running Data hold an id. Data holds the lock twice, and is two
-- steps: `data_begin` and `data_end`. What runs between them are other commands.
pub mod Transaction
pub mod Reset
pub mod Recipients
use scan2graph.Prelude.{
  ℕ, ◌+◌, ◌%◌, Bool, true, false, not, ◌&&◌, ◌||◌, List, [], ◌∷◌, ◌++◌, Option, none, some, Str,
  codes, map, ◌==◌, modulus, if◌then◌else◌, is_empty, contains, Unicode,
}
use scan2graph.Prelude.Dict.{Dict, lookup, put}
use scan2graph.Jobs.Types.{
  Capabilities, NewDocument, NewJob, Job, Store, Staging, Result, ok, err, FileInfo,
}
use scan2graph.Jobs.Reserve.{reserve}
use scan2graph.Jobs.Stage.{commit, abort}
use scan2graph.Jobs.Update.{delete_job}
use scan2graph.Config.Types.{Config}
use scan2graph.Config.Address.{normalize_address, profile, recipient_allowed}

pub record SmtpError : Type 0 where
  pub code : ℕ
  pub enhanced : List ℕ
  pub message : Str

-- `nil`, one of go-smtp's own errors, or an SMTPError.
pub data Reply : Type 0 where
  accepted auth_required auth_failed : Reply
  rejected : SmtpError → Reply

abbrev pub unknown_sender : SmtpError
unknown_sender = record {
  code = 550;
  enhanced = 5 ∷ 7 ∷ 1 ∷ [];
  message = codes "sender not recognized";
}

abbrev pub bad_recipient : SmtpError
bad_recipient = record {
  code = 550;
  enhanced = 5 ∷ 7 ∷ 1 ∷ [];
  message = codes "recipient not accepted";
}

abbrev pub no_pdf : SmtpError
no_pdf = record {
  code = 550;
  enhanced = 5 ∷ 6 ∷ 0 ∷ [];
  message = codes "message carries no usable PDF attachment";
}

abbrev pub too_complex : SmtpError
too_complex = record {
  code = 552;
  enhanced = 5 ∷ 3 ∷ 4 ∷ [];
  message = codes "message exceeds structural limits";
}

abbrev pub no_capacity : SmtpError
no_capacity = record {
  code = 451;
  enhanced = 4 ∷ 3 ∷ 1 ∷ [];
  message = codes "no capacity for another job, please retry later";
}

abbrev pub aborted : SmtpError
aborted = record {
  code = 451;
  enhanced = 4 ∷ 3 ∷ 0 ∷ [];
  message = codes "transaction was reset before the message was accepted";
}

abbrev pub internal : SmtpError
internal = record {
  code = 451;
  enhanced = 4 ∷ 3 ∷ 0 ∷ [];
  message = codes "temporary failure, please retry later";
}

pub record Session : Type 0 where
  pub authenticated : Bool
  pub generation : ℕ
  pub staging : Option Str
  pub profile : Str
  pub caps : Capabilities
  pub recipients : List Str

pub record World : Type 0 where
  pub store : Store
  pub stagings : Dict Staging
  pub session : Session

abbrev pub no_caps : Capabilities
no_caps = record { email = false; web = false; ocr = false }

-- `staging.Abort()` on a shared staging.
unfoldable pub abort_staging : World → Str → World
unfolding abort
abort_staging w id = elim (lookup id w.stagings) [
  | none ↦ w
  | some st ↦
      let (store, st', ops) = abort w.store st in
      record w { store = store; stagings = put id st' w.stagings }
]

unfoldable pub cleared : Session → Session
cleared s = record s {
  generation = (s.generation + 1) % modulus;
  staging = none;
  profile = [];
  caps = no_caps;
  recipients = [];
}

unfoldable pub reset : World → World
unfolding cleared
reset w = elim w.session.staging [
  | none ↦ record w { session = cleared w.session }
  | some id ↦ abort_staging (record w { session = cleared w.session }) id
]

unfoldable pub logout : World → World
logout w = reset w

mail_from : Option Capabilities → Str → World → World × Reply
mail_from none sender w = (w, rejected unknown_sender)
mail_from (some caps) sender w =
    (record w { session = record w.session { profile = sender; caps = caps } }, accepted)

unfoldable pub mail : Unicode → Config → World → Str → World × Reply
unfolding mail_from
mail u cfg w sender =
    let w' = reset w in
    if not cfg.smtp_allow_anonymous && not w'.session.authenticated
    then (w', auth_required)
    else mail_from (profile u cfg sender) (normalize_address u sender) w'

unfoldable pub add_recipient : List Str → Str → List Str
add_recipient recipients canon =
    if contains canon recipients then recipients else recipients ++ canon ∷ []

unfoldable pub rcpt : Unicode → Config → World → Str → World × Reply
unfolding add_recipient
rcpt u cfg w to =
    let canon = normalize_address u to in
    if is_empty canon || not (recipient_allowed u cfg canon) then (w, rejected bad_recipient) else (
      record w {
        session = record w.session { recipients = add_recipient w.session.recipients canon };
      },
      accepted,
    )

-- The variables of a Data that runs: the snapshot of its transaction.
pub record Ticket : Type 0 where
  pub id : Str
  pub generation : ℕ
  pub profile : Str
  pub caps : Capabilities
  pub recipients : List Str

-- The first half of Data, up to the unlock. Whatever Reserve reports is answered alike.
unfoldable pub data_begin :
    Config → World → Option Str → ℕ → Bool → (Store → Store) → World × Result Ticket × Reply
data_begin cfg w new_id now made meanwhile =
    let (store, r, ops) = reserve w.store cfg.limits.max_message_bytes new_id now made meanwhile in
    let s = w.session in
    elim r [
      | err e ↦ (record w { store = store }, err e, rejected no_capacity)
      | ok st ↦ (
        record w {
          store = store;
          stagings = put st.id st w.stagings;
          session = record s { staging = some st.id };
        },
        ok (record {
          id = st.id;
          generation = s.generation;
          profile = s.profile;
          caps = s.caps;
          recipients = s.recipients;
        }),
        accepted,
      )
    ]

-- What mimescan.Extract and the reader below it report: `smtp` is an SMTPError in the chain.
pub data ExtractError : Type 0 where
  no_attachments complex storage other : ExtractError
  smtp : SmtpError → ExtractError

unfoldable pub extract_error : ExtractError → SmtpError
extract_error (smtp e) = e
extract_error complex = too_complex
extract_error storage = internal
extract_error _ = no_pdf

-- The subject and the files that were extracted, and the error, if there is one. An error of the
-- reader takes the place of Extract's own.
pub record Extracted : Type 0 where
  pub subject : Str
  pub documents : List NewDocument
  pub error : Option ExtractError

unfoldable pub with_read_error : Option ExtractError → Option ExtractError → Option ExtractError
with_read_error error none = error
with_read_error error (some e) = some e

-- What Data learns of the machine at its end: the disk, new ids, the time, and whether the pipeline
-- takes the job.
pub record Machine : Type 0 where
  pub clean : Str → Str
  pub lstat : Str → FileInfo
  pub new_id : ℕ → Option Str
  pub now : ℕ
  pub enqueues : Job → Bool

abbrev pub new_job : Ticket → Extracted → NewJob
new_job t x = record {
  profile = t.profile;
  caps = t.caps;
  subject = x.subject;
  recipients = t.recipients;
  documents = x.documents;
}

-- The job is committed, and is handed to the pipeline or deleted again.
unfoldable pub hand_over : Machine → World → Job → World × Reply
hand_over m w job =
    if m.enqueues job
    then (w, accepted)
    else (record w { store = (delete_job w.store job.id).0 }, rejected internal)

unfoldable pub commit_staging : Unicode → Machine → World → Ticket → Extracted → World × Reply
unfolding hand_over abort_staging
commit_staging u m w t x = elim (lookup t.id w.stagings) [
  | none ↦ (w, rejected internal)
  | some st ↦
      let (store, st', r, ops) = commit u m.clean w.store st (new_job t x) m.lstat m.new_id m.now in
      let w' = record w { store = store; stagings = put t.id st' w.stagings } in
      elim r [ err e ↦ (abort_staging w' t.id, rejected internal) | ok job ↦ hand_over m w' job ]
]

unfoldable pub finish :
    Option ExtractError → Unicode → Machine → World → Ticket → Extracted → World × Reply
unfolding commit_staging extract_error
finish none u m w t x = commit_staging u m w t x
finish (some no_attachments) u m w t x = (abort_staging w t.id, accepted)
finish (some e) u m w t x = (abort_staging w t.id, rejected (extract_error e))

-- The second half of Data, from the second lock on: `x` is what was extracted, `read_error` the
-- first error of the reader.
unfoldable pub data_end :
    Unicode → Machine → World → Ticket → Extracted → Option ExtractError → World × Reply
unfolding finish with_read_error
data_end u m w t x read_error =
    let w' = record w { session = record w.session { staging = none } } in
    if w.session.generation == t.generation
    then finish (with_read_error x.error read_error) u m w' t x
    else (abort_staging w' t.id, rejected aborted)
