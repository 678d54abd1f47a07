-- ===== src/Remote/Upload.antt =====
-- internal/graphmail: the way that a mail takes, and the upload of an attachment in chunks.
-- What the file gives when it is read, and which requests are accepted, are arguments.
pub mod Whole
pub mod Examples
use scan2graph.Prelude.{
  ℕ, zero, suc, ◌+◌, ◌-◌, ◌*◌, ◌/◌, min, Bool, true, false, not, List, [], ◌∷◌, Option, none, some,
  Str, ltb, leb, if◌then◌else◌, length, take, drop,
}

abbrev pub upload_chunk_bytes : ℕ
upload_chunk_bytes = 3932160

abbrev pub graph_attachment_floor_bytes : ℕ
graph_attachment_floor_bytes = 3145728

abbrev pub max_graph_message_bytes : ℕ
max_graph_message_bytes = 4194304

abbrev pub max_attachment_bytes : ℕ
max_attachment_bytes = max_graph_message_bytes * 9 / 16

-- `base64.StdEncoding.EncodedLen`.
unfoldable pub encoded_len : ℕ → ℕ
encoded_len n = (n + 2) / 3 * 4

-- What Send does: it fails, refuses the mail as too large, posts one message, or goes by a draft.
pub data Route : Type 0 where
  send_fails too_large by_draft : Route
  one_message : ℕ → Route

unfoldable pub past_limit : Bool → Route
past_limit large_scans = if large_scans then by_draft else too_large

-- `Send` once the attachments have been measured; `composed` is the length of what buildMessage
-- gives, where it gives something.
unfoldable pub route : Bool → ℕ → Option ℕ → Route
unfolding encoded_len past_limit
route large_scans attached none =
    if ltb max_attachment_bytes attached then past_limit large_scans else send_fails
route large_scans attached (some composed) =
    if ltb max_attachment_bytes attached
    then past_limit large_scans
    else if ltb max_graph_message_bytes (encoded_len composed)
    then past_limit large_scans
    else one_message (encoded_len composed)

-- The loop that measures the attachments: os.Stat fails, or gives a size.
measure : ℕ → List (Option ℕ) → Option ℕ
measure attached [] = some attached
measure attached (none ∷ files) = none
measure attached (some size ∷ files) = measure (attached + size) files

unfoldable pub send_route : Bool → List (Option ℕ) → Option ℕ → Route
unfolding measure route
send_route large_scans files composed = elim (measure 0 files) [
  | none ↦ send_fails
  | some attached ↦ route large_scans attached composed
]

-- One PUT: where its Content-Range begins, the size of the whole file, and the bytes.
pub record Put : Type 0 where
  pub first : ℕ
  pub total : ℕ
  pub body : Str

pub data UploadResult : Type 0 where
  uploaded read_fails refused out_of_fuel : UploadResult

-- The loop of `attach` over the chunks: `rest` is what the file still gives. Each round but the last
-- sends a byte or more, so that the size of the file is fuel enough.
unfoldable pub upload_from : (ℕ → Bool) → ℕ → ℕ → ℕ → Str → List Put × UploadResult
upload_from accepts zero off size rest = ([], if ltb off size then out_of_fuel else uploaded)
upload_from accepts (suc fuel) off size rest =
    let n = min upload_chunk_bytes (size - off) in
    let (puts, result) = upload_from accepts fuel (off + n) size (drop n rest) in
    let put : Put = record { first = off; total = size; body = take n rest } in
    if not (ltb off size)
    then ([], uploaded)
    else if ltb (length rest) n
    then ([], read_fails)
    else if accepts off
    then (put ∷ puts, result)
    else (put ∷ [], refused)

-- How an attachment goes into the draft: in one request, or in chunks.
pub data Attached : Type 0 where
  posted : Str → Attached
  in_chunks : List Put → UploadResult → Attached

-- `attach` once the file is open: `size` is what Stat says, and the session has been created.
unfoldable pub attach : (ℕ → Bool) → ℕ → Str → Attached
unfolding upload_from
attach accepts size content =
    if ltb size graph_attachment_floor_bytes
    then posted content
    else (let (puts, result) = upload_from accepts size 0 size content in in_chunks puts result)
