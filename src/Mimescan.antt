-- ===== src/Mimescan.antt =====
-- internal/mimescan/mimescan.go: the walk over the parts of a message, and what it stores.
-- A message comes as the tree that mime/multipart makes of it: of each part its header, what its body
-- decodes to, and the parts that its body holds. Files come from a sequence of answers.
pub mod Tree
pub mod Walk
pub mod Books
pub mod Extract
pub mod Examples
use scan2graph.Prelude.{
  ℕ, suc, ◌+◌, ◌-◌, Bool, true, false, not, ◌&&◌, ◌||◌, List, [], ◌∷◌, ◌++◌, Option, none, some,
  Str, codes, ltb, leb, if◌then◌else◌, is_empty, length, take, drop, has_prefix, has_substring, map,
  str_eq, ◌⊎◌, inl, inr,
}

-- What mime.ParseMediaType gives: the parameters that the code reads, and whether it fails.
pub record MediaType : Type 0 where
  pub kind : Str
  pub boundary : Str
  pub name : Str
  pub filename : Str
  pub refused : Bool

-- mime's functions: ParseMediaType, and DecodeHeader with latin1Reader.
pub record MimeLibrary : Type 0 where
  pub parse_media : Str → MediaType
  pub decode_header : Str → Option Str

pub record Header : Type 0 where
  pub content_type : Str
  pub disposition : Str

-- How reading a body ends: with io.EOF, with io.ErrUnexpectedEOF, as for a part without a closing
-- boundary or for base64 that is cut off, or with another error. A reader that has ended so gives the
-- same error again.
pub data End : Type 0 where
  complete truncated broken : End

-- What a body decodes to, and how it ends.
pub record Stream : Type 0 where
  pub bytes : Str
  pub end : End

-- A part, and the parts that mime/multipart finds in its body, up to a clean or a broken end.
mutual
  pub data Node : Type 0 where
    node : Header → Stream → Parts → Node

  pub data Parts : Type 0 where
    ended : Bool → Parts
    part : Node → Parts → Parts

-- What ends a walk, and what Extract reports.
pub data WalkError : Type 0 where
  too_complex storage : WalkError

pub data ScanError : Type 0 where
  bad_message no_pdf no_attachments : ScanError
  walk_error : WalkError → ScanError

pub record Pdf : Type 0 where
  pub display_name : Str
  pub path : Str
  pub size : ℕ

-- What becomes of a new file: its name, whether a write or the closing fails, and whether ReadAt
-- gives back what was written.
pub record FileAnswer : Type 0 where
  pub path : Str
  pub write_fails : Bool
  pub close_fails : Bool
  pub reads_back : Bool

-- `extractor`, with the number of calls of newFile and the files that are on the disk because of it.
pub record Extractor : Type 0 where
  pub parts : ℕ
  pub plain_text : Bool
  pub pdfs : List Pdf
  pub created : ℕ
  pub disk : List Str

pub data Outcome : Type 0 where
  going : Extractor → Outcome
  failed : WalkError → Extractor → Outcome

abbrev pub max_parts : ℕ
max_parts = 100

abbrev pub max_depth : ℕ
max_depth = 10

abbrev pub max_pdfs : ℕ
max_pdfs = 16

abbrev pub head_bytes : ℕ
head_bytes = 1024

abbrev pub tail_bytes : ℕ
tail_bytes = 4096

unfoldable pub unplain : Bool → Extractor → Extractor
unplain surprise e = record e { plain_text = e.plain_text && not surprise }

-- An error ends the walk.
unfoldable pub after : Outcome → (Extractor → Outcome) → Outcome
after (going e) k = k e
after (failed err e) k = failed err e

-- `os.Remove`.
unfoldable pub remove : Str → List Str → List Str
remove k [] = []
remove k (j ∷ disk) = if str_eq j k then disk else j ∷ remove k disk

unfoldable pub removed : Str → Extractor → Extractor
removed path e = record e { disk = remove path e.disk }

-- What the bytes say: the first five, within the head, and the marker, within the tail.
unfoldable pub has_magic : Str → Bool
unfolding has_prefix
has_magic bytes = has_prefix (take head_bytes bytes) (codes "%PDF-")

unfoldable pub has_marker : Str → Bool
unfolding has_substring
has_marker bytes = has_substring (drop (length bytes - tail_bytes) bytes) (codes "%%EOF")

-- The error of io.Copy: every end but io.EOF is one.
unfoldable pub is_error : End → Bool
is_error complete = false
is_error truncated = true
is_error broken = true

-- The error of io.ReadFull that is neither io.EOF nor io.ErrUnexpectedEOF.
unfoldable pub is_unreadable : End → Bool
is_unreadable complete = false
is_unreadable truncated = false
is_unreadable broken = true

-- A body that breaks within the head: io.ReadFull reports no error once the head is full.
unfoldable pub breaks_early : Stream → Bool
unfolding is_unreadable
breaks_early s = is_unreadable s.end && ltb (length s.bytes) head_bytes

-- The end of `Extract`: what was stored goes where the walk failed.
unfoldable pub remove_pdfs : List Pdf → Extractor → Extractor
unfolding removed remove
remove_pdfs [] e = e
remove_pdfs (p ∷ pdfs) e = remove_pdfs pdfs (removed p.path e)

unfoldable pub conclude : Outcome → ScanError ⊎ List Pdf
conclude (failed err e) = inl (walk_error err)
conclude (going e) =
    if is_empty e.pdfs then inl (if e.plain_text then no_attachments else no_pdf) else inr e.pdfs

unfoldable pub left_on_disk : Outcome → List Str
unfolding remove_pdfs
left_on_disk (failed err e) = (remove_pdfs e.pdfs e).disk
left_on_disk (going e) = e.disk

module _ (lib : MimeLibrary) where
  unfoldable pub decode : Str → Str
  decode s = elim (lib.decode_header s) [ none ↦ [] | some d ↦ d ]

  unfoldable pub file_name : Header → Str
  unfolding decode
  file_name h =
      let disposed = (lib.parse_media h.disposition).filename in
      if not (is_empty disposed)
      then decode disposed
      else decode (lib.parse_media h.content_type).name

  -- The headers are not those of plain text.
  unfoldable pub names_file : Header → Bool
  unfolding file_name has_prefix
  names_file h =
      let kind = (lib.parse_media h.content_type).kind in
      not (is_empty (file_name h))
      || not (is_empty h.disposition)
      || (not (is_empty kind) && not (has_prefix kind (codes "text/")))

  -- A Content-Type that was sent and cannot be read.
  unfoldable pub is_misread : Header → Bool
  is_misread h = not (is_empty h.content_type) && (lib.parse_media h.content_type).refused

  unfoldable pub is_container : Header → Bool
  unfolding has_prefix
  is_container h = has_prefix (lib.parse_media h.content_type).kind (codes "multipart/")

  module _ (files : ℕ → Option FileAnswer) where
    -- `leaf` once the file is written and closed.
    unfoldable pub keep : FileAnswer → Header → Stream → Extractor → Outcome
    unfolding removed remove has_marker is_error
    keep f h s e =
        if f.write_fails || f.close_fails
        then failed storage (removed f.path e)
        else if is_error s.end || not (f.reads_back && has_marker s.bytes)
        then going (removed f.path e)
        else going (record e {
          pdfs =
              e.pdfs
              ++ record { display_name = file_name h; path = f.path; size = length s.bytes } ∷ [];
        })

    -- `leaf` from the call of newFile on, with its answer.
    unfoldable pub store : Option FileAnswer → Header → Stream → Extractor → Outcome
    unfolding keep
    store none h s e = failed storage (record e { created = suc e.created })
    store (some f) h s e = keep f h s (record e { created = suc e.created; disk = f.path ∷ e.disk })

    -- `leaf` once the head is read.
    unfoldable pub read_body : Header → Stream → Extractor → Outcome
    unfolding breaks_early has_magic store
    read_body h s e =
        if breaks_early s
        then going e
        else if not (has_magic s.bytes)
        then going e
        else if leb max_pdfs (length e.pdfs)
        then failed too_complex e
        else store (files e.created) h s e

    unfoldable pub leaf : Header → Stream → Extractor → Outcome
    unfolding names_file unplain has_magic read_body
    leaf h s e = read_body h s (unplain (has_magic s.bytes) (unplain (names_file h) e))

    unfoldable mutual
      unfolding leaf unplain after is_misread is_container

      pub walk : Node → ℕ → Extractor → Outcome
      walk (node h s ps) depth e =
          let e' = unplain (is_misread h) e in
          if ltb max_depth depth
          then failed too_complex e
          else if not (is_container h)
          then leaf h s e'
          else if is_empty (lib.parse_media h.content_type).boundary
          then going (unplain true e')
          else walk_parts ps depth false e'

      pub walk_parts : Parts → ℕ → Bool → Extractor → Outcome
      walk_parts (ended clean) depth seen e = going (unplain (not clean || not seen) e)
      walk_parts (part n ps) depth seen e =
          let e' = record e { parts = suc e.parts } in
          if ltb max_parts e'.parts
          then failed too_complex e'
          else after (walk n (suc depth) e') (λ e2. walk_parts ps depth true e2)

    -- `Extract` on the message that net/mail reads: what it returns beside the subject, and the files
    -- that it leaves.
    unfoldable pub extract : Option Node → (ScanError ⊎ List Pdf) × List Str
    unfolding walk conclude left_on_disk
    extract none = (inl bad_message, [])
    extract (some root) =
        let o =
          walk root 0
            (record { parts = 0; plain_text = true; pdfs = []; created = 0; disk = [] }) in
        (conclude o, left_on_disk o)
