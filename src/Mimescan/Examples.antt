-- ===== src/Mimescan/Examples.antt =====
-- The theorems on Extract, applied to a message with a text and a PDF.
use scan2graph.Prelude.{
  ◌≡◌, ◌≤◌, refl, ℕ, true, false, List, [], Option, some, Str, codes, is_empty, length,
  if◌then◌else◌, inl, inr, str_eq,
}
use scan2graph.Mimescan.{
  MimeLibrary, MediaType, complete, truncated, walk_error, storage, Node, node, Parts, ended, part,
  Pdf, FileAnswer, ScanError, no_pdf, extract,
}
use scan2graph.Mimescan.Books.{times, paths}
use scan2graph.Mimescan.Extract.{extract-disk}

abbrev media_of : Str → MediaType
unfolding str_eq
media_of kind = record {
  kind = kind;
  boundary = if str_eq kind (codes "multipart/mixed") then codes "b" else [];
  name = [];
  filename = [];
  refused = false;
}

abbrev plain_media : MimeLibrary
plain_media = record { parse_media = media_of; decode_header = λ s. some s }

abbrev pdf_bytes : Str
pdf_bytes = codes "%PDF-1.7 %%EOF"

abbrev leaf_of : Str → Str → Node
leaf_of kind bytes =
    node (record { content_type = kind; disposition = [] })
      (record { bytes = bytes; end = complete }) (ended true)

abbrev letter : Node
letter =
    node (record { content_type = codes "multipart/mixed"; disposition = [] })
      (record { bytes = []; end = complete })
      (part (leaf_of (codes "text/plain") (codes "see scan"))
        (part (leaf_of (codes "application/octet-stream") pdf_bytes) (ended true)))

-- Every file is written.
abbrev good_disk : ℕ → Option FileAnswer
good_disk k =
    some (record { path = codes "f"; write_fails = false; close_fails = false; reads_back = true })

-- The first file cannot be closed.
abbrev bad_disk : ℕ → Option FileAnswer
bad_disk k =
    some (record { path = codes "f"; write_fails = false; close_fails = true; reads_back = true })

extract-disk_example :
    ((err : ScanError)
      → (extract plain_media bad_disk (some letter)).0 ≡ inl err
      → (extract plain_media bad_disk (some letter)).1 ≡ [])
    × ((pdfs : List Pdf)
        → (extract plain_media bad_disk (some letter)).0 ≡ inr pdfs
        → (is_empty pdfs ≡ false)
          × (length pdfs ≤ 16)
          × ((k : Str)
              → times k (extract plain_media bad_disk (some letter)).1 ≡ times k (paths pdfs)))
extract-disk_example = extract-disk plain_media bad_disk (some letter)

-- A PDF that is cut off within its head is stored and removed again, and where the disk fails, that
-- is an error.
abbrev cut_off : Node
cut_off =
    node (record { content_type = []; disposition = [] })
      (record { bytes = pdf_bytes; end = truncated }) (ended true)

cut_off_is_stored :
    (extract plain_media good_disk (some cut_off) ≡ (inl no_pdf, []))
    × (extract plain_media bad_disk (some cut_off) ≡ (inl (walk_error storage), []))
unfolding extract media_of
cut_off_is_stored = (refl, refl)
