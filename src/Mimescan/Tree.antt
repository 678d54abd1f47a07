-- ===== src/Mimescan/Tree.antt =====
-- What a message holds, said of its tree alone: its documents, and whether it is plain text.
use scan2graph.Prelude.{
  ◌≡◌, ◌≤◌, refl, ℕ, zero, suc, ◌-◌, take, drop, has_prefix, has_substring, codes, Bool, true,
  false, not, ◌&&◌, ◌||◌, List, [], ◌∷◌, ◌++◌, Str, arith, if◌then◌else◌, is_empty, length,
}
use scan2graph.Mimescan.{
  End, complete, truncated, broken, MimeLibrary, Header, Stream, Node, node, Parts, ended, part,
  Pdf, has_magic, has_marker, is_error, file_name, names_file, is_misread, is_container,
}

-- The name and the size of a document.
abbrev pub Content : Type 0
Content = Str × ℕ

unfoldable pub contents : List Pdf → List Content
contents [] = []
contents (p ∷ ps) = (p.display_name, p.size) ∷ contents ps

-- What makes a body a document, whatever its length: it is read to its end, begins like a PDF, and
-- ends like one.
unfoldable pub is_whole : End → Bool
is_whole complete = true
is_whole truncated = false
is_whole broken = false

unfoldable pub begins_pdf : Str → Bool
begins_pdf bytes = has_prefix bytes (codes "%PDF-")

unfoldable pub ends_pdf : Str → Bool
ends_pdf bytes = has_substring (drop (length bytes - 4096) bytes) (codes "%%EOF")

unfoldable pub is_document : Stream → Bool
unfolding is_whole begins_pdf ends_pdf
is_document s = is_whole s.end && begins_pdf s.bytes && ends_pdf s.bytes

-- The test that the walk makes of a body.
unfoldable pub stays : Stream → Bool
stays s = not (is_error s.end) && has_magic s.bytes && has_marker s.bytes

has_prefix-take : (n : ℕ) (s p : Str) → length p ≤ n → has_prefix (take n s) p ≡ has_prefix s p
unfolding has_prefix
has_prefix-take n s [] h = refl
has_prefix-take zero s (c ∷ p) h = absurd (omega (arith, h))
has_prefix-take (suc n) [] (c ∷ p) h = refl
has_prefix-take (suc n) (r ∷ s) (c ∷ p) h = ground (arith, has_prefix-take n s p (omega (arith, h)))

pub has_magic-begins_pdf : (bytes : Str) → has_magic bytes ≡ begins_pdf bytes
unfolding has_magic begins_pdf
has_magic-begins_pdf bytes = has_prefix-take 1024 bytes (codes "%PDF-") (omega arith)

is_error-is_whole : (e : End) → not (is_error e) ≡ is_whole e
unfolding is_error is_whole
is_error-is_whole complete = refl
is_error-is_whole truncated = refl
is_error-is_whole broken = refl

pub stays-is_document : (s : Stream) → stays s ≡ is_document s
unfolding stays is_document has_marker ends_pdf
stays-is_document s = rw (is_error-is_whole s.end, has_magic-begins_pdf s.bytes) refl

module _ (lib : MimeLibrary) where
  -- A header of plain text: no file is named, there is no disposition, and the type is a text or
  -- missing.
  unfoldable pub is_text : Header → Bool
  is_text h =
      let kind = (lib.parse_media h.content_type).kind in
      is_empty (file_name lib h)
      && is_empty h.disposition
      && (is_empty kind || has_prefix kind (codes "text/"))

  pub names_file-is_text : (h : Header) → not (names_file lib h) ≡ is_text h
  unfolding names_file is_text
  names_file-is_text h = ground arith

  -- The bodies of a tree that are documents, from the first to the last; a container without a
  -- boundary has none.
  unfoldable mutual
    unfolding is_document

    pub documents : Node → List Content
    documents (node h s ps) =
        if not (is_container lib h)
        then (if is_document s then (file_name lib h, length s.bytes) ∷ [] else [])
        else if is_empty (lib.parse_media h.content_type).boundary
        then []
        else documents_of ps

    pub documents_of : Parts → List Content
    documents_of (ended clean) = []
    documents_of (part n ps) = documents n ++ documents_of ps

  -- A text, or a container of texts that was read to its end: nothing that names a file, that is of
  -- another type, or that begins like a PDF.
  unfoldable mutual
    pub is_plain : Node → Bool
    is_plain (node h s ps) =
        not (is_misread lib h)
        && (if not (is_container lib h)
            then is_text h && not (begins_pdf s.bytes)
            else not (is_empty (lib.parse_media h.content_type).boundary) && are_plain ps false)

    pub are_plain : Parts → Bool → Bool
    are_plain (ended clean) seen = clean && seen
    are_plain (part n ps) seen = is_plain n && are_plain ps true
