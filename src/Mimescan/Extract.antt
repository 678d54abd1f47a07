-- ===== src/Mimescan/Extract.antt =====
-- What Extract promises of the message and of the disk.
use scan2graph.Prelude.{
  ◌≡◌, refl, ap, ◌∙◌, ◌≤◌, ℕ, true, false, List, [], ◌∷◌, Option, none, some, Str, arith, is_empty,
  length, inl, inr,
}
use scan2graph.Mimescan.{
  MimeLibrary, Node, Pdf, FileAnswer, Extractor, Outcome, going, failed, ScanError, walk, conclude,
  left_on_disk, extract, max_pdfs,
}
use scan2graph.Mimescan.Books.{
  times, paths, IsBooked, state, remove_pdfs-nil, walk-IsBooked, nil-of_times,
}

abbrev start : Extractor
start = record { parts = 0; plain_text = true; pdfs = []; created = 0; disk = [] }

start-IsBooked : IsBooked start
unfolding times paths
start-IsBooked = record { kept = λ k. refl; room = omega arith }

nil-of_is_empty : (ps : List Pdf) → is_empty ps ≡ true → ps ≡ []
nil-of_is_empty [] h = refl
nil-of_is_empty (p ∷ ps) h = cc

left_on_disk-error :
    (o : Outcome) (err : ScanError)
    → IsBooked (state o)
    → conclude o ≡ inl err
    → left_on_disk o ≡ []
unfolding left_on_disk conclude state times paths
left_on_disk-error (failed w e) err b h = remove_pdfs-nil e.pdfs e b.kept
left_on_disk-error (going e) err b h =
    let bare : is_empty e.pdfs ≡ true = ground (arith, h) in
    nil-of_times e.disk
      (λ k. b.kept k ∙ ap (λ ps. times k (paths ps)) (nil-of_is_empty e.pdfs bare))

left_on_disk-pdfs :
    (o : Outcome) (pdfs : List Pdf)
    → IsBooked (state o)
    → conclude o ≡ inr pdfs
    → (is_empty pdfs ≡ false)
      × (length pdfs ≤ max_pdfs)
      × ((k : Str) → times k (left_on_disk o) ≡ times k (paths pdfs))
unfolding left_on_disk conclude state
left_on_disk-pdfs (failed w e) pdfs b h = cc
left_on_disk-pdfs (going e) pdfs b h =
    let there : is_empty e.pdfs ≡ false = ground (arith, h) in
    let same : e.pdfs ≡ pdfs = ground (arith, h, there) in
    (
      ground (arith, there, same),
      ground (arith, b.room, same),
      λ k. b.kept k ∙ ap (λ ps. times k (paths ps)) same,
    )

-- Where Extract fails, it leaves no file. Where it succeeds there is a PDF and there are at most
-- sixteen, and the files on the disk are theirs: each path is there as often as the PDFs name it.
pub extract-disk :
    (lib : MimeLibrary) (files : ℕ → Option FileAnswer) (message : Option Node)
    → ((err : ScanError)
        → (extract lib files message).0 ≡ inl err
        → (extract lib files message).1 ≡ [])
      × ((pdfs : List Pdf)
          → (extract lib files message).0 ≡ inr pdfs
          → (is_empty pdfs ≡ false)
            × (length pdfs ≤ 16)
            × ((k : Str) → times k (extract lib files message).1 ≡ times k (paths pdfs)))
unfolding extract
extract-disk lib files none = (λ err h. refl, λ pdfs h. cc)
extract-disk lib files (some root) =
    let booked = walk-IsBooked lib files root 0 start start-IsBooked in
    let o = walk lib files root 0 start in
    (λ err h. left_on_disk-error o err booked h, λ pdfs h. left_on_disk-pdfs o pdfs booked h)
