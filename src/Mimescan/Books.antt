-- ===== src/Mimescan/Books.antt =====
-- The files that a walk has on the disk, and its PDFs.
use scan2graph.Prelude.{
  ◌≡◌, refl, ap, ◌∙◌, ◌≤◌, ℕ, suc, ◌+◌, ◌-◌, Bool, true, false, not, ◌&&◌, ◌||◌, List, [], ◌∷◌,
  ◌++◌, Option, none, some, Str, arith, if◌then◌else◌, is_empty, length, leb, ltb, str_eq,
  str_eq_iff, str_eq_refl,
}
use scan2graph.Mimescan.{
  MimeLibrary, Header, Stream, Node, node, Parts, ended, part, Pdf, FileAnswer, Extractor, Outcome,
  going, failed, unplain, after, remove, removed, has_magic, has_marker, is_error, breaks_early,
  file_name, names_file, is_misread, is_container, keep, store, read_body, leaf, walk, walk_parts,
  remove_pdfs, max_pdfs, max_parts, max_depth, storage, too_complex,
}

-- How often a name stands in a list.
unfoldable pub times : Str → List Str → ℕ
times k [] = 0
times k (j ∷ xs) = (if str_eq j k then 1 else 0) + times k xs

unfoldable pub paths : List Pdf → List Str
paths [] = []
paths (p ∷ ps) = p.path ∷ paths ps

times-append :
    (k : Str) (ps : List Pdf) (p : Pdf)
    → times k (paths (ps ++ p ∷ [])) ≡ times k (p.path ∷ paths ps)
unfolding times paths
times-append k [] p = refl
times-append k (q ∷ ps) p = ground (arith, times-append k ps p)

length-snoc : (ps : List Pdf) (p : Pdf) → length (ps ++ p ∷ []) ≡ suc (length ps)
length-snoc [] p = refl
length-snoc (q ∷ ps) p = ap suc (length-snoc ps p)

times-remove :
    (k p : Str) (disk : List Str)
    → times k (remove p disk) ≡ times k disk - (if str_eq p k then 1 else 0)
unfolding times remove
times-remove k p [] = ground arith
times-remove k p (j ∷ disk) =
    ground (arith, times-remove k p disk, str_eq_iff j p, str_eq_iff j k, str_eq_iff p k)

pub nil-of_times : (disk : List Str) → ((k : Str) → times k disk ≡ 0) → disk ≡ []
unfolding times
nil-of_times [] h = refl
nil-of_times (j ∷ disk) h = ground (arith, h j, str_eq_refl j)

-- The disk has the files of the PDFs, each as often, and there are not more of these than allowed.
pub record IsBooked (e : Extractor) : Type 0 where
  pub kept : (k : Str) → times k e.disk ≡ times k (paths e.pdfs)
  pub room : length e.pdfs ≤ max_pdfs

unfoldable pub state : Outcome → Extractor
state (going e) = e
state (failed err e) = e

-- The removal of what was stored leaves nothing.
pub remove_pdfs-nil :
    (ps : List Pdf) (e : Extractor)
    → ((k : Str) → times k e.disk ≡ times k (paths ps))
    → (remove_pdfs ps e).disk ≡ []
unfolding remove_pdfs times paths removed
remove_pdfs-nil [] e h = nil-of_times e.disk h
remove_pdfs-nil (p ∷ ps) e h =
    remove_pdfs-nil ps (removed p.path e) (λ k. times-remove k p.path e.disk ∙ ground (arith, h k))

choice-IsBooked :
    (b : Bool) (o o' : Outcome)
    → IsBooked (state o)
    → (b ≡ false → IsBooked (state o'))
    → IsBooked (state (if b then o else o'))
choice-IsBooked true o o' h h' = h
choice-IsBooked false o o' h h' = h' refl

after-IsBooked :
    (o : Outcome) (k : Extractor → Outcome)
    → IsBooked (state o)
    → ((e : Extractor) → IsBooked e → IsBooked (state (k e)))
    → IsBooked (state (after o k))
unfolding after state
after-IsBooked (going e) k h next = next e h
after-IsBooked (failed err e) k h next = h

module _ (lib : MimeLibrary) (files : ℕ → Option FileAnswer) where
  keep-IsBooked :
      (f : FileAnswer) (h : Header) (s : Stream) (e : Extractor)
      → IsBooked e
      → leb max_pdfs (length e.pdfs) ≡ false
      → IsBooked (
          state
            (keep lib files f h s (record e { created = suc e.created; disk = f.path ∷ e.disk })))
  unfolding keep state removed remove times paths
  keep-IsBooked f h s e b room =
      let e' = record e { created = suc e.created; disk = f.path ∷ e.disk } in
      let p : Pdf = record {
        display_name = file_name lib h;
        path = f.path;
        size = length s.bytes;
      } in
      let gone : IsBooked (removed f.path e') = record {
        kept = λ k. rw (str_eq_refl f.path) (b.kept k);
        room = b.room;
      } in
      choice-IsBooked (f.write_fails || f.close_fails) (failed storage (removed f.path e')) _ gone
        (λ _.
          choice-IsBooked (is_error s.end || not (f.reads_back && has_marker s.bytes))
            (going (removed f.path e')) (going (record e' { pdfs = e.pdfs ++ p ∷ [] })) gone
            (λ _. record {
              kept = λ k. ground (arith, b.kept k, times-append k e.pdfs p);
              room = ground (arith, room, length-snoc e.pdfs p);
            }))

  store-IsBooked :
      (o : Option FileAnswer) (h : Header) (s : Stream) (e : Extractor)
      → IsBooked e
      → leb max_pdfs (length e.pdfs) ≡ false
      → IsBooked (state (store lib files o h s e))
  unfolding store state
  store-IsBooked none h s e b room = record { kept = b.kept; room = b.room }
  store-IsBooked (some f) h s e b room = keep-IsBooked f h s e b room

  leaf-IsBooked :
      (h : Header) (s : Stream) (e : Extractor)
      → IsBooked e
      → IsBooked (state (leaf lib files h s e))
  unfolding leaf read_body state unplain
  leaf-IsBooked h s e b =
      let e' = unplain (has_magic s.bytes) (unplain (names_file lib h) e) in
      let b' : IsBooked e' = record { kept = b.kept; room = b.room } in
      choice-IsBooked (breaks_early s) (going e') _ b' (λ _.
        choice-IsBooked (not (has_magic s.bytes)) (going e') _ b' (λ _.
          choice-IsBooked (leb max_pdfs (length e.pdfs)) (failed too_complex e')
            (store lib files (files e.created) h s e') b'
            (λ room. store-IsBooked (files e.created) h s e' b' room)))

  mutual
    unfolding walk unplain state

    pub walk-IsBooked :
        (n : Node) (depth : ℕ) (e : Extractor)
        → IsBooked e
        → IsBooked (state (walk lib files n depth e))
    walk-IsBooked (node h s ps) depth e b =
        let e' = unplain (is_misread lib h) e in
        let b' : IsBooked e' = record { kept = b.kept; room = b.room } in
        choice-IsBooked (ltb max_depth depth) (failed too_complex e) _ b (λ _.
          choice-IsBooked (not (is_container lib h)) (leaf lib files h s e') _
            (leaf-IsBooked h s e' b')
            (λ _.
              choice-IsBooked (is_empty (lib.parse_media h.content_type).boundary)
                (going (unplain true e')) (walk_parts lib files ps depth false e')
                (record { kept = b.kept; room = b.room })
                (λ _. walk_parts-IsBooked ps depth false e' b')))

    walk_parts-IsBooked :
        (ps : Parts) (depth : ℕ) (seen : Bool) (e : Extractor)
        → IsBooked e
        → IsBooked (state (walk_parts lib files ps depth seen e))
    walk_parts-IsBooked (ended clean) depth seen e b = record { kept = b.kept; room = b.room }
    walk_parts-IsBooked (part n ps) depth seen e b =
        let e' = record e { parts = suc e.parts } in
        let b' : IsBooked e' = record { kept = b.kept; room = b.room } in
        choice-IsBooked (ltb max_parts e'.parts) (failed too_complex e') _ b' (λ _.
          after-IsBooked (walk lib files n (suc depth) e')
            (λ e2. walk_parts lib files ps depth true e2) (walk-IsBooked n (suc depth) e' b')
            (λ e2 b2. walk_parts-IsBooked ps depth true e2 b2))
