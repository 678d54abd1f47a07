-- ===== src/Mimescan/Walk.antt =====
-- What a walk that goes on has found.
use scan2graph.Prelude.{
  ◌≡◌, refl, sym, ap, ◌∙◌, ℕ, suc, Bool, true, false, not, ◌&&◌, ◌||◌, List, [], ◌∷◌, ◌++◌, Option,
  none, some, arith, if◌then◌else◌, is_empty, length, leb, ltb, Bool-cases, inl, inr,
}
use scan2graph.Mimescan.{
  WalkError, too_complex, max_pdfs, max_depth, max_parts, after, MimeLibrary, Header, Stream, Node,
  node, Parts, ended, part, Pdf, FileAnswer, Extractor, Outcome, going, failed, unplain, removed,
  has_magic, is_error, is_unreadable, breaks_early, file_name, names_file, is_misread, is_container,
  keep, store, read_body, leaf, walk, walk_parts,
}
use scan2graph.Mimescan.Tree.{
  Content, contents, is_document, begins_pdf, is_text, stays, documents, documents_of, is_plain,
  are_plain, has_magic-begins_pdf, stays-is_document, names_file-is_text,
}

contents-append :
    (ps : List Pdf) (p : Pdf)
    → contents (ps ++ p ∷ []) ≡ contents ps ++ (p.display_name, p.size) ∷ []
unfolding contents
contents-append [] p = refl
contents-append (q ∷ ps) p = ap (λ cs. (q.display_name, q.size) ∷ cs) (contents-append ps p)

append_nil {ℓ} : {A : Type ℓ} (xs : List A) → xs ++ [] ≡ xs
append_nil [] = refl
append_nil (x ∷ xs) = ap (λ l. x ∷ l) (append_nil xs)

append_assoc {ℓ} : {A : Type ℓ} (xs ys zs : List A) → (xs ++ ys) ++ zs ≡ xs ++ (ys ++ zs)
append_assoc [] ys zs = refl
append_assoc (x ∷ xs) ys zs = ap (λ l. x ∷ l) (append_assoc xs ys zs)

-- What a walk that goes on has done to the state: the flag and the documents.
pub record IsAdvance (plain : Bool) (found : List Content) (e e' : Extractor) : Type 0 where
  pub flag : e'.plain_text ≡ e.plain_text && plain
  pub stored : contents e'.pdfs ≡ contents e.pdfs ++ found

and_assoc : (a b c : Bool) → (a && b) && c ≡ a && (b && c)
and_assoc true b c = refl
and_assoc false b c = refl

absurd-outcome : {err : WalkError} {e e' : Extractor} {P : Type 0} → failed err e ≡ going e' → P
absurd-outcome h = cc

idle-IsAdvance : (e e' : Extractor) → going e ≡ going e' → IsAdvance true [] e e'
idle-IsAdvance e e' same = record {
  flag = ground (arith, same);
  stored = ground (arith, same, append_nil (contents e.pdfs));
}

IsAdvance-trans :
    {p q : Bool} {xs ys : List Content} {e1 e2 e3 : Extractor}
    → IsAdvance p xs e1 e2
    → IsAdvance q ys e2 e3
    → IsAdvance (p && q) (xs ++ ys) e1 e3
IsAdvance-trans {p = p} {q = q} {xs = xs} {ys = ys} {e1 = e1} a b = record {
  flag = b.flag ∙ ap (λ f. f && q) a.flag ∙ and_assoc e1.plain_text p q;
  stored = b.stored ∙ ap (λ cs. cs ++ ys) a.stored ∙ append_assoc (contents e1.pdfs) xs ys;
}

unplain-IsAdvance :
    (surprise : Bool) (e : Extractor) → IsAdvance (not surprise) [] e (unplain surprise e)
unfolding unplain
unplain-IsAdvance surprise e = record { flag = refl; stored = sym (append_nil (contents e.pdfs)) }

module _ (lib : MimeLibrary) (files : ℕ → Option FileAnswer)
    (reads : (k : ℕ) (f : FileAnswer) → files k ≡ some f → f.reads_back ≡ true) where
  keep-IsAdvance :
      (f : FileAnswer) (h : Header) (s : Stream) (e e' : Extractor)
      → f.reads_back ≡ true
      → has_magic s.bytes ≡ true
      → keep lib files f h s e ≡ going e'
      → IsAdvance true (if stays s then (file_name lib h, length s.bytes) ∷ [] else []) e e'
  unfolding keep removed stays
  keep-IsAdvance f h s e e' back magic went = record {
    flag = ground (arith, went);
    stored = ground (
      arith,
      went,
      contents-append e.pdfs
          (record { display_name = file_name lib h; path = f.path; size = length s.bytes }),
      append_nil (contents e.pdfs),
    );
  }

  store-IsAdvance :
      (o : Option FileAnswer)
      → ((f : FileAnswer) → o ≡ some f → f.reads_back ≡ true)
      → (h : Header) (s : Stream) (e e' : Extractor) → has_magic s.bytes ≡ true
      → store lib files o h s e ≡ going e'
      → IsAdvance true (if stays s then (file_name lib h, length s.bytes) ∷ [] else []) e e'
  unfolding store
  store-IsAdvance none back h s e e' magic went = cc
  store-IsAdvance (some f) back h s e e' magic went =
      let advance =
        keep-IsAdvance f h s (record e { created = suc e.created; disk = f.path ∷ e.disk }) e'
          (back f refl) magic went in
      record { flag = advance.flag; stored = advance.stored }

  read_body-skip :
      (h : Header) (s : Stream) (e : Extractor)
      → breaks_early s || not (has_magic s.bytes) ≡ true
      → read_body lib files h s e ≡ going e
  unfolding read_body
  read_body-skip h s e skipped = elim (Bool-cases (breaks_early s)) [
    | inl b ↦ rw b refl
    | inr b ↦
        let other : has_magic s.bytes ≡ false = ground (arith, skipped, b) in rw b (rw other refl)
  ]

  read_body-store :
      (h : Header) (s : Stream) (e e' : Extractor)
      → breaks_early s || not (has_magic s.bytes) ≡ false
      → read_body lib files h s e ≡ going e'
      → store lib files (files e.created) h s e ≡ going e'
  unfolding read_body
  read_body-store h s e e' looks went =
      let early : breaks_early s ≡ false = ground (arith, looks) in
      let magic : has_magic s.bytes ≡ true = ground (arith, looks) in
      elim (Bool-cases (leb max_pdfs (length e.pdfs))) [
        | inl full ↦
            let refused : read_body lib files h s e ≡ failed too_complex e =
              rw early (rw magic (rw full refl)) in
            absurd-outcome (sym refused ∙ went)
        | inr room ↦
            let stored : read_body lib files h s e ≡ store lib files (files e.created) h s e =
              rw early (rw magic (rw room refl)) in
            sym stored ∙ went
      ]

  read_body-IsAdvance :
      (h : Header) (s : Stream) (e e' : Extractor)
      → read_body lib files h s e ≡ going e'
      → IsAdvance true (if stays s then (file_name lib h, length s.bytes) ∷ [] else []) e e'
  unfolding stays breaks_early is_error is_unreadable
  read_body-IsAdvance h s e e' went =
      elim (Bool-cases (breaks_early s || not (has_magic s.bytes))) [
        | inl skipped ↦
            let no_document : stays s ≡ false = ground (arith, skipped) in
            rw no_document (idle-IsAdvance e e' (sym (read_body-skip h s e skipped) ∙ went))
        | inr looks ↦
            store-IsAdvance (files e.created) (reads e.created) h s e e' (ground (arith, looks))
              (read_body-store h s e e' looks went)
      ]

  leaf-stays :
      (h : Header) (s : Stream) (e e' : Extractor)
      → leaf lib files h s e ≡ going e'
      → IsAdvance
          (not (names_file lib h) && not (has_magic s.bytes))
          (if stays s then (file_name lib h, length s.bytes) ∷ [] else [])
          e
          e'
  unfolding leaf
  leaf-stays h s e e' went =
      let named = unplain (names_file lib h) e in
      let step = IsAdvance-trans (unplain-IsAdvance (names_file lib h) e) (
        IsAdvance-trans (unplain-IsAdvance (has_magic s.bytes) named)
          (read_body-IsAdvance h s (unplain (has_magic s.bytes) named) e' went)) in
      record { flag = step.flag ∙ ground arith; stored = step.stored }

  leaf-IsAdvance :
      (h : Header) (s : Stream) (e e' : Extractor)
      → leaf lib files h s e ≡ going e'
      → IsAdvance
          (is_text lib h && not (begins_pdf s.bytes))
          (if is_document s then (file_name lib h, length s.bytes) ∷ [] else [])
          e
          e'
  leaf-IsAdvance h s e e' went =
      rw (← names_file-is_text lib h, ← has_magic-begins_pdf s.bytes, ← stays-is_document s)
        (leaf-stays h s e e' went)

  after-going :
      (o : Outcome) (k : Extractor → Outcome) (e' : Extractor)
      → after o k ≡ going e'
      → (e : Extractor) × (o ≡ going e) × (k e ≡ going e')
  unfolding after
  after-going (going e) k e' h = (e, refl, h)
  after-going (failed err e) k e' h = absurd-outcome h

  within_limit :
      (b : Bool) (err : WalkError) (e e' : Extractor) (o : Outcome)
      → (if b then failed err e else o) ≡ going e'
      → o ≡ going e'
  within_limit true err e e' o h = absurd-outcome h
  within_limit false err e e' o h = h

  unplain-going :
      (surprise plain : Bool) (e e' : Extractor)
      → not surprise ≡ plain
      → going (unplain surprise e) ≡ going e'
      → IsAdvance plain [] e e'
  unfolding unplain
  unplain-going surprise plain e e' h went = record {
    flag = ground (arith, h, went);
    stored = ground (arith, went, append_nil (contents e.pdfs));
  }

  -- The choice that `walk` makes by the header, for a part that is a leaf, a container without a
  -- boundary, or one whose parts are walked.
  choose-IsAdvance :
      (container blank leaf_plain parts_plain : Bool) (leaf_found parts_found : List Content)
      (on_leaf on_parts : Outcome) (e e' : Extractor)
      → (on_leaf ≡ going e' → IsAdvance leaf_plain leaf_found e e')
      → (on_parts ≡ going e' → IsAdvance parts_plain parts_found e e')
      → (if not container then on_leaf else if blank then going (unplain true e) else on_parts)
        ≡ going e'
      → IsAdvance
          (if not container then leaf_plain else not blank && parts_plain)
          (if not container then leaf_found else if blank then [] else parts_found)
          e
          e'
  choose-IsAdvance false blank p q xs ys o1 o2 e e' h1 h2 went = h1 went
  choose-IsAdvance true true p q xs ys o1 o2 e e' h1 h2 went =
      unplain-going true false e e' refl went
  choose-IsAdvance true false p q xs ys o1 o2 e e' h1 h2 went = h2 went

  mutual
    unfolding walk documents is_plain

    pub walk-IsAdvance :
        (n : Node) (depth : ℕ) (e e' : Extractor)
        → walk lib files n depth e ≡ going e'
        → IsAdvance (is_plain lib n) (documents lib n) e e'
    walk-IsAdvance (node h s ps) depth e e' went =
        let e1 = unplain (is_misread lib h) e in
        let found = if is_document s then (file_name lib h, length s.bytes) ∷ [] else [] in
        IsAdvance-trans (unplain-IsAdvance (is_misread lib h) e) (
          choose-IsAdvance (is_container lib h) (is_empty (lib.parse_media h.content_type).boundary)
            (is_text lib h && not (begins_pdf s.bytes)) (are_plain lib ps false) found
            (documents_of lib ps) (leaf lib files h s e1) (walk_parts lib files ps depth false e1)
            e1 e' (leaf-IsAdvance h s e1 e') (walk_parts-IsAdvance ps depth false e1 e')
            (within_limit (ltb max_depth depth) too_complex e e' _ went))

    walk_parts-IsAdvance :
        (ps : Parts) (depth : ℕ) (seen : Bool) (e e' : Extractor)
        → walk_parts lib files ps depth seen e ≡ going e'
        → IsAdvance (are_plain lib ps seen) (documents_of lib ps) e e'
    walk_parts-IsAdvance (ended clean) depth seen e e' went =
        unplain-going (not clean || not seen) (clean && seen) e e' (ground arith) went
    walk_parts-IsAdvance (part n ps) depth seen e e' went =
        let e1 = record e { parts = suc e.parts } in
        let (e2, first, rest) =
          after-going (walk lib files n (suc depth) e1) (λ x. walk_parts lib files ps depth true x)
            e' (within_limit (ltb max_parts e1.parts) too_complex e1 e' _ went) in
        let here = walk-IsAdvance n (suc depth) e1 e2 first in
        IsAdvance-trans (record { flag = here.flag; stored = here.stored })
          (walk_parts-IsAdvance ps depth true e2 e' rest)
