-- ===== src/Pipeline/Recognized.antt =====
-- What the documents are after the OCR.
use scan2graph.Prelude.{
  ℕ, suc, ◌≡◌, ◌⊎◌, refl, inl, inr, true, false, List, [], ◌∷◌, Str, arith, Bool-cases,
  Option-cases, ◌∙◌, sym, ap, Option, some, none,
}
use scan2graph.Jobs.Types.{Document, Store, Error, Result, ok, err}
use scan2graph.Jobs.Update.{create_file, register_file, find_writable, replace_document}
use scan2graph.Pipeline.{
  Machine, at_create, in_create, at_replace, recognized, ocr_into, ocr_document, run_ocr,
}

-- What the OCR has made of the document with index `i`: it could be opened, the service and the
-- closing of the new file succeeded, and the document is the new file with its size.
pub record IsRecognized (m : Machine) (i : ℕ) (d d' : Document) : Type 0 where
  pub opened : m.opens d.path ≡ true
  pub made : m.temp i ≡ some d'.path
  pub searchable : m.recognizes i ≡ true
  pub measured : m.stat i ≡ some d'.size
  pub same_id : d'.id ≡ d.id
  pub same_name : d'.display_name ≡ d.display_name
  pub applied : d'.ocr_applied ≡ true

-- Two lists of documents, of which each of the second is made of the one in its place.
unfoldable pub AreRecognized : Machine → ℕ → List Document → List Document → Type 0
AreRecognized m i [] [] = Unit
AreRecognized m i [] (d' ∷ ds') = true ≡ false
AreRecognized m i (d ∷ ds) [] = true ≡ false
AreRecognized m i (d ∷ ds) (d' ∷ ds') = IsRecognized m i d d' × AreRecognized m (suc i) ds ds'

some_injective {ℓ} : {A : Type ℓ} {x y : A} → some x ≡ some y → x ≡ y
some_injective h = cc

register_file-ok :
    (s : Store) (id temp file : Str) → (register_file s id temp).1 ≡ ok file → temp ≡ file
unfolding register_file
register_file-ok s id temp file h = ground (arith, h)

create_file-temp :
    (s : Store) (id : Str) (temp : Option Str) (meanwhile : Store → Store) (file : Str)
    → (create_file s id temp meanwhile).1 ≡ ok file
    → temp ≡ some file
unfolding create_file
create_file-temp s id none meanwhile file h = elim (Option-cases (find_writable s id)) [
  | inl e ↦ ground (arith, h, e)
  | inr (rec, e) ↦ ground (arith, h, e)
]
create_file-temp s id (some temp) meanwhile file h = elim (Option-cases (find_writable s id)) [
  | inl e ↦ ground (arith, h, e)
  | inr (rec, e) ↦ ap some (register_file-ok (meanwhile s) id temp file (rw (e, create_file) at h))
]

recognized-IsRecognized :
    (m : Machine) (i : ℕ) (d d' : Document) (file : Str) (o : Result (Unit {0})) (n : Option ℕ)
    → m.opens d.path ≡ true
    → m.temp i ≡ some file
    → m.recognizes i ≡ true
    → m.stat i ≡ n
    → recognized d file o n ≡ some d'
    → IsRecognized m i d d'
unfolding recognized
recognized-IsRecognized m i d d' file (ok u) (some n) opened made fine size h =
    let same = some_injective h in
    record {
      opened = opened;
      made = made ∙ ap (λ (x : Document). some x.path) same;
      searchable = fine;
      measured = size ∙ ap (λ (x : Document). some x.size) same;
      same_id = sym (ap (λ (x : Document). x.id) same);
      same_name = sym (ap (λ (x : Document). x.display_name) same);
      applied = sym (ap (λ (x : Document). x.ocr_applied) same);
    }
recognized-IsRecognized m i d d' file (ok u) none opened made fine size h = cc
recognized-IsRecognized m i d d' file (err e) (some n) opened made fine size h = cc
recognized-IsRecognized m i d d' file (err e) none opened made fine size h = cc

ocr_into-IsRecognized :
    (m : Machine) (id : Str) (i : ℕ) (d d' : Document) (s : Store) (made : Result Str)
    → m.opens d.path ≡ true
    → ((file : Str) → made ≡ ok file → m.temp i ≡ some file)
    → (ocr_into m id i d s made).1 ≡ some d'
    → IsRecognized m i d d'
unfolding ocr_into
ocr_into-IsRecognized m id i d d' s (err e) opened temp h = cc
ocr_into-IsRecognized m id i d d' s (ok file) opened temp h = elim (Bool-cases (m.recognizes i)) [
  | inl e ↦
      recognized-IsRecognized m i d d' file _ (m.stat i) opened (temp file refl) e refl (rw e at h)
  | inr e ↦ ground (arith, h, e)
]

ocr_document-IsRecognized :
    (m : Machine) (id : Str) (i : ℕ) (d d' : Document) (s : Store)
    → (ocr_document m id i d s).1 ≡ some d'
    → IsRecognized m i d d'
unfolding ocr_document
ocr_document-IsRecognized m id i d d' s h = elim (Bool-cases (m.opens d.path)) [
  | inl e ↦
      ocr_into-IsRecognized m id i d d' _ _ e
        (λ file made.
          create_file-temp (m.meanwhile (at_create i) s) id (m.temp i) (m.meanwhile (in_create i))
            file made)
        (rw e at h)
  | inr e ↦ ground (arith, h, e)
]

pub run_ocr-AreRecognized :
    (m : Machine) (id : Str) (i : ℕ) (ds : List Document) (s : Store)
    → (run_ocr m id i ds s).1 ≡ true
    → AreRecognized m i ds (run_ocr m id i ds s).2
unfolding run_ocr AreRecognized
run_ocr-AreRecognized m id i [] s h = tt
run_ocr-AreRecognized m id i (d ∷ ds) s h = elim (Option-cases (ocr_document m id i d s).1) [
  | inl e ↦ ground (arith, h, e)
  | inr (d', e) ↦
      rw (e, run_ocr)
        (
          ocr_document-IsRecognized m id i d d' s e,
          run_ocr-AreRecognized m id (suc i) ds (ocr_document m id i d s).0 (rw (e, run_ocr) at h),
        )
]

-- Why the OCR of a document fails: it cannot be opened, CreateFile refuses, the service or the
-- closing of the new file fails, ReplaceDocument refuses, or the new file has no size.
abbrev pub Fails : Machine → Str → ℕ → Document → Store → Type 0
Fails m id i d s =
    let made =
      create_file (m.meanwhile (at_create i) s) id (m.temp i) (m.meanwhile (in_create i)) in
    (m.opens d.path ≡ false)
    ⊎ ((e : Error) × (made.1 ≡ err e))
    ⊎ (m.recognizes i ≡ false)
    ⊎ ((file : Str) × (e : Error) × (made.1 ≡ ok file)
        × ((replace_document m.clean (m.meanwhile (at_replace i) made.0) id d.id file true
              (m.lstat i)).1
            ≡ err e))
    ⊎ (m.stat i ≡ none)

-- One of the documents fails, in the store that the rounds before it leave.
unfoldable pub SomeFails : Machine → Str → ℕ → List Document → Store → Type 0
SomeFails m id i [] s = true ≡ false
SomeFails m id i (d ∷ ds) s =
    Fails m id i d s ⊎ SomeFails m id (suc i) ds (ocr_document m id i d s).0

recognized-none :
    (d : Document) (file : Str) (o : Result (Unit {0})) (n : Option ℕ)
    → recognized d file o n ≡ none
    → ((e : Error) × (o ≡ err e)) ⊎ (n ≡ none)
unfolding recognized
recognized-none d file (ok u) (some n) h = cc
recognized-none d file (ok u) none h = inr refl
recognized-none d file (err e) n h = inl (e, refl)

ocr_into-none :
    (m : Machine) (id : Str) (i : ℕ) (d : Document) (s : Store) (made : Result Str)
    → (ocr_into m id i d s made).1 ≡ none
    → ((e : Error) × (made ≡ err e))
      ⊎ (m.recognizes i ≡ false)
      ⊎ ((file : Str) × (e : Error) × (made ≡ ok file)
          × ((replace_document m.clean
                (m.meanwhile (at_replace i) s)
                id
                d.id
                file
                true
                (m.lstat i)).1
              ≡ err e))
      ⊎ (m.stat i ≡ none)
unfolding ocr_into
ocr_into-none m id i d s (err e) h = inl (e, refl)
ocr_into-none m id i d s (ok file) h = elim (Bool-cases (m.recognizes i)) [
  | inr e ↦ inr (inl e)
  | inl e ↦ elim (recognized-none d file _ (m.stat i) (rw (e, ocr_into) at h)) [
    | inl (why, refused) ↦ inr (inr (inl (file, why, refl, refused)))
    | inr sizeless ↦ inr (inr (inr sizeless))
  ]
]

ocr_document-Fails :
    (m : Machine) (id : Str) (i : ℕ) (d : Document) (s : Store)
    → (ocr_document m id i d s).1 ≡ none
    → Fails m id i d s
unfolding ocr_document
ocr_document-Fails m id i d s h = elim (Bool-cases (m.opens d.path)) [
  | inr e ↦ inl e
  | inl e ↦ inr (ocr_into-none m id i d _ _ (rw (e, ocr_document) at h))
]

pub run_ocr-SomeFails :
    (m : Machine) (id : Str) (i : ℕ) (ds : List Document) (s : Store)
    → (run_ocr m id i ds s).1 ≡ false
    → SomeFails m id i ds s
unfolding run_ocr SomeFails
run_ocr-SomeFails m id i [] s h = h
run_ocr-SomeFails m id i (d ∷ ds) s h = elim (Option-cases (ocr_document m id i d s).1) [
  | inl e ↦ inl (ocr_document-Fails m id i d s e)
  | inr (d', e) ↦
      inr (run_ocr-SomeFails m id (suc i) ds (ocr_document m id i d s).0 (rw (e, run_ocr) at h))
]
