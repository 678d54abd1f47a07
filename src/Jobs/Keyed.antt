-- ===== src/Jobs/Keyed.antt =====
-- Under which id a job stands in the map.
use scan2graph.Prelude.{
  ◌≡◌, refl, sym, ap, ◌∙◌, subst, true, false, some, none, Str, str_eq, str_eq_iff, arith, Option,
  Bool-cases, inl, inr, if◌then◌else◌, ℕ, Bool,
}
use scan2graph.Prelude.Dict.{
  Dict, lookup, put, delete, Unique, Unique-put, lookup-put, lookup-delete, lookup-retain,
}
use scan2graph.Jobs.Types.{JobRecord, Store, ok}
use scan2graph.Jobs.Budget.{tombstone, charge, evict, make_room}
use scan2graph.Jobs.Budget.Room.{make_room-keeps}
use scan2graph.Jobs.Cases.{
  release_cases, commit_cases, set_status_cases, replace_cases, register_cases, delete_cases,
}
use scan2graph.Jobs.Invariant.{Inv}
use scan2graph.Jobs.Invariant.Sweep.{is_live, clean_expired-jobs}
use scan2graph.Jobs.Reserve.{reserve_locked, close, new}
use scan2graph.Jobs.Update.{with_status, settle, with_documents}
use scan2graph.Jobs.History.{
  Step, Reach, here, next, reserves, releases, commits, sets_status, replaces, registers, deletes,
  sweeps, closes, Reach-Inv,
}

abbrev pub IsKeyed : Dict JobRecord → Type 0
IsKeyed m = (id : Str) (rec : JobRecord) → lookup id m ≡ some rec → rec.job.id ≡ id

some_injective : {x y : JobRecord} → some x ≡ some y → x ≡ y
some_injective h = cc

put-IsKeyed :
    (k : Str) (new : JobRecord) (m : Dict JobRecord)
    → new.job.id ≡ k
    → IsKeyed m
    → IsKeyed (put k new m)
put-IsKeyed k new m e keyed id rec h =
    by_key (str_eq k id) (str_eq_iff k id).0 (sym (lookup-put k id new m) ∙ h)
  where
    by_key :
        (b : Bool)
        → (b ≡ true → k ≡ id)
        → (if b then some new else lookup id m) ≡ some rec
        → rec.job.id ≡ id
    by_key true same g = ap (λ (r : JobRecord). r.job.id) (sym (some_injective g)) ∙ e ∙ same refl
    by_key false same g = keyed id rec g

make_room-IsKeyed : (s : Store) → Unique s.jobs → IsKeyed s.jobs → IsKeyed (make_room s).0.jobs
unfolding evict charge tombstone
make_room-IsKeyed s u keyed =
    make_room-keeps (λ t. IsKeyed t.jobs)
      (λ k rec t found c h. put-IsKeyed k _ t.jobs (h k rec found) h) s u keyed

kept-lookup :
    (id : Str) (rec : JobRecord) (now : ℕ) (m : Dict JobRecord)
    → Unique m
    → lookup id (scan2graph.Prelude.Dict.retain (is_live now) m) ≡ some rec
    → lookup id m ≡ some rec
kept-lookup id rec now m u h = ground (arith, h, lookup-retain id (is_live now) m u)

close-IsKeyed : (s : Store) → IsKeyed s.jobs → IsKeyed (close s).0.jobs
unfolding close lookup
close-IsKeyed s keyed = elim (Bool-cases s.closed) [
  | inl e ↦ rw e keyed
  | inr e ↦ rw e (λ id rec h. cc)
]

module _ (clean : Str → Str) {s : Store} (v : Inv s) (keyed : IsKeyed s.jobs) where
  room-IsKeyed :
      (i : Str) (new r : JobRecord) (t : Store)
      → lookup i s.jobs ≡ some r
      → new.job.id ≡ r.job.id
      → t.jobs ≡ put i new s.jobs
      → IsKeyed (make_room t).0.jobs
  room-IsKeyed i new r t there same e =
      make_room-IsKeyed t (rw e (Unique-put i new s.jobs v.unique_jobs))
        (rw e (put-IsKeyed i new s.jobs (same ∙ keyed i r there) keyed))

  Step-IsKeyed : {t : Store} → Step clean s t → IsKeyed t.jobs
  unfolding reserve_locked close charge with_status settle with_documents
  Step-IsKeyed (reserves want none now fresh word e) = rw e (ground (arith, keyed))
  Step-IsKeyed (reserves want (some i) now fresh word e) = rw e (ground (arith, keyed))
  Step-IsKeyed (releases i e) = rw e (release_cases (λ t. IsKeyed t.jobs) s i keyed (λ r _. keyed))
  Step-IsKeyed (commits i job dir files fresh waits quiet e) = rw e (
      commit_cases (λ t. IsKeyed t.jobs) s i job dir files keyed
        (λ r _ _.
          make_room-IsKeyed _ (Unique-put job.id _ s.jobs v.unique_jobs)
            (put-IsKeyed job.id _ s.jobs refl keyed)))
  Step-IsKeyed (sets_status i st msg now live e) = rw e (
      set_status_cases (λ t. IsKeyed t.jobs) s clean i st msg now keyed
        (λ r there _ _. room-IsKeyed i _ r _ there refl refl)
        (λ r there _ _. put-IsKeyed i _ s.jobs (keyed i r there) keyed))
  Step-IsKeyed (replaces i doc_id path ocr fi e) = rw e (
      replace_cases (λ t. IsKeyed t.jobs) s clean i doc_id path ocr fi keyed
        (λ r size docs there _ _ _. room-IsKeyed i _ r _ there refl refl)
        (λ r size docs there _ _ _. put-IsKeyed i _ s.jobs (keyed i r there) keyed))
  Step-IsKeyed (registers i file e) = rw e (
      register_cases (λ t. IsKeyed t.jobs) s i file keyed
        (λ r there _. put-IsKeyed i _ s.jobs (keyed i r there) keyed))
  Step-IsKeyed (deletes i e) = rw e (
      delete_cases (λ t. IsKeyed t.jobs) s i keyed
        (λ r there id rec h.
          keyed id rec (ground (arith, h, lookup-delete i id s.jobs v.unique_jobs))))
  Step-IsKeyed (sweeps now e) =
      rw (e, clean_expired-jobs)
        (λ id rec h. keyed id rec (kept-lookup id rec now s.jobs v.unique_jobs h))
  Step-IsKeyed (closes e) = rw e (close-IsKeyed s keyed)

pub Reach-IsKeyed :
    {clean : Str → Str} {s t : Store} → Inv s → IsKeyed s.jobs → Reach clean s t → IsKeyed t.jobs
Reach-IsKeyed v keyed here = keyed
Reach-IsKeyed {clean = clean} v keyed (next r st) =
    Step-IsKeyed clean (Reach-Inv v r) (Reach-IsKeyed v keyed r) st

pub new-IsKeyed :
    (option_root : Str) (ttl max_bytes : ℕ) (root : Option Str) (a b c : Bool) {s : Store}
    → new option_root ttl max_bytes root a b c ≡ ok s
    → IsKeyed s.jobs
unfolding new lookup
new-IsKeyed option_root ttl max_bytes root a b c h id rec found = ground (arith, h, found)
