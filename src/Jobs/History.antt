-- ===== src/Jobs/History.antt =====
-- The store under any interleaving of its methods: a step is one critical section.
use scan2graph.Prelude.{ℕ, ◌<◌, ◌≡◌, ◌≢◌, Bool, List, [], Option, none, some, Str, modulus, arith}
use scan2graph.Prelude.Dict.{lookup, total}
use scan2graph.Jobs.Types.{Status, pending, evicted, Job, Store, FileInfo, ok}
use scan2graph.Jobs.Reserve.{new, reserve_locked, release_reservation, commit_reservation, close}
use scan2graph.Jobs.Read.{clean_expired}
use scan2graph.Jobs.Update.{set_status, replace_document, register_file, delete_job}
use scan2graph.Jobs.Invariant.{Inv, charged}
use scan2graph.Jobs.Invariant.Reserve.{
  reserve_locked-Inv, release_reservation-Inv, commit_reservation-Inv, close-Inv,
}
use scan2graph.Jobs.Invariant.Update.{
  set_status-Inv, replace_document-Inv, register_file-Inv, delete_job-Inv,
}
use scan2graph.Jobs.Invariant.Sweep.{clean_expired-Inv}

-- A new id is one that the map does not have: 16 bytes of crypto/rand.
pub data Step (clean : Str → Str) (s t : Store) : Type 0 where
  reserves :
      (want : ℕ) (id : Option Str) (now : ℕ)
      → ((i : Str) → id ≡ some i → lookup i s.reservations ≡ none)
      → want < modulus
      → t ≡ (reserve_locked s want id now).0
      → Step clean s t
  releases : (id : Str) → t ≡ release_reservation s id → Step clean s t
  commits :
      (id : Str) (job : Job) (dir : Str) (files : List Str)
      → lookup job.id s.jobs ≡ none
      → job.status ≡ pending
      → job.error ≡ []
      → t ≡ (commit_reservation s id job dir files).0
      → Step clean s t
  sets_status :
      (id : Str) (st : Status) (msg : Str) (now : ℕ)
      → st ≢ evicted
      → t ≡ (set_status clean s id st msg now).0
      → Step clean s t
  replaces :
      (id doc_id path : Str) (ocr : Bool) (fi : FileInfo)
      → t ≡ (replace_document clean s id doc_id path ocr fi).0
      → Step clean s t
  registers : (id file : Str) → t ≡ (register_file s id file).0 → Step clean s t
  deletes : (id : Str) → t ≡ (delete_job s id).0 → Step clean s t
  sweeps : (now : ℕ) → t ≡ (clean_expired s now).0 → Step clean s t
  closes : t ≡ (close s).0 → Step clean s t

pub data Reach (clean : Str → Str) (s : Store) : Store → Type 0 where
  here : Reach clean s s
  next : {t u : Store} → Reach clean s t → Step clean t u → Reach clean s u

pub Step-Inv : {clean : Str → Str} {s t : Store} → Inv s → Step clean s t → Inv t
Step-Inv {s = s} v (reserves want id now fresh word e) =
    rw e (reserve_locked-Inv s want id now fresh word v)
Step-Inv {s = s} v (releases id e) = rw e (release_reservation-Inv s id v)
Step-Inv {s = s} v (commits id job dir files fresh new quiet e) =
    rw e (commit_reservation-Inv s id job dir files fresh new quiet v)
Step-Inv {clean = clean} {s = s} v (sets_status id st msg now live e) =
    rw e (set_status-Inv clean s id st msg now live v)
Step-Inv {clean = clean} {s = s} v (replaces id doc_id path ocr fi e) =
    rw e (replace_document-Inv clean s id doc_id path ocr fi v)
Step-Inv {s = s} v (registers id file e) = rw e (register_file-Inv s id file v)
Step-Inv {s = s} v (deletes id e) = rw e (delete_job-Inv s id v)
Step-Inv {s = s} v (sweeps now e) = rw e (clean_expired-Inv s now v)
Step-Inv {s = s} v (closes e) = rw e (close-Inv s v)

pub Reach-Inv : {clean : Str → Str} {s t : Store} → Inv s → Reach clean s t → Inv t
Reach-Inv v here = v
Reach-Inv v (next r st) = Step-Inv (Reach-Inv v r) st

pub new-Inv :
    (option_root : Str) (ttl max_bytes : ℕ) (root : Option Str) (a b c : Bool) {s : Store}
    → new option_root ttl max_bytes root a b c ≡ ok s
    → Inv s
unfolding new charged total
new-Inv option_root ttl max_bytes root a b c h = ground arith

-- Whatever methods run, and however their critical sections interleave, a store that New has made
-- keeps its books: the bytes in use are the sum (modulo 2 ^ 64) of what its jobs and reservations
-- are charged, tombstones hold nothing, finished jobs are charged for their documents, only failed
-- jobs have an error text, no two jobs or reservations share an id, and a closed store is empty.
-- The steps draw ids that are not in use, ask for an int64, enter jobs that are pending and have
-- no error text, and set no status to evicted.
pub new_store_keeps_books :
    (clean : Str → Str) (option_root : Str) (ttl max_bytes : ℕ) (root : Option Str) (a b c : Bool)
    {s t : Store}
    → new option_root ttl max_bytes root a b c ≡ ok s
    → Reach clean s t
    → Inv t
new_store_keeps_books clean option_root ttl max_bytes root a b c made reached =
    Reach-Inv (new-Inv option_root ttl max_bytes root a b c made) reached
