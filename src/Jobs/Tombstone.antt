-- ===== src/Jobs/Tombstone.antt =====
-- What becomes of one job's record: by making room, and once it is a tombstone.
use scan2graph.Prelude.{
  ◌≡◌, ◌⊎◌, inl, inr, refl, true, false, [], none, some, Str, str_eq, str_eq_iff, arith, contains,
}
use scan2graph.Prelude.Dict.{
  lookup, put, Unique, Unique-put, lookup-put, lookup-delete, lookup-retain, Every-lookup,
}
use scan2graph.Jobs.Types.{evicted, JobRecord, Store}
use scan2graph.Jobs.Budget.{finished, is_candidate, tombstone, charge, evict, make_room}
use scan2graph.Jobs.Budget.Room.{make_room-keeps}
use scan2graph.Jobs.Cases.{
  rewritten, release_cases, commit_cases, set_status_cases, replace_cases, register_cases,
  delete_cases,
}
use scan2graph.Jobs.Invariant.{Inv, IsSound}
use scan2graph.Jobs.Invariant.Sweep.{is_live, clean_expired-jobs}
use scan2graph.Jobs.Reserve.{reserve_locked, close}
use scan2graph.Jobs.Update.{is_evicted}
use scan2graph.Jobs.History.{
  Step, reserves, releases, commits, sets_status, replaces, registers, deletes, sweeps, closes,
}

-- A record that has given way: only what describes the job is left.
abbrev pub grave : JobRecord → JobRecord
grave rec = record {
  job = record {
    id = rec.job.id;
    received_at = rec.job.received_at;
    expires_at = rec.job.expires_at;
    profile = rec.job.profile;
    caps = rec.job.caps;
    subject = rec.job.subject;
    recipients = rec.job.recipients;
    documents = [];
    status = evicted;
    error = [];
  };
  dir = rec.dir;
  bytes = 0;
  files = [];
}

-- What making room does to a record: nothing, or it buries a finished job.
abbrev pub Survives : Str → JobRecord → Store → Type 0
Survives id rec t =
    (lookup id t.jobs ≡ some rec)
    ⊎ ((lookup id t.jobs ≡ some (grave rec)) × (finished rec.job.status ≡ true))

pub evict-Survives :
    (id : Str) (rec : JobRecord) (k : Str) (r : JobRecord) (s : Store)
    → lookup k s.jobs ≡ some r
    → is_candidate r ≡ true
    → Survives id rec s
    → Survives id rec (evict k r s)
unfolding evict charge is_candidate tombstone finished
evict-Survives id rec k r s found c (inl h) =
    ground (arith, lookup-put k id (grave r) s.jobs, str_eq_iff k id)
evict-Survives id rec k r s found c (inr h) =
    ground (arith, lookup-put k id (grave r) s.jobs, str_eq_iff k id)

-- makeRoomLocked leaves every record as it is, or buries it. Then it was of a finished job; its status
-- is evicted, its documents, its files, its error text and its cost are gone, and its id, times,
-- profile, subject, recipients and directory are what they were. Ids are distinct.
pub make_room-Survives :
    (id : Str) (rec : JobRecord) (s : Store)
    → Unique s.jobs
    → lookup id s.jobs ≡ some rec
    → Survives id rec (make_room s).0
make_room-Survives id rec s u found =
    make_room-keeps (Survives id rec) (evict-Survives id rec) s u (inl found)

-- A tombstone is as it was, or gone.
abbrev pub Final : Str → JobRecord → Store → Type 0
Final id rec t = (lookup id t.jobs ≡ some rec) ⊎ (lookup id t.jobs ≡ none)

Final-make_room :
    (id : Str) (rec : JobRecord) (t : Store)
    → rec.job.status ≡ evicted
    → Unique t.jobs
    → lookup id t.jobs ≡ some rec
    → Final id rec (make_room t).0
unfolding finished
Final-make_room id rec t buried u found = ground (arith, make_room-Survives id rec t u found)

lookup-put_ne :
    (id k : Str) (rec new : JobRecord) (s : Store)
    → str_eq k id ≡ false
    → lookup id s.jobs ≡ some rec
    → lookup id (put k new s.jobs) ≡ some rec
lookup-put_ne id k rec new s other found = rw (lookup-put k id new s.jobs, other) found

-- Two records of one map, of which one is a tombstone and the other is not, have different ids.
not_evicted-ne :
    (id k : Str) (rec r : JobRecord) (s : Store)
    → lookup id s.jobs ≡ some rec
    → rec.job.status ≡ evicted
    → lookup k s.jobs ≡ some r
    → is_evicted r.job.status ≡ false
    → str_eq k id ≡ false
unfolding is_evicted
not_evicted-ne id k rec r s found buried there live = ground (arith, str_eq_iff k id)

-- A tombstone has no files.
not_evicted_of_file :
    (r : JobRecord) (path : Str)
    → IsSound r
    → contains path r.files ≡ true
    → is_evicted r.job.status ≡ false
unfolding contains is_evicted
not_evicted_of_file r path sound own = ground arith

module _ (clean : Str → Str) {s : Store} (id : Str) (rec : JobRecord) (v : Inv s)
    (found : lookup id s.jobs ≡ some rec) (buried : rec.job.status ≡ evicted) where
  room-Final :
      (i : Str) (new r : JobRecord) (t : Store)
      → lookup i s.jobs ≡ some r
      → is_evicted r.job.status ≡ false
      → t.jobs ≡ put i new s.jobs
      → Final id rec (make_room t).0
  room-Final i new r t there live e =
      Final-make_room id rec t buried (rw e (Unique-put i new s.jobs v.unique_jobs)) (
        rw e (
          lookup-put_ne id i rec new s (not_evicted-ne id i rec r s found buried there live) found))

  unburied :
      (i : Str) (r : JobRecord) (path : Str)
      → lookup i s.jobs ≡ some r
      → contains (clean path) r.files ≡ true
      → is_evicted r.job.status ≡ false
  unburied i r path there own =
      not_evicted_of_file r (clean path) (Every-lookup IsSound i s.jobs v.sound there) own

  put-Final :
      (i : Str) (new r : JobRecord)
      → lookup i s.jobs ≡ some r
      → is_evicted r.job.status ≡ false
      → Final id rec (rewritten s i new)
  put-Final i new r there live =
      inl (lookup-put_ne id i rec new s (not_evicted-ne id i rec r s found buried there live) found)

  -- Whatever is done to the store, a tombstone stays exactly what it is until it is removed: no
  -- step of the store gives it files, documents or another status. The store keeps its books.
  pub tombstone_stays : {t : Store} → Step clean s t → Final id rec t
  unfolding reserve_locked close lookup charge
  tombstone_stays (reserves want none now fresh word e) = rw e (ground arith)
  tombstone_stays (reserves want (some i) now fresh word e) = rw e (ground arith)
  tombstone_stays (releases i e) =
      rw e (release_cases (Final id rec) s i (inl found) (λ r _. inl found))
  tombstone_stays (commits i job dir files fresh new quiet e) = rw e (
      commit_cases (Final id rec) s i job dir files (inl found) (λ r _ _.
        Final-make_room id rec _ buried (Unique-put job.id _ s.jobs v.unique_jobs)
          (lookup-put_ne id job.id rec _ s (ground (arith, str_eq_iff job.id id)) found)))
  tombstone_stays (sets_status i st msg now live e) = rw e (
      set_status_cases (Final id rec) s clean i st msg now (inl found)
        (λ r there live' _. room-Final i _ r _ there live' refl)
        (λ r there live' _. put-Final i _ r there live'))
  tombstone_stays (replaces i doc_id path ocr fi e) = rw e (
      replace_cases (Final id rec) s clean i doc_id path ocr fi (inl found)
        (λ r size docs there _ own _. room-Final i _ r _ there (unburied i r path there own.0) refl)
        (λ r size docs there _ own _. put-Final i _ r there (unburied i r path there own.0)))
  tombstone_stays (registers i file e) = rw e (
      register_cases (Final id rec) s i file (inl found)
        (λ r there live'. put-Final i _ r there live'))
  tombstone_stays (deletes i e) = rw e (
      delete_cases (Final id rec) s i (inl found)
        (λ r there. ground (arith, lookup-delete i id s.jobs v.unique_jobs)))
  tombstone_stays (sweeps now e) =
      rw (e, clean_expired-jobs)
        (ground (arith, lookup-retain id (is_live now) s.jobs v.unique_jobs))
  tombstone_stays (closes e) = rw e (ground arith)
