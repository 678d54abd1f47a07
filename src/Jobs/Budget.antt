-- ===== src/Jobs/Budget.antt =====
-- internal/jobs/store.go: what a job costs, admission, and making room.
pub mod Room
pub mod Held
use scan2graph.Prelude.{
  ℕ, ◌+◌, Bool, true, false, ◌&&◌, List, [], ◌∷◌, Option, none, some, Str, ltb, if◌then◌else◌,
  add64, sub64, le64, lt64, sort_by,
}
use scan2graph.Prelude.Dict.{Dict, put}
use scan2graph.Jobs.Types.{
  Status, pending, processing, ready, failed, evicted, Document, Job, JobRecord, Reservation, Store,
}

unfoldable pub finished : Status → Bool
finished ready = true
finished failed = true
finished _ = false

-- The sum of the documents' sizes, from `n`.
unfoldable pub add_doc_bytes : ℕ → List Document → ℕ
add_doc_bytes n [] = n
add_doc_bytes n (d ∷ ds) = add_doc_bytes (add64 n d.size) ds

unfoldable pub doc_bytes : List Document → ℕ
unfolding add_doc_bytes
doc_bytes docs = add_doc_bytes 0 docs

-- `s.charge(rec, n)` for the record that stands under `k`.
unfoldable pub charge : Str → JobRecord → ℕ → Store → Store
charge k rec n s = record s {
  used = add64 s.used (sub64 n rec.bytes);
  jobs = put k (record rec { bytes = n }) s.jobs;
}

-- The loop of `admitsLocked` over the jobs.
unfoldable pub add_freeable : ℕ → Dict JobRecord → ℕ
unfolding finished
add_freeable n [] = n
add_freeable n ((k, rec) ∷ m) =
    add_freeable (if finished rec.job.status then add64 n rec.bytes else n) m

unfoldable pub admits : Store → ℕ → Bool
unfolding add_freeable
admits s want =
    if le64 (add64 s.used want) s.max_bytes
    then true
    else le64 (add64 (sub64 s.used (add_freeable 0 s.jobs)) want) s.max_bytes

-- The loop of `makeRoomLocked` over the reservations.
unfoldable pub sub_reserved : ℕ → Dict Reservation → ℕ
sub_reserved held [] = held
sub_reserved held ((k, r) ∷ m) = sub_reserved (sub64 held r.bytes) m

unfoldable pub held : Store → ℕ
unfolding sub_reserved
held s = sub_reserved s.used s.reservations

unfoldable pub is_candidate : JobRecord → Bool
unfolding finished
is_candidate rec = lt64 0 rec.bytes && finished rec.job.status

unfoldable pub candidates : Dict JobRecord → List (Str × JobRecord)
unfolding is_candidate
candidates [] = []
candidates ((k, rec) ∷ m) = if is_candidate rec then (k, rec) ∷ candidates m else candidates m

unfoldable pub received_before : Str × JobRecord → Str × JobRecord → Bool
received_before (j, a) (k, b) = ltb a.job.received_at b.job.received_at

unfoldable pub tombstone : JobRecord → JobRecord
tombstone rec = record rec {
  job = record rec.job { status = evicted; error = []; documents = [] };
  files = [];
}

unfoldable pub evict : Str → JobRecord → Store → Store
unfolding tombstone charge
evict k rec s = charge k (tombstone rec) 0 s

-- The loop of `makeRoomLocked` over the sorted candidates.
unfoldable pub evict_until : ℕ → List (Str × JobRecord) → Store → Store × List JobRecord
unfolding evict
evict_until held [] s = (s, [])
evict_until held ((k, rec) ∷ cs) s =
    let (s', gone) = evict_until (sub64 held rec.bytes) cs (evict k rec s) in
    if le64 held s.max_bytes then (s, []) else (s', record (tombstone rec) { bytes = 0 } ∷ gone)

unfoldable pub make_room : Store → Store × List JobRecord
unfolding held candidates received_before evict_until
make_room s =
    if le64 (held s) s.max_bytes
    then (s, [])
    else evict_until (held s) (sort_by received_before (candidates s.jobs)) s
