-- ===== src/Jobs/Read.antt =====
-- internal/jobs/store.go: what a reader sees, and the sweep of what has expired.
use scan2graph.Prelude.{
  ℕ, ◌+◌, ◌++◌, ◌-◌, ◌/◌, Bool, true, false, not, ◌&&◌, ◌||◌, List, [], ◌∷◌, Option, none, some,
  Str, ltb, ◌==◌, if◌then◌else◌, sub64, add64, contains, sort_by, length, is_empty, filter_by,
}
use scan2graph.Prelude.Dict.{Dict, lookup}
use scan2graph.Jobs.Types.{
  Status, pending, processing, Job, JobRecord, Reservation, Store, DiskOp, remove_all,
  stale_reservation_after,
}

live_at : Status → ℕ → ℕ → Bool
live_at pending expires now = true
live_at processing expires now = true
live_at _ expires now = ltb now expires

unfoldable pub live : Job → ℕ → Bool
unfolding live_at
live j now = live_at j.status j.expires_at now

unfoldable pub get : Store → Str → ℕ → Option Job
get s id now = elim (lookup id s.jobs) [
  | none ↦ none
  | some rec ↦ if live rec.job now then some rec.job else none
]

-- Whether one of the recipients is wanted: the inner loop of `ListForUser`.
unfoldable pub is_recipient : List Str → List Str → Bool
is_recipient want [] = false
is_recipient want (r ∷ rs) = if contains r want then true else is_recipient want rs

unfoldable pub is_listed : List Str → ℕ → Job → Bool
unfolding is_recipient
is_listed want now j = j.caps.web && live j now && is_recipient want j.recipients

unfoldable pub listed : List Str → ℕ → Dict JobRecord → List Job
unfolding is_listed
listed want now [] = []
listed want now ((k, rec) ∷ m) =
    if is_listed want now rec.job then rec.job ∷ listed want now m else listed want now m

unfoldable pub received_after : Job → Job → Bool
received_after a b = ltb b.received_at a.received_at

unfoldable pub list_for_user : Store → List Str → ℕ → List Job
unfolding listed received_after
list_for_user s identities now =
    let want = filter_by (λ (i : Str). not (is_empty i)) identities in
    if is_empty want then [] else sort_by received_after (listed want now s.jobs)

-- The loop of `CleanExpired` over the jobs: those kept, `used`, and the directories to remove.
unfoldable pub sweep_jobs : ℕ → ℕ → Dict JobRecord → Dict JobRecord × ℕ × List DiskOp
sweep_jobs now used [] = ([], used, [])
sweep_jobs now used ((k, rec) ∷ m) =
    let (kept, used', gone) =
      sweep_jobs now (if live rec.job now then used else add64 used (sub64 0 rec.bytes)) m in
    if live rec.job now
    then ((k, rec) ∷ kept, used', gone)
    else (kept, used', remove_all rec.dir ∷ gone)

unfoldable pub is_stale : ℕ → Reservation → Bool
is_stale now r = ltb stale_reservation_after (now - r.reserved_at)

-- The loop of `CleanExpired` over the reservations.
unfoldable pub sweep_reservations : ℕ → ℕ → Dict Reservation → Dict Reservation × ℕ × List DiskOp
unfolding is_stale
sweep_reservations now used [] = ([], used, [])
sweep_reservations now used ((k, r) ∷ m) =
    let (kept, used', gone) =
      sweep_reservations now (if is_stale now r then sub64 used r.bytes else used) m in
    if is_stale now r then (kept, used', remove_all r.dir ∷ gone) else ((k, r) ∷ kept, used', gone)

-- The store, the number of jobs removed, and what is asked of the disk.
unfoldable pub clean_expired : Store → ℕ → Store × ℕ × List DiskOp
unfolding sweep_jobs sweep_reservations
clean_expired s now =
    let (jobs, used, expired) = sweep_jobs now s.used s.jobs in
    let (reservations, used', leaked) = sweep_reservations now used s.reservations in
    (
      record s { jobs = jobs; reservations = reservations; used = used' },
      length expired,
      expired ++ leaked,
    )

-- The interval of the ticker of `Run`, and `Len`.
abbrev pub minute : ℕ
minute = 60000000000

unfoldable pub run_interval : ℕ → ℕ
run_interval ttl = let i = ttl / 4 in if i == 0 || ltb minute i then minute else i

unfoldable pub len : Store → ℕ
len s = length s.jobs + length s.reservations
