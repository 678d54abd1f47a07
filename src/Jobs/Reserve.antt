-- ===== src/Jobs/Reserve.antt =====
-- internal/jobs/store.go: reservations, from Reserve to the commit or the release, and Close.
-- What the operating system answers is an argument: a new id, whether a directory was made, and,
-- where a method unlocks the store between two critical sections, what the other goroutines do to
-- the store in that time.
use scan2graph.Prelude.{
  ℕ, ◌++◌, Bool, true, false, List, [], ◌∷◌, Option, none, some, Str, codes, map, if◌then◌else◌,
  add64, sub64, le64,
}
use scan2graph.Prelude.Dict.{lookup, put, delete}
use scan2graph.Jobs.Types.{
  Job, JobRecord, Reservation, Store, Staging, staging_open, capacity, closed, no_random,
  no_directory, reservation_gone, no_root, bad_ttl, bad_budget, Result, ok, err, DiskOp, remove_all,
}
use scan2graph.Jobs.Budget.{admits, make_room}

-- `filepath.Join` of a clean directory and a plain name.
unfoldable pub join_path : Str → Str → Str
join_path dir name = dir ++ codes "/" ++ name

-- `New`: `root` is what `filepath.Abs` makes of the option, and each Bool says whether a call of
-- the disk succeeds, in their order.
unfoldable pub new : Str → ℕ → ℕ → Option Str → Bool → Bool → Bool → Result Store
unfolding join_path
new option_root ttl max_bytes root root_made leftover_removed made = elim option_root [
  | [] ↦ err no_root
  | _ ∷ _ ↦
      if le64 ttl 0 then err bad_ttl else if le64 max_bytes 0 then err bad_budget else elim root [
        | none ↦ err no_directory
        | some r ↦
            if root_made
            then if leftover_removed
              then if made
                then ok (record {
                  dir = join_path r (codes "scan2graph");
                  ttl = ttl;
                  max_bytes = max_bytes;
                  jobs = [];
                  reservations = [];
                  used = 0;
                  closed = false;
                })
                else err no_directory
              else err no_directory
            else err no_directory
      ]
]

-- The first critical section of `Reserve`: the id of the new reservation.
unfoldable pub reserve_locked : Store → ℕ → Option Str → ℕ → Store × Result Str
unfolding join_path
reserve_locked s want none now =
    if s.closed
    then (s, err closed)
    else if admits s want
    then (s, err no_random)
    else (s, err capacity)
reserve_locked s want (some id) now =
    if s.closed
    then (s, err closed)
    else if admits s want
    then (
      record s {
        reservations =
            put id (record { dir = join_path s.dir id; reserved_at = now; bytes = want })
              s.reservations;
        used = add64 s.used want;
      },
      ok id,
    )
    else (s, err capacity)

release_found : Option Reservation → Store → Str → Store
release_found none s id = s
release_found (some r) s id = record s {
  used = sub64 s.used r.bytes;
  reservations = delete id s.reservations;
}

unfoldable pub release_reservation : Store → Str → Store
unfolding release_found
release_reservation s id = release_found (lookup id s.reservations) s id

-- The rest of `Reserve`, on the store as the other goroutines have left it.
reserve_rest : Str → Str → Bool → Store → Store × Result Staging × List DiskOp
unfolding release_reservation
reserve_rest id dir made s =
    if made
    then if s.closed
      then (release_reservation s id, err closed, remove_all dir ∷ [])
      else (s, ok (record { id = id; dir = dir; state = staging_open; files = [] }), [])
    else (release_reservation s id, err no_directory, [])

unfoldable pub reserve :
    Store → ℕ → Option Str → ℕ → Bool → (Store → Store) → Store × Result Staging × List DiskOp
unfolding reserve_locked reserve_rest
reserve s want new_id now made meanwhile =
    let (s', r) = reserve_locked s want new_id now in
    elim r [
      | err e ↦ (s', err e, [])
      | ok id ↦ reserve_rest id (join_path s.dir id) made (meanwhile s')
    ]

-- `dropEvicted`.
unfoldable pub drop_evicted : List JobRecord → List DiskOp
drop_evicted gone = map (λ rec. remove_all rec.dir) gone

commit_found :
    Option Reservation
    → Store
    → Str
    → Job
    → Str
    → List Str
    → Store × Result (Unit {0}) × List DiskOp
unfolding drop_evicted
commit_found none s id job dir files = (s, err reservation_gone, [])
commit_found (some r) s id job dir files =
    let (s', gone) = make_room (record s {
      reservations = delete id s.reservations;
      jobs = put job.id (record { job = job; dir = dir; bytes = r.bytes; files = files }) s.jobs;
    }) in
    (s', ok tt, drop_evicted gone)

unfoldable pub commit_reservation :
    Store → Str → Job → Str → List Str → Store × Result (Unit {0}) × List DiskOp
unfolding commit_found
commit_reservation s id job dir files =
    if s.closed
    then (s, err closed, [])
    else commit_found (lookup id s.reservations) s id job dir files

-- `Close`, when the disk obeys.
unfoldable pub close : Store → Store × List DiskOp
close s =
    if s.closed
    then (s, [])
    else (record s { closed = true; jobs = []; reservations = []; used = 0 }, remove_all s.dir ∷ [])
