-- ===== src/Jobs/Stage/Settle.antt =====
-- What Commit and Abort do to the store.
use scan2graph.Prelude.{
  ap, Unicode, ℕ, ◌≡◌, refl, false, List, [], Option, some, none, Str, arith, Bool-cases, inl, inr,
  length, str_eq, str_eq_iff, str_eq_refl,
}
use scan2graph.Prelude.Dict.{lookup, lookup-ne-nil, Unique, lookup-put, lookup-delete, Unique-put}
use scan2graph.Jobs.Types.{
  pending, NewJob, Job, JobRecord, Reservation, Store, Staging, staging_open, staging_committed,
  Error, ok, err, FileInfo,
}
use scan2graph.Jobs.Budget.{tombstone, finished, charge, evict, make_room}
use scan2graph.Jobs.Budget.Room.{make_room-keeps}
use scan2graph.Jobs.Tombstone.{make_room-Survives}
use scan2graph.Jobs.Cases.{moved}
use scan2graph.Jobs.Invariant.{Inv}
use scan2graph.Jobs.Invariant.Reserve.{moved-Inv}
use scan2graph.Jobs.Invariant.Room.{make_room-Inv}
use scan2graph.Jobs.Stage.Protocol.{Describes, commit_in_ok, commit_in_err}
use scan2graph.Jobs.Stage.{make_job, commit}

make_room-reservations : (s : Store) → Unique s.jobs → (make_room s).0.reservations ≡ s.reservations
unfolding evict charge
make_room-reservations s u =
    make_room-keeps (λ t. t.reservations ≡ s.reservations) (λ k rec t found c h. h) s u refl

moved_job :
    (s : Store) (id : Str) (r : Reservation) (job : Job) (dir : Str) (files : List Str)
    → lookup job.id s.jobs ≡ none
    → job.status ≡ pending
    → Inv s
    → let t = (make_room (moved s id r job dir files)).0 in
      (lookup id t.reservations ≡ none)
      × (lookup job.id t.jobs
          ≡ some (record { job = job; dir = dir; bytes = r.bytes; files = files }))
unfolding finished
moved_job s id r job dir files fresh new v =
    let rec : JobRecord = record { job = job; dir = dir; bytes = r.bytes; files = files } in
    let u = Unique-put job.id rec s.jobs v.unique_jobs in
    (
      rw (make_room-reservations (moved s id r job dir files) u) (
          ground (arith, lookup-delete id id s.reservations v.unique_reservations, str_eq_refl id)),
      ground (
        arith,
        make_room-Survives job.id rec (moved s id r job dir files) u,
        lookup-put job.id job.id rec s.jobs,
        str_eq_refl job.id,
      ),
    )

opened_of_reservation :
    (s : Store) (id : Str) {r : Reservation}
    → Inv s
    → lookup id s.reservations ≡ some r
    → s.closed ≡ false
opened_of_reservation s id v e = elim (Bool-cases s.closed) [
  | inl c ↦ absurd (lookup-ne-nil id s.reservations e (v.emptied c).1)
  | inr c ↦ c
]

evict-absent :
    (id k : Str) (rec : JobRecord) (s : Store)
    → lookup k s.jobs ≡ some rec
    → lookup id s.jobs ≡ none
    → lookup id (evict k rec s).jobs ≡ none
unfolding evict charge
evict-absent id k rec s found h =
    ground (arith, lookup-put k id (record (tombstone rec) { bytes = 0 }) s.jobs, str_eq_iff k id)

moved_absent :
    (s : Store) (id : Str) (r : Reservation) (job : Job) (dir : Str) (files : List Str) (k : Str)
    → str_eq job.id k ≡ false
    → lookup k s.jobs ≡ none
    → Inv s
    → lookup k (make_room (moved s id r job dir files)).0.jobs ≡ none
moved_absent s id r job dir files k ne h v =
    make_room-keeps (λ t. lookup k t.jobs ≡ none)
      (λ j rec t found _ h. evict-absent k j rec t found h) (moved s id r job dir files)
      (Unique-put job.id _ s.jobs v.unique_jobs) (rw (lookup-put job.id k _ s.jobs, ne) h)

module _ (u : Unicode) (clean : Str → Str) (s : Store) (st : Staging) (n : NewJob)
    (lstat : Str → FileInfo) (new_id : ℕ → Option Str) (now : ℕ) where
  -- A Commit that fails, for whatever reason, changes neither the store nor the staging, and asks
  -- nothing of the disk: the caller can still Abort.
  pub commit_error_keeps :
      {x : Error}
      → (commit u clean s st n lstat new_id now).2 ≡ err x
      → ((commit u clean s st n lstat new_id now).0 ≡ s)
        × ((commit u clean s st n lstat new_id now).1 ≡ st)
        × ((commit u clean s st n lstat new_id now).3 ≡ [])
  unfolding commit
  commit_error_keeps h = commit_in_err st.state u clean s st n lstat new_id now h

  -- A Commit that succeeds was of an open staging that held a reservation, and closes it. The
  -- reservation is gone; the job is in the store as make_job builds it, at the reservation's cost, with the files
  -- of the staging; and its documents are those that were asked for, each a regular file that the
  -- staging created. The store keeps its books and the job's id is new.
  pub commit_enters_job :
      {job : Job}
      → Inv s
      → ((k : Str) → new_id (length n.documents) ≡ some k → lookup k s.jobs ≡ none)
      → (commit u clean s st n lstat new_id now).2 ≡ ok job
      → let t = (commit u clean s st n lstat new_id now).0 in
        (st.state ≡ staging_open)
        × ((commit u clean s st n lstat new_id now).1.state ≡ staging_committed)
        × (r : Reservation) × (lookup st.id s.reservations ≡ some r)
        × (lookup st.id t.reservations ≡ none)
        × (lookup job.id t.jobs
            ≡ some (record { job = job; dir = st.dir; bytes = r.bytes; files = st.files }))
        × (job ≡ make_job u job.id now s.ttl n job.documents)
        × Describes u clean st.files lstat n.documents job.documents
  unfolding commit
  commit_enters_job {job} v fresh h =
      let (opened, closed, r, e, t, i, j, fits) =
        commit_in_ok st.state u clean s st n lstat new_id now refl h in
      let new : job.status ≡ pending = unfold make_job in ap (λ x. x.status) j in
      let (gone, here) = moved_job s st.id r job st.dir st.files (fresh job.id i) new v in
      (opened, ap (λ x. x.state) closed, r, e, rw t gone, rw t here, j, fits)

  -- The store after a Commit that succeeds keeps its books, and has no other new job.
  pub commit_adds_one :
      {job : Job}
      → Inv s
      → ((k : Str) → new_id (length n.documents) ≡ some k → lookup k s.jobs ≡ none)
      → (commit u clean s st n lstat new_id now).2 ≡ ok job
      → Inv (commit u clean s st n lstat new_id now).0
        × ((k : Str)
            → str_eq job.id k ≡ false
            → lookup k s.jobs ≡ none
            → lookup k (commit u clean s st n lstat new_id now).0.jobs ≡ none)
  unfolding commit
  commit_adds_one {job} v fresh h =
      let (opened, closed, r, e, t, i, j, fits) =
        commit_in_ok st.state u clean s st n lstat new_id now refl h in
      let new : job.status ≡ pending = unfold make_job in ap (λ x. x.status) j in
      let quiet : job.error ≡ [] = unfold make_job in ap (λ x. x.error) j in
      (
        rw t (
            make_room-Inv _ (
              moved-Inv s st.id r job st.dir st.files e (fresh job.id i) new quiet
                (opened_of_reservation s st.id v e) v)),
        λ k ne h. rw t (moved_absent s st.id r job st.dir st.files k ne h v),
      )
