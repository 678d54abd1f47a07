-- ===== src/Smtp/Session/Transaction.antt =====
-- What the reply to DATA means for the store.
use scan2graph.Prelude.{
  ℕ, ◌≡◌, ◌⊎◌, refl, true, Option, some, none, Str, arith, ◌==◌, Unicode, Option-cases, Bool-cases,
  inl, inr, length, str_eq, str_eq_iff, str_eq_refl,
}
use scan2graph.Prelude.Dict.{Dict, lookup, put, lookup-put, lookup-delete, delete-put}
use scan2graph.Jobs.Types.{Job, Reservation, Store, Staging, staging_open, ok, Result-cases}
use scan2graph.Jobs.Budget.{charge}
use scan2graph.Jobs.Cases.{delete_cases}
use scan2graph.Jobs.Invariant.{Inv}
use scan2graph.Jobs.Reserve.{release_reservation}
use scan2graph.Jobs.Stage.{make_job, commit, abort}
use scan2graph.Jobs.Stage.Settle.{commit_error_keeps, commit_enters_job, commit_adds_one}
use scan2graph.Jobs.Update.{delete_job}
use scan2graph.Smtp.Session.{
  World, SmtpError, Reply, accepted, rejected, aborted, internal, Ticket, Extracted, ExtractError,
  no_attachments, complex, storage, other, smtp, Machine, new_job, abort_staging, hand_over,
  commit_staging, with_read_error, finish, data_end,
}
use scan2graph.Smtp.Session.Reset.{abort_staging-jobs}

-- The staging that a Data holds: in the world under the ticket's id, and either open or without a
-- reservation, as a Reset leaves it. The ids that are drawn are new.
pub record Holds (m : Machine) (w : World) (t : Ticket) (st : Staging) : Type 0 where
  pub books : Inv w.store
  pub shared : lookup t.id w.stagings ≡ some st
  pub named : st.id ≡ t.id
  pub owned : (st.state ≡ staging_open) ⊎ (lookup t.id w.store.reservations ≡ none)
  pub fresh : (i : ℕ) (k : Str) → m.new_id i ≡ some k → lookup k w.store.jobs ≡ none

release-frees :
    (s : Store) (id : Str) → Inv s → lookup id (release_reservation s id).reservations ≡ none
unfolding release_reservation
release-frees s id v = elim (Option-cases (lookup id s.reservations)) [
  | inl e ↦ rw (e, release_reservation) e
  | inr (r, e) ↦
      rw (e, release_reservation)
        (ground (arith, lookup-delete id id s.reservations v.unique_reservations, str_eq_refl id))
]

abort-frees :
    (s : Store) (st : Staging)
    → Inv s
    → (st.state ≡ staging_open) ⊎ (lookup st.id s.reservations ≡ none)
    → lookup st.id (abort s st).0.reservations ≡ none
unfolding abort
abort-frees s st v h = ground (arith, release-frees s st.id v)

abort_staging-frees :
    {m : Machine} {w : World} {t : Ticket} {st : Staging}
    → Holds m w t st
    → lookup t.id (abort_staging w t.id).store.reservations ≡ none
unfolding abort_staging
abort_staging-frees {w = w} {t} {st} h =
    rw (h.shared, abort_staging)
      (rw (← h.named) (abort-frees w.store st h.books (rw h.named h.owned)))

delete_job-reservations : (s : Store) (id : Str) → (delete_job s id).0.reservations ≡ s.reservations
delete_job-reservations s id =
    delete_cases (λ t. t.reservations ≡ s.reservations) s id refl (λ rec e. refl)

delete_job-absent :
    (s : Store) (id k : Str)
    → Inv s
    → (str_eq id k ≡ true) ⊎ (lookup k s.jobs ≡ none)
    → lookup k (delete_job s id).0.jobs ≡ none
unfolding delete_job charge
delete_job-absent s id k v h = elim (Option-cases (lookup id s.jobs)) [
  | inl e ↦ rw (e, delete_job) (ground (arith, str_eq_iff id k))
  | inr (rec, e) ↦
      rw (e, delete_job, delete-put) (ground (arith, lookup-delete id k s.jobs v.unique_jobs))
]

-- What a Data that ends may have done, also to a job `k` that was not there before: nothing, for a
-- message with nothing attached; entered a job that the pipeline has taken, and no other; or refused
-- the message and entered none.
abbrev pub Dropped : World → World → Extracted → Option ExtractError → Reply → Type 0
Dropped w w' x e reply =
    (reply ≡ accepted)
    × (with_read_error x.error e ≡ some no_attachments)
    × (w'.store.jobs ≡ w.store.jobs)

abbrev pub Entered :
    Unicode → Machine → World → World → Ticket → Staging → Extracted → Str → Reply → Type 0
Entered u m w w' t st x k reply =
    (job : Job) × (reply ≡ accepted)
    × (m.enqueues job ≡ true)
    × (r : Reservation) × (lookup t.id w.store.reservations ≡ some r)
    × (lookup job.id w'.store.jobs
        ≡ some (record { job = job; dir = st.dir; bytes = r.bytes; files = st.files }))
    × (job ≡ make_job u job.id m.now w.store.ttl (new_job t x) job.documents)
    × ((str_eq job.id k ≡ true) ⊎ (lookup k w'.store.jobs ≡ none))

abbrev pub Refused : World → Str → Reply → Type 0
Refused w' k reply = (e : SmtpError) × (reply ≡ rejected e) × (lookup k w'.store.jobs ≡ none)

abbrev pub Outcome :
    Unicode
    → Machine
    → World
    → Ticket
    → Staging
    → Extracted
    → Option ExtractError
    → Str
    → World × Reply
    → Type 0
Outcome u m w t st x e k (w', reply) =
    (lookup t.id w'.store.reservations ≡ none)
    × (Dropped w w' x e reply ⊎ Entered u m w w' t st x k reply ⊎ Refused w' k reply)

-- A staging that is aborted with an error.
refuse :
    (u : Unicode) {m : Machine} {w : World} {t : Ticket} {st : Staging} (x : Extracted)
    (read : Option ExtractError) (e : SmtpError) (k : Str)
    → Holds m w t st
    → lookup k w.store.jobs ≡ none
    → Outcome u m w t st x read k (abort_staging w t.id, rejected e)
refuse u {w = w} {t} x read e k h gone =
    (abort_staging-frees h, inr (inr (e, refl, rw (abort_staging-jobs w t.id).0 gone)))

module _ (u : Unicode) (m : Machine) (w : World) (t : Ticket) (st : Staging) (x : Extracted)
    (read : Option ExtractError) (k : Str) (h : Holds m w t st)
    (absent : lookup k w.store.jobs ≡ none) where
  hand_over-Outcome :
      (job : Job) (stagings : Dict Staging)
      → (commit u m.clean w.store st (new_job t x) m.lstat m.new_id m.now).2 ≡ ok job
      → Outcome u m w t st x read k (
          hand_over m
            (record w {
              store = (commit u m.clean w.store st (new_job t x) m.lstat m.new_id m.now).0;
              stagings = stagings;
            })
            job)
  unfolding hand_over
  hand_over-Outcome job stagings done =
      let fresh = h.fresh (length x.documents) in
      let (opened, closed, r, there, gone, here, made, fits) =
        commit_enters_job u m.clean w.store st (new_job t x) m.lstat m.new_id m.now h.books fresh
          done in
      let (books, others) =
        commit_adds_one u m.clean w.store st (new_job t x) m.lstat m.new_id m.now h.books fresh
          done in
      let other : (str_eq job.id k ≡ true)
          ⊎ (lookup k (commit u m.clean w.store st (new_job t x) m.lstat m.new_id m.now).0.jobs
              ≡ none) =
        elim (Bool-cases (str_eq job.id k)) [ inl e ↦ inl e | inr e ↦ inr (others k e absent) ] in
      elim (Bool-cases (m.enqueues job)) [
        | inl q ↦ rw q (
          rw (← h.named) gone,
          inr (inl (job, refl, q, r, rw (← h.named) there, here, made, other)),
        )
        | inr q ↦ rw q (
          rw (delete_job-reservations _ job.id) (rw (← h.named) gone),
          inr (inr (internal, refl, delete_job-absent _ job.id k books other)),
        )
      ]

  -- A Commit that failed, and is aborted.
  failed-Outcome :
      (store : Store) (st' : Staging)
      → (store ≡ w.store)
      → (st' ≡ st)
      → Outcome u m w t st x read k (
        abort_staging (record w { store = store; stagings = put t.id st' w.stagings }) t.id,
        rejected internal,
      )
  failed-Outcome store st' same same' =
      let w' : World = record w { store = store; stagings = put t.id st' w.stagings } in
      let holds : Holds m w' t st = record {
        books = rw same h.books;
        shared = rw (lookup-put t.id t.id st' w.stagings, str_eq_refl t.id, same') refl;
        named = h.named;
        owned = rw same h.owned;
        fresh = rw same h.fresh;
      } in
      (
        abort_staging-frees holds,
        inr (inr (internal, refl, rw (abort_staging-jobs w' t.id).0 (rw same absent))),
      )

  commit_staging-Outcome : Outcome u m w t st x read k (commit_staging u m w t x)
  unfolding commit_staging
  commit_staging-Outcome =
      let c = commit u m.clean w.store st (new_job t x) m.lstat m.new_id m.now in
      elim (Result-cases c.2) [
        | inl (job, done) ↦
            rw (h.shared, commit_staging)
              (rw done (hand_over-Outcome job (put t.id c.1 w.stagings) done))
        | inr (e, failed) ↦
            let (same, same', quiet) =
              commit_error_keeps u m.clean w.store st (new_job t x) m.lstat m.new_id m.now failed in
            rw (h.shared, commit_staging) (rw failed (failed-Outcome c.0 c.1 same same'))
      ]

  finish-Outcome :
      (e : Option ExtractError)
      → with_read_error x.error read ≡ e
      → Outcome u m w t st x read k (finish e u m w t x)
  unfolding finish
  finish-Outcome none _ = commit_staging-Outcome
  finish-Outcome (some no_attachments) e =
      (abort_staging-frees h, inl (refl, e, (abort_staging-jobs w t.id).0))
  finish-Outcome (some complex) e = refuse u x read _ k h absent
  finish-Outcome (some storage) e = refuse u x read _ k h absent
  finish-Outcome (some other) e = refuse u x read _ k h absent
  finish-Outcome (some (smtp x')) e = refuse u x read _ k h absent

-- The end of a Data that holds an open staging frees its reservation, and replies what came of it:
-- either nothing was attached, the reply is positive and the jobs are as they were; or the reply is
-- positive and the job that Commit makes of what was extracted is in the store, at the reservation's
-- cost, and was taken by the pipeline; or the reply is an error. A job that was not in the store
-- before is not in it after, unless it is that one.
pub data_end-Outcome :
    (u : Unicode) (m : Machine) (w : World) (t : Ticket) (st : Staging) (x : Extracted)
    (read : Option ExtractError) (k : Str)
    → Holds m w t st
    → lookup k w.store.jobs ≡ none
    → Outcome u m w t st x read k (data_end u m w t x read)
unfolding data_end
data_end-Outcome u m w t st x read k h absent =
    let w' : World = record w { session = record w.session { staging = none } } in
    let holds : Holds m w' t st = record {
      books = h.books;
      shared = h.shared;
      named = h.named;
      owned = h.owned;
      fresh = h.fresh;
    } in
    elim (Bool-cases (w.session.generation == t.generation)) [
      | inl e ↦
          rw e
            (finish-Outcome u m w' t st x read k holds absent (with_read_error x.error read) refl)
      | inr e ↦ rw e (refuse u x read aborted k holds absent)
    ]
