-- ===== src/Jobs/Invariant/Reserve.antt =====
-- Reservations, commits, releases and Close keep the invariant.
use scan2graph.Prelude.{
  ℕ, ◌<◌, ◌≡◌, refl, false, [], Option, some, none, Str, List, modulus, arith, add64, add64-mod,
  sub64-mod,
}
use scan2graph.Prelude.Dict.{
  lookup, put, total, Every-lookup, Every-put, Every-delete, Unique-put, Unique-delete,
  total-put_new, total-delete, lookup-ne-nil,
}
use scan2graph.Jobs.Types.{pending, Job, JobRecord, Reservation, Store}
use scan2graph.Jobs.Budget.{finished}
use scan2graph.Jobs.Update.{is_failed}
use scan2graph.Jobs.Cases.{moved, release_cases, commit_cases}
use scan2graph.Jobs.Reserve.{
  reserve_locked, release_reservation, commit_reservation, close, join_path,
}
use scan2graph.Jobs.Invariant.{Inv, IsSound, charged}
use scan2graph.Jobs.Budget.Held.{job_bytes, reserved_bytes}
use scan2graph.Jobs.Invariant.Room.{make_room-Inv}

abbrev Word : Reservation → Type 0
Word r = r.bytes < modulus

entered-Inv :
    (s : Store) (want : ℕ) (id : Str) (r : Reservation)
    → lookup id s.reservations ≡ none
    → r.bytes ≡ want
    → want < modulus
    → s.closed ≡ false
    → Inv s
    → Inv (record s { reservations = put id r s.reservations; used = add64 s.used want })
unfolding charged
entered-Inv s want id r fresh same word opened v = record {
  accounted =
      ground
        (arith, add64-mod (charged s) want, total-put_new reserved_bytes id r s.reservations fresh);
  sound = v.sound;
  words = Every-put Word id r s.reservations (ground arith) v.words;
  unique_jobs = v.unique_jobs;
  unique_reservations = Unique-put id r s.reservations v.unique_reservations;
  emptied = ground arith;
}

pub reserve_locked-Inv :
    (s : Store) (want : ℕ) (id : Option Str) (now : ℕ)
    → ((i : Str) → id ≡ some i → lookup i s.reservations ≡ none)
    → want < modulus
    → Inv s
    → Inv (reserve_locked s want id now).0
unfolding reserve_locked
reserve_locked-Inv s want none now fresh word v = ground arith
reserve_locked-Inv s want (some id) now fresh word v = ground (
  arith,
  entered-Inv s want id (record { dir = join_path s.dir id; reserved_at = now; bytes = want })
      (fresh id refl) refl word,
)

pub release_reservation-Inv : (s : Store) (id : Str) → Inv s → Inv (release_reservation s id)
unfolding charged
release_reservation-Inv s id v = release_cases Inv s id v λ r e. record {
  accounted = ground (
    arith,
    sub64-mod (charged s) r.bytes,
    total-delete reserved_bytes id s.reservations e,
    Every-lookup Word id s.reservations v.words e,
  );
  sound = v.sound;
  words = Every-delete Word id s.reservations v.words;
  unique_jobs = v.unique_jobs;
  unique_reservations = Unique-delete id s.reservations v.unique_reservations;
  emptied = λ c. absurd (lookup-ne-nil id s.reservations e (v.emptied c).1);
}

-- A job takes over the charge of its reservation. It is new, pending, and has no error text.
pub moved-Inv :
    (s : Store) (id : Str) (r : Reservation) (job : Job) (dir : Str) (files : List Str)
    → lookup id s.reservations ≡ some r
    → lookup job.id s.jobs ≡ none
    → job.status ≡ pending
    → job.error ≡ []
    → s.closed ≡ false
    → Inv s
    → Inv (moved s id r job dir files)
unfolding charged finished is_failed
moved-Inv s id r job dir files found fresh new quiet opened v =
    let rec : JobRecord = record { job = job; dir = dir; bytes = r.bytes; files = files } in
    let word = Every-lookup Word id s.reservations v.words found in
    record {
      accounted = ground (
        arith,
        total-delete reserved_bytes id s.reservations found,
        total-put_new job_bytes job.id rec s.jobs fresh,
      );
      sound = Every-put IsSound job.id rec s.jobs (ground arith) v.sound;
      words = Every-delete Word id s.reservations v.words;
      unique_jobs = Unique-put job.id rec s.jobs v.unique_jobs;
      unique_reservations = Unique-delete id s.reservations v.unique_reservations;
      emptied = ground arith;
    }

pub commit_reservation-Inv :
    (s : Store) (id : Str) (job : Job) (dir : Str) (files : List Str)
    → lookup job.id s.jobs ≡ none
    → job.status ≡ pending
    → job.error ≡ []
    → Inv s
    → Inv (commit_reservation s id job dir files).0
commit_reservation-Inv s id job dir files fresh new quiet v =
    commit_cases Inv s id job dir files v
      λ r e c. make_room-Inv _ (moved-Inv s id r job dir files e fresh new quiet c v)

pub close-Inv : (s : Store) → Inv s → Inv (close s).0
unfolding close charged total
close-Inv s v = ground arith
