-- ===== src/Jobs/Invariant.antt =====
-- What holds of the store between two critical sections.
pub mod Room
pub mod Reserve
pub mod Update
pub mod Sweep
use scan2graph.Prelude.{ℕ, ◌+◌, ◌%◌, ◌<◌, ◌≡◌, Bool, true, false, [], modulus}
use scan2graph.Prelude.Dict.{Unique, Every, total}
use scan2graph.Jobs.Types.{evicted, JobRecord, Reservation, Store}
use scan2graph.Jobs.Budget.{finished, doc_bytes}
use scan2graph.Jobs.Budget.Held.{job_bytes, reserved_bytes}
use scan2graph.Jobs.Update.{is_failed}

-- What every job and every reservation is charged, as a number that does not wrap.
unfoldable pub charged : Store → ℕ
charged s = total job_bytes s.jobs + total reserved_bytes s.reservations

-- A tombstone holds nothing, a finished job is charged for its documents, and only a failed job
-- has an error text.
pub record IsSound (rec : JobRecord) : Type 0 where
  pub word : rec.bytes < modulus
  pub buried :
      rec.job.status ≡ evicted → (rec.bytes ≡ 0) × (rec.job.documents ≡ []) × (rec.files ≡ [])
  pub settled : finished rec.job.status ≡ true → rec.bytes ≡ doc_bytes rec.job.documents
  pub quiet : is_failed rec.job.status ≡ false → rec.job.error ≡ []

pub record Inv (s : Store) : Type 0 where
  pub accounted : s.used ≡ charged s % modulus
  pub sound : Every IsSound s.jobs
  pub words : Every (λ r. r.bytes < modulus) s.reservations
  pub unique_jobs : Unique s.jobs
  pub unique_reservations : Unique s.reservations
  pub emptied : s.closed ≡ true → (s.jobs ≡ []) × (s.reservations ≡ [])
