-- ===== src/Jobs/Capacity.antt =====
-- The disk budget: what Reserve admits, and what makeRoomLocked leaves.
pub mod Steps
use scan2graph.Prelude.{
  ℕ, ◌+◌, ◌-◌, ◌*◌, ◌%◌, ◌≤◌, ◌<◌, ◌≡◌, ◌↔◌, ◌⊎◌, refl, sym, ap, ◌∙◌, Bool, true, false, some, Str,
  arith, if◌then◌else◌, modulus, half, add64, sub64, le64, le64_iff, add64-eq, sub64-eq, Bool-cases,
  inl, inr,
}
use scan2graph.Prelude.Dict.{lookup, total}
use scan2graph.Jobs.Types.{JobRecord, Store}
use scan2graph.Jobs.Budget.{admits, add_freeable, held, evict, charge, is_candidate, make_room}
use scan2graph.Jobs.Budget.Held.{
  job_bytes, reserved_bytes, freeable_bytes, freeable-le, add_freeable_lem, sub_reserved_lem,
  evict_totals, Settled, make_room-Settled,
}
use scan2graph.Jobs.Budget.Room.{make_room-keeps}
use scan2graph.Jobs.Invariant.{Inv, charged}
use scan2graph.Jobs.Invariant.Room.{make_room-Inv}

-- What the finished jobs would give back.
abbrev pub freeable : Store → ℕ
freeable s = total freeable_bytes s.jobs

pub used-eq : (s : Store) → Inv s → charged s < modulus → s.used ≡ charged s
used-eq s v h = omega (arith, v)

admits_used :
    (s : Store) (want : ℕ)
    → s.used ≡ charged s
    → charged s + want < half
    → s.max_bytes < half
    → (admits s want ≡ true) ↔ (charged s + want ≤ s.max_bytes + freeable s)
unfolding admits charged
admits_used s want same small limit =
    let freed : add_freeable 0 s.jobs ≡ freeable s =
      add_freeable_lem 0 s.jobs (omega arith) ∙ omega arith in
    let le = freeable-le s.jobs in
    rw
      (
        same,
        freed,
        add64-eq (charged s) want (omega arith),
        sub64-eq (charged s) (freeable s) (omega arith) (omega arith),
        add64-eq (charged s - freeable s) want (omega arith),
      )
      (ground (
        arith,
        le64_iff (charged s + want) s.max_bytes,
        le64_iff (charged s - freeable s + want) s.max_bytes,
      ))

-- Reserve admits a job exactly when it fits beside all that is charged, once every finished job has
-- given way: as long as the sums stay below 2 ^ 63.
pub admits_iff :
    (s : Store) (want : ℕ)
    → Inv s
    → charged s + want < half
    → s.max_bytes < half
    → (admits s want ≡ true) ↔ (charged s + want ≤ s.max_bytes + freeable s)
admits_iff s want v small limit = admits_used s want (used-eq s v (omega arith)) small limit

-- What was promised to work that is not finished fits the budget, and so do the jobs on disk.
-- The budget stays below 2 ^ 61, so that no sum of three of it wraps.
pub record IsWithin (s : Store) : Type 0 where
  pub roomy : s.max_bytes * 4 < half
  pub promised : charged s ≤ s.max_bytes + freeable s
  pub kept : total job_bytes s.jobs ≤ s.max_bytes

held-eq : (s : Store) → Inv s → charged s < modulus → held s ≡ total job_bytes s.jobs
unfolding held charged
held-eq s v small =
    rw v.accounted (sub_reserved_lem (charged s) s.reservations v.words (omega arith) ∙ omega arith)

-- Making room takes the same from what is charged and from what could give way.
abbrev SamePinned : Store → Store → Type 0
SamePinned s t = (charged t + freeable s ≡ charged s + freeable t) × (t.max_bytes ≡ s.max_bytes)

evict-SamePinned :
    (s : Store) (k : Str) (rec : JobRecord) (t : Store)
    → lookup k t.jobs ≡ some rec
    → is_candidate rec ≡ true
    → SamePinned s t
    → SamePinned s (evict k rec t)
unfolding charged evict charge
evict-SamePinned s k rec t found c h = omega (arith, evict_totals k rec t found c)

make_room-SamePinned : (s : Store) → Inv s → SamePinned s (make_room s).0
make_room-SamePinned s v =
    make_room-keeps (SamePinned s) (evict-SamePinned s) s v.unique_jobs (refl, refl)

-- Once what is promised fits, making room brings the jobs within the budget.
pub make_room-IsWithin :
    (s : Store)
    → Inv s
    → s.max_bytes * 4 < half
    → charged s ≤ s.max_bytes + freeable s
    → total job_bytes s.jobs < half
    → charged s < modulus
    → IsWithin (make_room s).0
unfolding charged
make_room-IsWithin s v roomy promised small word =
    let (pinned, limit) = make_room-SamePinned s v in
    let settled = make_room-Settled s v.unique_jobs (held-eq s v word) small (omega arith) in
    record { roomy = omega arith; promised = omega arith; kept = omega arith }
