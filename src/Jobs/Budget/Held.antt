-- ===== src/Jobs/Budget/Held.antt =====
-- What the store holds, what could give way, and where makeRoomLocked stops.
use scan2graph.Prelude.{
  ℕ, ◌+◌, ◌-◌, ◌%◌, ◌≤◌, ◌<◌, ◌≡◌, ◌⊎◌, refl, ◌∙◌, true, [], ◌∷◌, some, Str, arith, if◌then◌else◌,
  modulus, half, le64, le64_iff, lt64_iff, sub64-mod, add64-eq, sub64-eq, Bool-cases, inl, inr,
  insert_by, sort_by, All-sort_by,
}
use scan2graph.Prelude.Dict.{Dict, lookup, Unique, Every, total, total-put}
use scan2graph.Jobs.Types.{JobRecord, Reservation, Store}
use scan2graph.Jobs.Budget.{
  finished, add_freeable, sub_reserved, held, is_candidate, candidates, received_before, charge,
  tombstone, evict, evict_until, make_room,
}
use scan2graph.Jobs.Budget.Room.{
  Evictable, Evictable-put, candidates-Evictable, candidates-Unique, sort_by-Unique,
}

abbrev pub job_bytes : JobRecord → ℕ
job_bytes rec = rec.bytes

abbrev pub reserved_bytes : Reservation → ℕ
reserved_bytes r = r.bytes

-- What a job would give back if it were evicted.
unfoldable pub freeable_bytes : JobRecord → ℕ
freeable_bytes rec = if finished rec.job.status then rec.bytes else 0

pub freeable-le : (m : Dict JobRecord) → total freeable_bytes m ≤ total job_bytes m
unfolding total freeable_bytes
freeable-le [] = omega arith
freeable-le ((k, rec) ∷ m) = ground (arith, freeable-le m)

-- The loop of `admitsLocked`, while nothing wraps.
pub add_freeable_lem :
    (n : ℕ) (m : Dict JobRecord)
    → n + total job_bytes m < modulus
    → add_freeable n m ≡ n + total freeable_bytes m
unfolding add_freeable total freeable_bytes
add_freeable_lem n [] h = omega arith
add_freeable_lem n ((k, rec) ∷ m) h = elim (Bool-cases (finished rec.job.status)) [
  | inl e ↦
      rw (e, add64-eq n rec.bytes (omega arith))
        (add_freeable_lem (n + rec.bytes) m (omega arith) ∙ omega arith)
  | inr e ↦ rw e (add_freeable_lem n m (omega arith) ∙ omega arith)
]

pub sub_reserved_lem :
    (t : ℕ) (m : Dict Reservation)
    → Every (λ r. r.bytes < modulus) m
    → total reserved_bytes m ≤ t
    → sub_reserved (t % modulus) m ≡ (t - total reserved_bytes m) % modulus
unfolding sub_reserved total
sub_reserved_lem t [] v h = ground arith
sub_reserved_lem t ((k, r) ∷ m) v h =
    rw (sub64-mod t r.bytes (omega arith) v.0)
      (ground (arith, sub_reserved_lem (t - r.bytes) m v.1))

-- Among jobs whose sum does not wrap the candidates are all that is finished and costs something.
pub total-candidates :
    (m : Dict JobRecord)
    → total job_bytes m < half
    → total job_bytes (candidates m) ≡ total freeable_bytes m
unfolding total candidates is_candidate freeable_bytes
total-candidates [] h = refl
total-candidates ((k, rec) ∷ m) h = ground (arith, total-candidates m, lt64_iff 0 rec.bytes)

total-insert_by :
    (e : Str × JobRecord) (cs : Dict JobRecord)
    → total job_bytes (insert_by received_before e cs) ≡ e.1.bytes + total job_bytes cs
unfolding total insert_by
total-insert_by e [] = refl
total-insert_by e (c ∷ cs) = ground (arith, total-insert_by e cs)

total-sort_by :
    (cs : Dict JobRecord) → total job_bytes (sort_by received_before cs) ≡ total job_bytes cs
unfolding total sort_by
total-sort_by [] = refl
total-sort_by (c ∷ cs) =
    omega (arith, total-insert_by c (sort_by received_before cs), total-sort_by cs)

-- One eviction takes the same from what is held and from what could give way.
pub evict_totals :
    (k : Str) (rec : JobRecord) (s : Store)
    → lookup k s.jobs ≡ some rec
    → is_candidate rec ≡ true
    → (total job_bytes (evict k rec s).jobs + rec.bytes ≡ total job_bytes s.jobs)
      × (total freeable_bytes (evict k rec s).jobs + rec.bytes ≡ total freeable_bytes s.jobs)
unfolding evict charge tombstone is_candidate freeable_bytes finished
evict_totals k rec s found c =
    let grave = record (tombstone rec) { bytes = 0 } in
    (
      ground (arith, total-put job_bytes k grave s.jobs found),
      ground (arith, total-put freeable_bytes k grave s.jobs found),
    )

-- What making room leaves: the jobs fit, or nothing that is finished costs anything.
abbrev pub Settled : Store → Type 0
Settled s = (total job_bytes s.jobs ≤ s.max_bytes) ⊎ (total freeable_bytes s.jobs ≡ 0)

evict-max_bytes : (k : Str) (rec : JobRecord) (s : Store) → (evict k rec s).max_bytes ≡ s.max_bytes
unfolding evict charge
evict-max_bytes k rec s = refl

evict_until-Settled :
    (h : ℕ) (cs : Dict JobRecord) (s : Store)
    → Evictable s.jobs cs
    → Unique cs
    → h ≡ total job_bytes s.jobs
    → total freeable_bytes s.jobs ≡ total job_bytes cs
    → h < half
    → s.max_bytes < half
    → Settled (evict_until h cs s).0
unfolding evict_until total
evict_until-Settled h [] s v u same rest small limit = inr rest
evict_until-Settled h ((k, rec) ∷ cs) s v u same rest small limit =
    let (held_drops, freeable_drops) = evict_totals k rec s v.0.0 v.0.1 in
    elim (Bool-cases (le64 h s.max_bytes)) [
      | inl e ↦ rw e (inl (rw (← same) ((le64_iff h s.max_bytes small limit).0 e)))
      | inr e ↦
          rw (e, sub64-eq h rec.bytes (omega arith) (omega arith))
            (evict_until-Settled (h - rec.bytes) cs (evict k rec s)
              (unfold evict in Evictable-put k _ s.jobs cs u.0 v.1) u.1 (omega arith) (omega arith)
              (omega arith) limit)
    ]

pub make_room-Settled :
    (s : Store)
    → Unique s.jobs
    → held s ≡ total job_bytes s.jobs
    → total job_bytes s.jobs < half
    → s.max_bytes < half
    → Settled (make_room s).0
unfolding make_room
make_room-Settled s u same small limit = elim (Bool-cases (le64 (held s) s.max_bytes)) [
  | inl e ↦ rw e (inl ((le64_iff _ s.max_bytes small limit).0 (rw same at e)))
  | inr e ↦ rw e (
      evict_until-Settled (held s) _ s
        (All-sort_by received_before _ (candidates s.jobs) (candidates-Evictable s.jobs u))
        (sort_by-Unique received_before (candidates s.jobs) (candidates-Unique s.jobs u)) same
        (omega (arith, total-sort_by (candidates s.jobs), total-candidates s.jobs)) (omega arith)
        limit)
]
