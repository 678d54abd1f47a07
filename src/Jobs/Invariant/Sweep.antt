-- ===== src/Jobs/Invariant/Sweep.antt =====
-- CleanExpired keeps the jobs that are live and the reservations that are not stale, and the
-- invariant.
use scan2graph.Prelude.{
  ℕ, ◌+◌, ◌-◌, ◌%◌, ◌≤◌, ◌<◌, ◌≡◌, refl, Bool, true, not, [], ◌∷◌, modulus, arith, add64, sub64,
  settle-mod, sub64-mod, Bool-cases, inl, inr, ap, ◌∙◌,
}
use scan2graph.Prelude.Dict.{Dict, retain, total, Every, Every-retain, Unique-retain}
use scan2graph.Jobs.Types.{JobRecord, Reservation, Store}
use scan2graph.Jobs.Read.{live, is_stale, sweep_jobs, sweep_reservations, clean_expired}
use scan2graph.Jobs.Invariant.{Inv, IsSound, charged}
use scan2graph.Jobs.Budget.Held.{job_bytes, reserved_bytes}

abbrev pub is_live : ℕ → JobRecord → Bool
is_live now rec = live rec.job now

abbrev pub is_fresh : ℕ → Reservation → Bool
is_fresh now r = not (is_stale now r)

pub sweep_jobs-kept :
    (now used : ℕ) (m : Dict JobRecord) → (sweep_jobs now used m).0 ≡ retain (is_live now) m
unfolding sweep_jobs retain
sweep_jobs-kept now used [] = refl
sweep_jobs-kept now used ((k, rec) ∷ m) = elim (Bool-cases (live rec.job now)) [
  | inl e ↦ rw (e, sweep_jobs-kept now used m)
  | inr e ↦ rw (e, sweep_jobs-kept now (add64 used (sub64 0 rec.bytes)) m)
]

sweep_jobs-used :
    (now t : ℕ) (m : Dict JobRecord)
    → Every IsSound m
    → total job_bytes m ≤ t
    → (sweep_jobs now (t % modulus) m).1
      ≡ (t - total job_bytes m + total job_bytes (retain (is_live now) m)) % modulus
unfolding sweep_jobs retain total
sweep_jobs-used now t [] v h = ground arith
sweep_jobs-used now t ((k, rec) ∷ m) v h = elim (Bool-cases (live rec.job now)) [
  | inl e ↦ rw e (ground (arith, sweep_jobs-used now t m v.1))
  | inr e ↦
      rw (e, settle-mod t rec.bytes 0 (omega arith) v.0.word)
        (ground (arith, sweep_jobs-used now (t - rec.bytes + 0) m v.1))
]

pub sweep_reservations-kept :
    (now used : ℕ) (m : Dict Reservation)
    → (sweep_reservations now used m).0 ≡ retain (is_fresh now) m
unfolding sweep_reservations retain
sweep_reservations-kept now used [] = refl
sweep_reservations-kept now used ((k, r) ∷ m) = elim (Bool-cases (is_stale now r)) [
  | inl e ↦ rw (e, sweep_reservations-kept now (sub64 used r.bytes) m)
  | inr e ↦ rw (e, sweep_reservations-kept now used m)
]

sweep_reservations-used :
    (now t : ℕ) (m : Dict Reservation)
    → Every (λ r. r.bytes < modulus) m
    → total reserved_bytes m ≤ t
    → (sweep_reservations now (t % modulus) m).1
      ≡ (t - total reserved_bytes m + total reserved_bytes (retain (is_fresh now) m)) % modulus
unfolding sweep_reservations retain total
sweep_reservations-used now t [] v h = ground arith
sweep_reservations-used now t ((k, r) ∷ m) v h = elim (Bool-cases (is_stale now r)) [
  | inl e ↦
      rw (e, sub64-mod t r.bytes (omega arith) v.0)
        (ground (arith, sweep_reservations-used now (t - r.bytes) m v.1))
  | inr e ↦ rw e (ground (arith, sweep_reservations-used now t m v.1))
]

pub clean_expired-jobs :
    (s : Store) (now : ℕ) → (clean_expired s now).0.jobs ≡ retain (is_live now) s.jobs
unfolding clean_expired
clean_expired-jobs s now = sweep_jobs-kept now s.used s.jobs

pub clean_expired-reservations :
    (s : Store) (now : ℕ)
    → (clean_expired s now).0.reservations ≡ retain (is_fresh now) s.reservations
unfolding clean_expired
clean_expired-reservations s now = sweep_reservations-kept now _ s.reservations

clean_expired-closed : (s : Store) (now : ℕ) → (clean_expired s now).0.closed ≡ s.closed
unfolding clean_expired
clean_expired-closed s now = refl

pub clean_expired-max_bytes :
    (s : Store) (now : ℕ) → (clean_expired s now).0.max_bytes ≡ s.max_bytes
unfolding clean_expired
clean_expired-max_bytes s now = refl

-- The sum that is left when both loops are done.
left : Store → ℕ → ℕ
left s now =
    total job_bytes (retain (is_live now) s.jobs)
    + total reserved_bytes (retain (is_fresh now) s.reservations)

clean_expired-left :
    (s : Store) (now : ℕ) → Inv s → (clean_expired s now).0.used ≡ left s now % modulus
unfolding left charged clean_expired
clean_expired-left s now v =
    let rest = charged s - total job_bytes s.jobs + total job_bytes (retain (is_live now) s.jobs) in
    let swept : (sweep_jobs now s.used s.jobs).1 ≡ rest % modulus =
      ap (λ u. (sweep_jobs now u s.jobs).1) v.accounted
      ∙ sweep_jobs-used now (charged s) s.jobs v.sound (omega arith) in
    ap (λ u. (sweep_reservations now u s.reservations).1) swept
    ∙ sweep_reservations-used now rest s.reservations v.words (omega arith)
    ∙ ap (λ (n : ℕ). n % modulus) (omega arith)

clean_expired-used :
    (s : Store) (now : ℕ)
    → Inv s
    → (clean_expired s now).0.used ≡ charged (clean_expired s now).0 % modulus
unfolding left charged
clean_expired-used s now v =
    rw (clean_expired-jobs s now, clean_expired-reservations s now) (clean_expired-left s now v)

retain-emptied :
    (s : Store) (now : ℕ)
    → Inv s
    → s.closed ≡ true
    → (retain (is_live now) s.jobs ≡ []) × (retain (is_fresh now) s.reservations ≡ [])
unfolding retain
retain-emptied s now v c = ground (arith, v.emptied c)

pub clean_expired-Inv : (s : Store) (now : ℕ) → Inv s → Inv (clean_expired s now).0
clean_expired-Inv s now v = record {
  accounted = clean_expired-used s now v;
  sound = rw (clean_expired-jobs s now) (Every-retain IsSound (is_live now) s.jobs v.sound);
  words =
      rw (clean_expired-reservations s now) (Every-retain _ (is_fresh now) s.reservations v.words);
  unique_jobs = rw (clean_expired-jobs s now) (Unique-retain (is_live now) s.jobs v.unique_jobs);
  unique_reservations =
      rw (clean_expired-reservations s now)
        (Unique-retain (is_fresh now) s.reservations v.unique_reservations);
  emptied =
      rw (clean_expired-jobs s now, clean_expired-reservations s now, clean_expired-closed s now)
        (retain-emptied s now v);
}
