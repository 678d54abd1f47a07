-- ===== src/Remote/Retry/Bounded.antt =====
-- How often the loop asks, and how long it waits.
use scan2graph.Prelude.{
  ◌≡◌, refl, ◌≤◌, ◌<◌, ℕ, zero, suc, ◌-◌, ◌*◌, ◌^◌, Bool, true, false, [], ◌∷◌, Option, none, some,
  Str, arith, All, length, ltb, lt64, modulus, if◌then◌else◌, Bool-cases, inl, inr, ◌%◌, subst,
}
use scan2graph.Config.Env.{parse_int}
use scan2graph.Remote.Retry.{
  max_attempts, base_backoff, max_wait, clamp, backoff, retry_after, Attempt, no_request, dropped,
  answered, Reply, accepted, rejected, Run, Verdict, final, again, judge, preceded, conclude,
  attempt_from, send, is_retried,
}

-- A wait that is neither too short nor too long.
abbrev pub IsBounded : ℕ → Type 0
IsBounded w = (base_backoff ≤ w) × (w ≤ max_wait)

clamp-IsBounded : (d : ℕ) → d < modulus → IsBounded (clamp d)
unfolding clamp lt64
clamp-IsBounded d h = ground arith

power-positive : (n : ℕ) → 1 ≤ 2 ^ n
power-positive zero = omega arith
power-positive (suc n) = omega (arith, power-positive n)

backoff-IsBounded : (attempt : ℕ) → IsBounded (backoff attempt)
unfolding backoff
backoff-IsBounded attempt = ground (arith, power-positive (attempt - 1))

retry_after-IsBounded :
    (until : Str → Option ℕ) (v : Str) (fallback : ℕ)
    → ((d : ℕ) → until v ≡ some d → d < modulus)
    → IsBounded fallback
    → IsBounded (retry_after until v fallback)
unfolding retry_after
retry_after-IsBounded until [] fallback small h = h
retry_after-IsBounded until (c ∷ v) fallback small h =
    by_number (parse_int (c ∷ v)) (until (c ∷ v)) small
  where
    by_date :
        (o : Option ℕ)
        → ((d : ℕ) → o ≡ some d → d < modulus)
        → IsBounded (elim o [ some d ↦ clamp d | none ↦ fallback ])
    by_date none less = h
    by_date (some d) less = clamp-IsBounded d (less d refl)

    by_number :
        (o : Option (Bool × ℕ)) (u : Option ℕ)
        → ((d : ℕ) → u ≡ some d → d < modulus)
        → IsBounded (elim o [
          | some (minus, secs) ↦ if minus then fallback else clamp ((secs * 1000000000) % modulus)
          | none ↦ elim u [ some d ↦ clamp d | none ↦ fallback ]
        ])
    by_number none u less = by_date u less
    by_number (some (true, secs)) u less = h
    by_number (some (false, secs)) u less =
        clamp-IsBounded ((secs * 1000000000) % modulus) (omega arith)

again_injective : {a b : ℕ} → again a ≡ again b → a ≡ b
again_injective h = cc

some_injective : {a b : Run} → some a ≡ some b → a ≡ b
some_injective h = cc

judge-IsBounded :
    (until : Str → Option ℕ)
    → ((v : Str) (d : ℕ) → until v ≡ some d → d < modulus)
    → (attempt : ℕ) (a : Attempt) (wait : ℕ) → judge until attempt a ≡ again wait
    → IsBounded wait
unfolding judge
judge-IsBounded until small attempt no_request wait e = cc
judge-IsBounded until small attempt (dropped true) wait e = cc
judge-IsBounded until small attempt (dropped false) wait e =
    subst IsBounded (again_injective e) (backoff-IsBounded attempt)
judge-IsBounded until small attempt (answered status header) wait e =
    answered_again (ltb status 300) (is_retried status) e
  where
    bounded : IsBounded (retry_after until header (backoff attempt))
    bounded =
        retry_after-IsBounded until header (backoff attempt) (small header)
          (backoff-IsBounded attempt)

    answered_again :
        (fine retried : Bool)
        → (if fine
            then final 1 (accepted status)
            else if retried
            then again (retry_after until header (backoff attempt))
            else final 1 (rejected status))
          ≡ again wait
        → IsBounded wait
    answered_again true retried h = cc
    answered_again false true h = subst IsBounded (again_injective h) bounded
    answered_again false false h = cc

judge-final :
    (until : Str → Option ℕ) (attempt : ℕ) (a : Attempt) (n : ℕ) (reply : Reply)
    → judge until attempt a ≡ final n reply
    → n ≤ 1
unfolding judge
judge-final until attempt no_request n reply e = ground (arith, e)
judge-final until attempt (dropped true) n reply e = ground (arith, e)
judge-final until attempt (dropped false) n reply e = cc
judge-final until attempt (answered status header) n reply e = ground (arith, e)

-- What a run may cost, with `left` attempts behind the first.
pub record IsFrugal (left : ℕ) (r : Run) : Type 0 where
  pub few : r.requests ≤ suc left
  pub pauses : length r.waits ≤ left
  pub waited : All IsBounded r.waits

module _ (until : Str → Option ℕ) (answers : ℕ → Attempt) (interrupted : ℕ → Bool)
    (small : (v : Str) (d : ℕ) → until v ≡ some d → d < modulus) where
  conclude-IsFrugal :
      (left attempt : ℕ) (v : Verdict) (rest : Option Run)
      → ((n : ℕ) (reply : Reply) → v ≡ final n reply → n ≤ 1)
      → ((wait : ℕ) → v ≡ again wait → IsBounded wait)
      → ((r : Run) → rest ≡ some r → (k : ℕ) × (left ≡ suc k) × IsFrugal k r)
      → IsFrugal left (conclude until answers interrupted attempt v rest)
  unfolding conclude preceded
  conclude-IsFrugal left attempt (final n reply) rest one bounded behind = record {
    few = omega (arith, one n reply refl);
    pauses = omega arith;
    waited = tt;
  }
  conclude-IsFrugal left attempt (again wait) none one bounded behind = record {
    few = omega arith;
    pauses = omega arith;
    waited = tt;
  }
  conclude-IsFrugal left attempt (again wait) (some r) one bounded behind =
      let (k, e, f) = behind r refl in
      elim (Bool-cases (interrupted attempt)) [
        | inl stop ↦ rw stop (record {
          few = omega arith;
          pauses = omega (arith, e);
          waited = (bounded wait refl, tt);
        })
        | inr on ↦ rw on (record {
          few = omega (arith, f.few, e);
          pauses = omega (arith, f.pauses, e);
          waited = (bounded wait refl, f.waited);
        })
      ]

  attempt_from-IsFrugal :
      (left attempt : ℕ) → IsFrugal left (attempt_from until answers interrupted left attempt)
  unfolding attempt_from
  attempt_from-IsFrugal zero attempt =
      conclude-IsFrugal zero attempt (judge until attempt (answers attempt)) none
        (judge-final until attempt (answers attempt))
        (judge-IsBounded until small attempt (answers attempt)) (λ r h. cc)
  attempt_from-IsFrugal (suc left) attempt =
      conclude-IsFrugal (suc left) attempt (judge until attempt (answers attempt))
        (some (attempt_from until answers interrupted left (suc attempt)))
        (judge-final until attempt (answers attempt))
        (judge-IsBounded until small attempt (answers attempt))
        (λ r h. (
          left,
          refl,
          subst (IsFrugal left) (some_injective h) (attempt_from-IsFrugal left (suc attempt)),
        ))

-- Do sends at most four requests, waits at most three times, and each wait is at least half a second
-- and at most thirty, whatever the service answers. What time.Until gives is an int64.
pub send-IsFrugal :
    (until : Str → Option ℕ) (answers : ℕ → Attempt) (interrupted : ℕ → Bool)
    → ((v : Str) (d : ℕ) → until v ≡ some d → d < modulus)
    → ((send until answers interrupted).requests ≤ max_attempts)
      × (length (send until answers interrupted).waits ≤ 3)
      × All IsBounded (send until answers interrupted).waits
unfolding send
send-IsFrugal until answers interrupted small =
    let f = attempt_from-IsFrugal until answers interrupted small 3 1 in (f.few, f.pauses, f.waited)
