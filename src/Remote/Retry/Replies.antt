-- ===== src/Remote/Retry/Replies.antt =====
-- What the loop returns.
use scan2graph.Prelude.{◌≡◌, refl, ◌≤◌, ℕ, zero, suc, ◌+◌, Bool, false, Option, Str, arith, subst}
use scan2graph.Remote.Retry.{
  max_attempts, Attempt, Reply, final, again, judge, preceded, conclude, attempt_from, send,
  gave_up,
}

module _ (until : Str → Option ℕ) (answers : ℕ → Attempt) (interrupted : ℕ → Bool) where
  -- The first `k` attempts from one on are worth another, and no wait behind one is interrupted.
  abbrev pub AreRetried : ℕ → ℕ → Type 0
  AreRetried zero attempt = Unit
  AreRetried (suc k) attempt =
      (wait : ℕ) × (judge until attempt (answers attempt) ≡ again wait)
      × (interrupted attempt ≡ false)
      × AreRetried k (suc attempt)

  attempt_from-reply :
      (k left attempt m n : ℕ) (reply : Reply)
      → k ≤ left
      → AreRetried k attempt
      → m ≡ k + attempt
      → judge until m (answers m) ≡ final n reply
      → ((attempt_from until answers interrupted left attempt).reply ≡ reply)
        × ((attempt_from until answers interrupted left attempt).requests ≡ k + n)
  unfolding attempt_from conclude preceded
  attempt_from-reply zero left attempt m n reply h retried here e =
      first left (subst (λ x. judge until x (answers x) ≡ final n reply) (omega (arith, here)) e)
    where
      first :
          (left : ℕ)
          → judge until attempt (answers attempt) ≡ final n reply
          → ((attempt_from until answers interrupted left attempt).reply ≡ reply)
            × ((attempt_from until answers interrupted left attempt).requests ≡ 0 + n)
      first zero d = rw d (refl, omega arith)
      first (suc left) d = rw d (refl, omega arith)
  attempt_from-reply (suc k) zero attempt m n reply h retried here e = absurd (omega (arith, h))
  attempt_from-reply (suc k) (suc left) attempt m n reply h (wait, worth, on, retried) here e =
      let (same, count) =
        attempt_from-reply k left (suc attempt) m n reply (omega (arith, h)) retried
          (omega (arith, here)) e in
      rw worth (rw on (same, omega (arith, count)))

  attempt_from-gave_up :
      (left attempt m wait : ℕ)
      → AreRetried left attempt
      → m ≡ left + attempt
      → judge until m (answers m) ≡ again wait
      → ((attempt_from until answers interrupted left attempt).reply ≡ gave_up)
        × ((attempt_from until answers interrupted left attempt).requests ≡ suc left)
  unfolding attempt_from conclude preceded
  attempt_from-gave_up zero attempt m wait retried here e =
      let last : judge until attempt (answers attempt) ≡ again wait =
        subst (λ x. judge until x (answers x) ≡ again wait) (omega (arith, here)) e in
      rw last (refl, refl)
  attempt_from-gave_up (suc left) attempt m wait (pause, worth, on, retried) here e =
      let (same, count) =
        attempt_from-gave_up left (suc attempt) m wait retried (omega (arith, here)) e in
      rw worth (rw on (same, omega (arith, count)))

-- Do returns what decides: if the first attempts, at most three, are worth another, no wait behind
-- them is interrupted, and the next attempt decides, then Do returns its reply, and no further
-- request is sent.
pub send-reply :
    (until : Str → Option ℕ) (answers : ℕ → Attempt) (interrupted : ℕ → Bool) (k n : ℕ)
    (reply : Reply)
    → k ≤ 3
    → AreRetried until answers interrupted k 1
    → judge until (k + 1) (answers (k + 1)) ≡ final n reply
    → ((send until answers interrupted).reply ≡ reply)
      × ((send until answers interrupted).requests ≡ k + n)
unfolding send
send-reply until answers interrupted k n reply h retried e =
    attempt_from-reply until answers interrupted k 3 1 (k + 1) n reply h retried refl e

-- If all four attempts are worth another, and no wait is interrupted, Do gives up after the fourth.
pub send-gave_up :
    (until : Str → Option ℕ) (answers : ℕ → Attempt) (interrupted : ℕ → Bool) (wait : ℕ)
    → AreRetried until answers interrupted 3 1
    → judge until 4 (answers 4) ≡ again wait
    → ((send until answers interrupted).reply ≡ gave_up)
      × ((send until answers interrupted).requests ≡ max_attempts)
unfolding send
send-gave_up until answers interrupted wait retried e =
    attempt_from-gave_up until answers interrupted 3 1 4 wait retried refl e
