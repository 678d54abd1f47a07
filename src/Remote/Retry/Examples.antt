-- ===== src/Remote/Retry/Examples.antt =====
-- The theorems on the retry loop, applied to a service that is busy once.
use scan2graph.Prelude.{
  ◌≡◌, ◌≤◌, refl, ℕ, false, [], none, codes, All, length, arith, ◌==◌, if◌then◌else◌,
}
use scan2graph.Remote.Retry.{Attempt, answered, accepted, Run, send}
use scan2graph.Remote.Retry.Bounded.{IsBounded, send-IsFrugal}
use scan2graph.Remote.Retry.Replies.{send-reply}

-- 429 with "Retry-After: 2", then 202.
abbrev busy_once : ℕ → Attempt
busy_once k = if k == 1 then answered 429 (codes "2") else answered 202 []

send-IsFrugal_example :
    ((send (λ v. none) busy_once (λ k. false)).requests ≤ 4)
    × (length (send (λ v. none) busy_once (λ k. false)).waits ≤ 3)
    × All IsBounded (send (λ v. none) busy_once (λ k. false)).waits
send-IsFrugal_example =
    send-IsFrugal (λ v. none) busy_once (λ k. false) (λ v d h. ground (arith, h))

send-reply_example :
    ((send (λ v. none) busy_once (λ k. false)).reply ≡ accepted 202)
    × ((send (λ v. none) busy_once (λ k. false)).requests ≡ 2)
unfolding scan2graph.Remote.Retry.judge
send-reply_example =
    send-reply (λ v. none) busy_once (λ k. false) 1 1 (accepted 202) (omega arith)
      (2000000000, refl, refl, tt) refl
