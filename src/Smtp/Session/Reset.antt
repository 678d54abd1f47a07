-- ===== src/Smtp/Session/Reset.antt =====
-- A Data whose transaction was reset while it ran.
use scan2graph.Prelude.{
  ℕ, suc, ◌+◌, ◌%◌, ◌<◌, ◌≡◌, ◌≢◌, refl, Option, none, Str, arith, modulus, Unicode, Option-cases,
  inl, inr, ◌∙◌, ap,
}
use scan2graph.Prelude.Dict.{lookup}
use scan2graph.Jobs.Types.{Store, Staging}
use scan2graph.Jobs.Cases.{release_cases}
use scan2graph.Jobs.Reserve.{release_reservation}
use scan2graph.Jobs.Stage.{abort}
use scan2graph.Config.Types.{Config}
use scan2graph.Smtp.Session.{
  World, Session, rejected, aborted, Ticket, Extracted, ExtractError, Machine, cleared,
  abort_staging, reset, mail, rcpt, data_end,
}

release-jobs : (s : Store) (id : Str) → (release_reservation s id).jobs ≡ s.jobs
release-jobs s id = release_cases (λ t. t.jobs ≡ s.jobs) s id refl (λ r e. refl)

abort-jobs : (s : Store) (st : Staging) → (abort s st).0.jobs ≡ s.jobs
unfolding abort
abort-jobs s st = ground (arith, release-jobs s st.id)

-- An Abort leaves the jobs and the session alone.
pub abort_staging-jobs :
    (w : World) (id : Str)
    → ((abort_staging w id).store.jobs ≡ w.store.jobs) × ((abort_staging w id).session ≡ w.session)
unfolding abort_staging
abort_staging-jobs w id = elim (Option-cases (lookup id w.stagings)) [
  | inl e ↦ rw (e, abort_staging) (refl, refl)
  | inr (st, e) ↦ rw (e, abort_staging) (abort-jobs w.store st, refl)
]

pub reset-session : (w : World) → (reset w).session ≡ cleared w.session
unfolding reset
reset-session w = elim (Option-cases w.session.staging) [
  | inl e ↦ simp (e, reset) refl
  | inr (id, e) ↦
      simp (e, reset) (abort_staging-jobs (record w { session = cleared w.session }) id).1
]

-- What may run while Data is between its two halves: the commands of the session, and anything that
-- other goroutines do to the store and to the stagings. The number counts the resets.
pub data Later (u : Unicode) (cfg : Config) (w : World) : ℕ → World → Type 0 where
  now : Later u cfg w 0 w
  resets : {n : ℕ} {v : World} → Later u cfg w n v → Later u cfg w (suc n) (reset v)
  mails :
      {n : ℕ} {v : World} (sender : Str)
      → Later u cfg w n v
      → Later u cfg w (suc n) (mail u cfg v sender).0
  rcpts : {n : ℕ} {v : World} (to : Str) → Later u cfg w n v → Later u cfg w n (rcpt u cfg v to).0
  others :
      {n : ℕ} {v : World} (v' : World)
      → v'.session ≡ v.session
      → Later u cfg w n v
      → Later u cfg w n v'

mail-generation :
    (u : Unicode) (cfg : Config) (w : World) (sender : Str)
    → (mail u cfg w sender).0.session.generation ≡ (w.session.generation + 1) % modulus
unfolding mail cleared
mail-generation u cfg w sender = ground (arith, reset-session w)

rcpt-generation :
    (u : Unicode) (cfg : Config) (w : World) (to : Str)
    → (rcpt u cfg w to).0.session.generation ≡ w.session.generation
unfolding rcpt
rcpt-generation u cfg w to = ground arith

Later-generation :
    {u : Unicode} {cfg : Config} {w v : World} {n : ℕ}
    → w.session.generation < modulus
    → Later u cfg w n v
    → v.session.generation ≡ (w.session.generation + n) % modulus
unfolding cleared
Later-generation h now = omega arith
Later-generation h (resets {v = v} l) =
    ap (λ (s : Session). s.generation) (reset-session v) ∙ omega (arith, Later-generation h l)
Later-generation {u} {cfg} h (mails {v = v} sender l) =
    mail-generation u cfg v sender ∙ omega (arith, Later-generation h l)
Later-generation {u} {cfg} h (rcpts {v = v} to l) =
    rcpt-generation u cfg v to ∙ Later-generation h l
Later-generation h (others v' e l) = ap (λ (s : Session). s.generation) e ∙ Later-generation h l

data_end-stale :
    (u : Unicode) (m : Machine) (w : World) (t : Ticket) (x : Extracted) (e : Option ExtractError)
    → w.session.generation ≢ t.generation
    → let (w', reply) = data_end u m w t x e in
      (reply ≡ rejected aborted) × (w'.store.jobs ≡ w.store.jobs)
unfolding data_end
data_end-stale u m w t x e stale =
    let w' : World = record w { session = record w.session { staging = none } } in
    ground (arith, abort_staging-jobs w' t.id)

-- If the transaction of a Data was reset while it ran, by RSET, by a new MAIL or by the end of the
-- connection, Data answers that it was aborted and enters no job, whatever was extracted. It was
-- reset less than 2 ^ 64 times.
pub reset_data_commits_nothing :
    (u : Unicode) (cfg : Config) (m : Machine) (w v : World) (t : Ticket) (x : Extracted)
    (e : Option ExtractError) (n : ℕ)
    → t.generation ≡ w.session.generation
    → w.session.generation < modulus
    → Later u cfg w (suc n) v
    → suc n < modulus
    → let (v', reply) = data_end u m v t x e in
      (reply ≡ rejected aborted) × (v'.store.jobs ≡ v.store.jobs)
reset_data_commits_nothing u cfg m w v t x e n same word l few =
    data_end-stale u m v t x e (omega (arith, Later-generation word l))
